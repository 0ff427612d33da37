-- ===== src/GoPath/Laws.antt =====
-- Laws of cleaning and joining paths.
use craft_stack.Prelude.{
  ℕ, ◌≡◌, refl, ap, ◌∙◌, List, [], ◌∷◌, ◌++◌, append-nil, append_assoc, Text, codes, Bool, true,
  false, same, All, arith,
}
use craft_stack.GoText.{has_prefix, split}
use craft_stack.GoText.Laws.{Lacks, split-sep, split-Lacks}
use craft_stack.GoPath.{push_element, push_elements, print_stack, clean, join}

-- A name of a file or a directory
pub record IsElement (e : Text) : Type 0 where
  pub no_slash : Lacks b'/' e
  pub not_empty : same e [] ≡ false
  pub not_dot : same e (codes ".") ≡ false
  pub not_up : same e (codes "..") ≡ false

push-element :
    (b : Bool) (e : Text) (stack : List Text) → IsElement e → push_element b e stack ≡ e ∷ stack
unfolding push_element
push-element b e [] i = ground (arith, i.not_empty, i.not_dot, i.not_up)
push-element b e (top ∷ stack) i = ground (arith, i.not_empty, i.not_dot, i.not_up)

pub push-cons :
    (b : Bool) (e : Text) (es st : List Text)
    → IsElement e
    → push_elements b (e ∷ es) st ≡ push_elements b es (e ∷ st)
unfolding push_elements
push-cons b e es st i = ap (push_elements b es) (push-element b e st i)

pub push-nothing : (b : Bool) (st : List Text) → push_elements b [] st ≡ st
unfolding push_elements
push-nothing b st = refl

-- The elements of a printed stack go back onto a stack, before the elements of the rest.
pub push-print_rest :
    (b : Bool) (below : List Text) (e : Text) (st : List Text) (r : Text)
    → All IsElement (e ∷ st)
    → push_elements b (split (print_stack (e ∷ st) ++ b'/' ∷ r) b'/') below
      ≡ push_elements b (split r b'/') ((e ∷ st) ++ below)
unfolding print_stack
push-print_rest b below e [] r (i, is) =
    rw (split-sep b'/' e r i.no_slash) (push-cons b e (split r b'/') below i)
push-print_rest b below e (f ∷ st) r (i, is) =
    ap (λ s. push_elements b (split s b'/') below)
      (append_assoc (print_stack (f ∷ st)) (b'/' ∷ e) (b'/' ∷ r))
    ∙ push-print_rest b below f st (e ++ b'/' ∷ r) is
    ∙ rw (split-sep b'/' e r i.no_slash) (push-cons b e (split r b'/') ((f ∷ st) ++ below) i)

pub push-print :
    (b : Bool) (below : List Text) (e : Text) (st : List Text)
    → All IsElement (e ∷ st)
    → push_elements b (split (print_stack (e ∷ st)) b'/') below ≡ (e ∷ st) ++ below
unfolding print_stack
push-print b below e [] (i, is) =
    rw (split-Lacks b'/' e i.no_slash) (push-cons b e [] below i ∙ push-nothing b (e ∷ below))
push-print b below e (f ∷ st) (i, is) =
    push-print_rest b below f st e is
    ∙ rw (split-Lacks b'/' e i.no_slash)
        (push-cons b e [] ((f ∷ st) ++ below) i ∙ push-nothing b (e ∷ (f ∷ st) ++ below))

-- The absolute path of a stack
abbrev pub absolute : List Text → Text
absolute st = b'/' ∷ print_stack st

split-slash : (s : Text) → split (b'/' ∷ s) b'/' ≡ [] ∷ split s b'/'
unfolding split
split-slash s = refl

push-empty : (b : Bool) (es st : List Text) → push_elements b ([] ∷ es) st ≡ push_elements b es st
unfolding push_elements push_element same
push-empty b es [] = refl
push-empty b es (top ∷ st) = refl

clean_rooted : (s : Text) → clean (b'/' ∷ s) ≡ absolute (push_elements true (split s b'/') [])
unfolding clean has_prefix
clean_rooted s = rw (split-slash s) (ap absolute (push-empty true (split s b'/') []))

pub clean-absolute :
    (e : Text) (st : List Text)
    → All IsElement (e ∷ st)
    → clean (absolute (e ∷ st)) ≡ absolute (e ∷ st)
clean-absolute e st i =
    clean_rooted (print_stack (e ∷ st))
    ∙ rw (push-print true [] e st i) (ap absolute (append-nil (e ∷ st)))

-- Joining anything that is not empty to the path of a stack
pub join-absolute :
    (e : Text) (st : List Text) (c : ℕ) (r : Text)
    → All IsElement (e ∷ st)
    → join (absolute (e ∷ st)) (c ∷ r) ≡ absolute (push_elements true (split (c ∷ r) b'/') (e ∷ st))
unfolding join same
join-absolute e st c r i =
    clean_rooted (print_stack (e ∷ st) ++ b'/' ∷ c ∷ r)
    ∙ rw (push-print_rest true [] e st (c ∷ r) i)
        (ap (λ t. absolute (push_elements true (split (c ∷ r) b'/') t)) (append-nil (e ∷ st)))
