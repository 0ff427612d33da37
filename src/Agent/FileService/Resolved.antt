-- ===== src/Agent/FileService/Resolved.antt =====
-- Where the paths of file operations lead.
use craft_stack.Prelude.{
  ℕ, ◌≡◌, refl, sym, ap, ◌∙◌, List, [], ◌∷◌, ◌++◌, append-nil, append_assoc, Text, codes, Bool,
  true, false, not, some, same, All, arith, if◌then◌else◌, ◌==◌,
}
use craft_stack.Prelude.Dict.{Dict, get}
use craft_stack.GoText.{has_prefix, split}
use craft_stack.GoText.Laws.{All-append, split-Lacks}
use craft_stack.GoPath.{push_element, push_elements, print_stack, or_dot, clean, join}
use craft_stack.GoPath.Laws.{
  push-cons, push-nothing, IsElement, push-print, absolute, clean-absolute, join-absolute,
}
use craft_stack.Agent.FileService.{
  resolved, access_reject, abs, within, resolve_in, resolve_def, resolve_instance_path,
}

has_prefix-append : (s t : Text) → has_prefix (s ++ t) s ≡ true
unfolding has_prefix
has_prefix-append [] t = refl
has_prefix-append (c ∷ s) t = ground (arith, has_prefix-append s t)

abs-absolute :
    (cwd e : Text) (st : List Text)
    → All IsElement (e ∷ st)
    → abs cwd (absolute (e ∷ st)) ≡ absolute (e ∷ st)
unfolding abs has_prefix
abs-absolute cwd e st i = clean-absolute e st i

-- A path below, printed, behind the path that it is below
print-append :
    (e : Text) (st : List Text) (f : Text) (below : List Text)
    → print_stack ((e ∷ st) ++ f ∷ below) ≡ print_stack (f ∷ below) ++ b'/' ∷ print_stack (e ∷ st)
unfolding print_stack
print-append e [] f below = refl
print-append e (g ∷ st) f below =
    ap (λ s. s ++ b'/' ∷ e) (print-append g st f below)
    ∙ append_assoc (print_stack (f ∷ below)) (b'/' ∷ print_stack (g ∷ st)) (b'/' ∷ e)

relative-first :
    (e : Text) (st : List Text)
    → All IsElement (e ∷ st)
    → (c : ℕ) × (s : Text) × (print_stack (e ∷ st) ≡ c ∷ s) × ((c == b'/') ≡ false)
unfolding print_stack same
relative-first [] st (i, is) = absurd (ground (arith, i.not_empty))
relative-first (c ∷ e) [] (i, is) = (c, e, refl, ground (arith, i.no_slash))
relative-first e (f ∷ st) (i, is) =
    let (c, s, p, n) = relative-first f st is in (c, s ++ b'/' ∷ e, ap (λ t. t ++ b'/' ∷ e) p, n)

clean_unrooted :
    (t : Text)
    → has_prefix t (codes "/") ≡ false
    → clean t ≡ or_dot (print_stack (push_elements false (split t b'/') []))
unfolding clean
clean_unrooted t e = ground arith

or_dot-nonempty : (c : ℕ) (s : Text) → or_dot (c ∷ s) ≡ c ∷ s
unfolding or_dot same
or_dot-nonempty c s = refl

not_rooted : (c : ℕ) (s : Text) → (c == b'/') ≡ false → has_prefix (c ∷ s) (codes "/") ≡ false
unfolding has_prefix
not_rooted c s e = ground arith

clean-relative :
    (e : Text) (st : List Text)
    → All IsElement (e ∷ st)
    → clean (print_stack (e ∷ st)) ≡ print_stack (e ∷ st)
clean-relative e st i =
    let (c, s, p, n) = relative-first e st i in
    clean_unrooted (print_stack (e ∷ st)) (ap (λ t. has_prefix t (codes "/")) p ∙ not_rooted c s n)
    ∙ ap (λ es. or_dot (print_stack es)) (push-print false [] e st i ∙ append-nil (e ∷ st))
    ∙ ap or_dot p
    ∙ or_dot-nonempty c s
    ∙ sym p

-- The path of a sibling of the work directory
abbrev pub sibling : Text → Text
sibling g = codes "../" ++ g

split-sibling : (g : Text) → IsElement g → split (sibling g) b'/' ≡ codes ".." ∷ g ∷ []
unfolding split
split-sibling g i = rw (split-Lacks b'/' g i.no_slash) refl

push-sibling :
    (g : Text) → IsElement g → push_elements false (split (sibling g) b'/') [] ≡ g ∷ codes ".." ∷ []
unfolding split push_elements push_element same
push-sibling g i =
    rw (split-Lacks b'/' g i.no_slash) (ground (arith, i.not_empty, i.not_dot, i.not_up))

clean-sibling : (g : Text) → IsElement g → clean (sibling g) ≡ sibling g
clean-sibling g i =
    clean_unrooted (sibling g) (unfold has_prefix in refl)
    ∙ ap (λ es. or_dot (print_stack es)) (push-sibling g i)
    ∙ unfold print_stack or_dot same in refl

push-up :
    (g e : Text) (st : List Text)
    → IsElement g
    → IsElement e
    → push_elements true (split (sibling g) b'/') (e ∷ st) ≡ g ∷ st
unfolding push_elements push_element
push-up g e st i j =
    ap (λ es. push_elements true es (e ∷ st)) (split-sibling g i)
    ∙ ap (push_elements true (g ∷ [])) (up e st j)
    ∙ push-cons true g [] st i
    ∙ push-nothing true (g ∷ st)
  where
    up : (e : Text) (st : List Text) → IsElement e → push_element true (codes "..") (e ∷ st) ≡ st
    up e st j = unfold push_element same in ground (arith, j.not_up)

has_prefix-cancel : (p s t : Text) → has_prefix (p ++ s) (p ++ t) ≡ has_prefix s t
unfolding has_prefix
has_prefix-cancel [] s t = refl
has_prefix-cancel (c ∷ p) s t = ground (arith, has_prefix-cancel p s t)

prefix-sibling :
    (g e : Text) (st : List Text)
    → has_prefix (absolute (g ∷ st)) (absolute (e ∷ st)) ≡ has_prefix g e
unfolding has_prefix print_stack
prefix-sibling g e [] = refl
prefix-sibling g e (f ∷ st) = has_prefix-cancel (print_stack (f ∷ st)) (b'/' ∷ g) (b'/' ∷ e)

not_dot :
    (f : Text) (ft : List Text)
    → All IsElement (f ∷ ft)
    → same (print_stack (f ∷ ft)) (codes ".") ≡ false
unfolding print_stack
not_dot f [] (i, is) = i.not_dot
not_dot f (g ∷ ft) (i, is) =
    let (c, s, p, n) = relative-first g ft is in
    ap (λ t. same (t ++ b'/' ∷ f) (codes ".")) p ∙ longer c s
  where
    longer : (c : ℕ) (s : Text) → same ((c ∷ s) ++ b'/' ∷ f) (codes ".") ≡ false
    longer c [] = unfold same in ground arith
    longer c (d ∷ s) = unfold same in ground arith

module _ (cwd : Text) (defs : Dict Text) (id e : Text) (st : List Text)
    (known : get defs id ≡ some (absolute (e ∷ st))) (i : All IsElement (e ∷ st)) where
  resolve-known :
      (c : ℕ) (r : Text)
      → clean (c ∷ r) ≡ c ∷ r
      → same (c ∷ r) (codes ".") ≡ false
      → resolve_instance_path cwd defs id (c ∷ r)
        ≡ within
            (absolute (e ∷ st))
            (abs cwd (absolute (push_elements true (split (c ∷ r) b'/') (e ∷ st))))
  resolve-known c r k d =
      unfold resolve_instance_path in
      ap (resolve_def cwd (c ∷ r)) known
      ∙ has_dir (absolute (e ∷ st)) (unfold same in refl)
      ∙ ap (resolve_in cwd (c ∷ r)) (abs-absolute cwd e st i)
      ∙ joined (absolute (e ∷ st))
      ∙ ap (λ t. within (absolute (e ∷ st)) (abs cwd t)) (join-absolute e st c r i)
    where
      has_dir :
          (w : Text)
          → same w [] ≡ false
          → resolve_def cwd (c ∷ r) (some w) ≡ resolve_in cwd (c ∷ r) (abs cwd w)
      has_dir w n = unfold resolve_def in ground (arith, n)

      not_empty : same (c ∷ r) [] ≡ false
      not_empty = unfold same in refl

      joined : (w : Text) → resolve_in cwd (c ∷ r) w ≡ within w (abs cwd (join w (c ∷ r)))
      joined w = unfold resolve_in in rw (k, d, not_empty) refl

  -- For an instance whose work directory is an absolute path of names, not the root, a relative path
  -- of names leads to the place below the work directory that it names.
  pub resolve_instance_path-below :
      (f : Text) (ft : List Text)
      → All IsElement (f ∷ ft)
      → resolve_instance_path cwd defs id (print_stack (f ∷ ft))
        ≡ resolved (absolute (e ∷ st) ++ b'/' ∷ print_stack (f ∷ ft))
  resolve_instance_path-below f ft is =
      let (c, r, p, n) = relative-first f ft is in
      ap (resolve_instance_path cwd defs id) p
      ∙ resolve-known c r (sym (ap clean p) ∙ clean-relative f ft is ∙ p)
          (ap (λ t. same t (codes ".")) (sym p) ∙ not_dot f ft is)
      ∙ ap
          (λ t.
            within (absolute (e ∷ st))
              (abs cwd (absolute (push_elements true (split t b'/') (e ∷ st)))))
          (sym p)
      ∙ ap (λ es. within (absolute (e ∷ st)) (abs cwd (absolute es)))
          (push-print true (e ∷ st) f ft is)
      ∙ ap (within (absolute (e ∷ st)))
          (abs-absolute cwd f (ft ++ e ∷ st) (All-append IsElement (f ∷ ft) (e ∷ st) is i))
      ∙ ap (λ t. within (absolute (e ∷ st)) (b'/' ∷ t)) (print-append f ft e st)
      ∙ passes (absolute (e ∷ st)) (b'/' ∷ print_stack (f ∷ ft))
    where
      passes : (w t : Text) → within w (w ++ t) ≡ resolved (w ++ t)
      passes w t = unfold within in rw (has_prefix-append w t) refl

  -- For an instance whose work directory is an absolute path of names, not the root, a path "../g" is
  -- let through, to the sibling g of the work directory, exactly if g starts with the name of the work
  -- directory: the check reads the prefix without a separator behind it.
  pub resolve_instance_path-sibling :
      (g : Text)
      → IsElement g
      → resolve_instance_path cwd defs id (sibling g)
        ≡ (if has_prefix g e then resolved (absolute (g ∷ st)) else access_reject)
  resolve_instance_path-sibling g j =
      resolve-known 46 (46 ∷ b'/' ∷ g) (clean-sibling g j) (unfold same in refl)
      ∙ ap (λ es. within (absolute (e ∷ st)) (abs cwd (absolute es))) (push-up g e st j i.0)
      ∙ ap (within (absolute (e ∷ st))) (abs-absolute cwd g st (j, i.1))
      ∙ checked
    where
      checked :
          within (absolute (e ∷ st)) (absolute (g ∷ st))
          ≡ (if has_prefix g e then resolved (absolute (g ∷ st)) else access_reject)
      checked = unfold within in rw (prefix-sibling g e st) (flipped (has_prefix g e))
        where
          flipped :
              (b : Bool)
              → (if not b then access_reject else resolved (absolute (g ∷ st)))
                ≡ (if b then resolved (absolute (g ∷ st)) else access_reject)
          flipped true = refl
          flipped false = refl
