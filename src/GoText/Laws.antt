-- ===== src/GoText/Laws.antt =====
-- Laws of splitting, and of reading numbers.
use craft_stack.Prelude.{
  ℕ, ◌+◌, ◌-◌, ◌*◌, ◌^◌, ◌<◌, ◌≡◌, ◌≢◌, inl, inr, refl, ap, ◌∙◌, List, [], ◌∷◌, ◌++◌, Text, true,
  false, ◌||◌, none, some, ◌==◌, arith, All, Bool-cases, append-nil, append_assoc,
}
use craft_stack.Prelude.Int.{pos}
use craft_stack.GoText.{
  contains_byte, split, before, behind, is_digit, digits_value, unsigned, positive, negative, atoi,
  is_space, trim_right, blank_or, trim_space, flush, fields_from, fields,
}

-- `c` does not occur in the text.
abbrev pub Lacks : ℕ → Text → Type 0
Lacks c s = All (λ x. x ≢ c) s

abbrev pub IsDigits : Text → Type 0
IsDigits s = All (λ c. is_digit c ≡ true) s

pub IsDigits-Lacks : (c : ℕ) (s : Text) → is_digit c ≡ false → IsDigits s → Lacks c s
IsDigits-Lacks c [] e h = tt
IsDigits-Lacks c (x ∷ s) e (d, h) = (λ p. ground (arith), IsDigits-Lacks c s e h)

-- The number that a row of digits stands for.
abbrev pub numeral : ℕ → Text → ℕ
numeral acc [] = acc
numeral acc (c ∷ s) = numeral (acc * 10 + (c - b'0')) s

digits_value-numeral : (acc : ℕ) (s : Text) → IsDigits s → digits_value acc s ≡ some (numeral acc s)
unfolding digits_value
digits_value-numeral acc [] h = refl
digits_value-numeral acc (c ∷ s) (d, h) = rw d (digits_value-numeral (acc * 10 + (c - b'0')) s h)

pub atoi-digits :
    (c : ℕ) (s : Text)
    → IsDigits (c ∷ s)
    → numeral 0 (c ∷ s) < 2 ^ 63
    → atoi (c ∷ s) ≡ some (pos (numeral 0 (c ∷ s)))
unfolding atoi unsigned positive
atoi-digits c s h b = ground (arith, digits_value-numeral 0 (c ∷ s) h)

-- A text with a byte that is no digit is not all digits.
digits_value-contains :
    (acc c : ℕ) (s : Text)
    → is_digit c ≡ false
    → contains_byte s c ≡ true
    → digits_value acc s ≡ none
unfolding digits_value contains_byte
digits_value-contains acc c [] e h = cc
digits_value-contains acc c (x ∷ s) e h =
    ground (arith, digits_value-contains (acc * 10 + (x - b'0')) c s e)

unsigned-contains :
    (c : ℕ) (s : Text) → is_digit c ≡ false → contains_byte s c ≡ true → unsigned s ≡ none
unfolding unsigned
unsigned-contains c [] e h = refl
unsigned-contains c (x ∷ s) e h = digits_value-contains 0 c (x ∷ s) e h

-- A text that holds a byte other than digits and signs is no number.
pub atoi-contains :
    (c : ℕ) (s : Text)
    → is_digit c ≡ false
    → c ≢ b'-'
    → c ≢ b'+'
    → contains_byte s c ≡ true
    → atoi s ≡ none
unfolding atoi positive negative contains_byte
atoi-contains c [] e m p h = refl
atoi-contains c (x ∷ s) e m p h =
    ground (arith, unsigned-contains c s e, unsigned-contains c (x ∷ s) e)

pub contains-Lacks : (c : ℕ) (s : Text) → Lacks c s → contains_byte s c ≡ false
unfolding contains_byte
contains-Lacks c [] h = refl
contains-Lacks c (x ∷ s) (n, h) = ground (arith, contains-Lacks c s h)

pub contains-append :
    (c : ℕ) (s t : Text) → contains_byte (s ++ t) c ≡ (contains_byte s c || contains_byte t c)
unfolding contains_byte
contains-append c [] t = refl
contains-append c (x ∷ s) t = ground (arith, contains-append c s t)

pub contains_here : (c : ℕ) (s : Text) → contains_byte (c ∷ s) c ≡ true
unfolding contains_byte
contains_here c s = ground arith

module _ (c : ℕ) where
  pub before-sep : (s t : Text) → Lacks c s → before (s ++ c ∷ t) c ≡ s
  unfolding before
  before-sep [] t h = ground arith
  before-sep (x ∷ s) t (n, h) = ground (arith, before-sep s t h)

  pub behind-sep : (s t : Text) → Lacks c s → behind (s ++ c ∷ t) c ≡ t
  unfolding behind
  behind-sep [] t h = ground arith
  behind-sep (x ∷ s) t (n, h) = ground (arith, behind-sep s t h)

  pub split-Lacks : (s : Text) → Lacks c s → split s c ≡ s ∷ []
  unfolding split
  split-Lacks [] h = refl
  split-Lacks (x ∷ s) (n, h) = ground (arith, split-Lacks s h)

  pub split-sep : (s t : Text) → Lacks c s → split (s ++ c ∷ t) c ≡ s ∷ split t c
  unfolding split
  split-sep [] t h = ground arith
  split-sep (x ∷ s) t (n, h) = ground (arith, split-sep s t h)

  pub split-cons : (s : Text) → (p : Text) × (ps : List Text) × (split s c ≡ p ∷ ps)
  unfolding split
  split-cons [] = ([], [], refl)
  split-cons (x ∷ s) =
      let (p, ps, e) = split-cons s in
      elim (Bool-cases (x == c)) [ inl h ↦ ([], split s c, rw h) | inr h ↦ (x ∷ p, ps, rw (h, e)) ]

-- strings.Join with a one-byte separator, which splitting undoes.
abbrev pub join : List Text → ℕ → Text
join [] c = []
join (p ∷ []) c = p
join (p ∷ q ∷ ps) c = p ++ c ∷ join (q ∷ ps) c

pub split-join :
    (c : ℕ) (p : Text) (ps : List Text)
    → All (Lacks c) (p ∷ ps)
    → split (join (p ∷ ps) c) c ≡ p ∷ ps
split-join c p [] (h, _) = split-Lacks c p h
split-join c p (q ∷ ps) (h, hs) =
    split-sep c p (join (q ∷ ps) c) h ∙ ap (◌∷◌ p) (split-join c q ps hs)

-- No white space occurs in the text.
abbrev pub IsSolid : Text → Type 0
IsSolid s = All (λ c. is_space c ≡ false) s

trim_right-IsSolid : (s : Text) → IsSolid s → trim_right s ≡ s
unfolding trim_right
trim_right-IsSolid [] h = refl
trim_right-IsSolid (c ∷ []) (e, h) = rw e
trim_right-IsSolid (c ∷ d ∷ s) (e, h) = ap (blank_or c) (trim_right-IsSolid (d ∷ s) h)

pub trim_space-IsSolid : (s : Text) → IsSolid s → trim_space s ≡ s
unfolding trim_space
trim_space-IsSolid [] h = refl
trim_space-IsSolid (c ∷ s) (e, h) = rw e (trim_right-IsSolid (c ∷ s) (e, h))

fields_from-IsSolid :
    (w s t : Text) → IsSolid s → fields_from w (s ++ 32 ∷ t) ≡ flush (w ++ s) (fields_from [] t)
unfolding fields_from
fields_from-IsSolid w [] t h = rw append-nil
fields_from-IsSolid w (c ∷ s) t (e, h) =
    rw (e, fields_from)
      (fields_from-IsSolid (w ++ c ∷ []) s t h
        ∙ ap (λ v. flush v (fields_from [] t)) (append_assoc w (c ∷ []) s))

fields_from_end : (w s : Text) → IsSolid s → fields_from w s ≡ flush (w ++ s) []
unfolding fields_from
fields_from_end w [] h = rw append-nil
fields_from_end w (c ∷ s) (e, h) =
    rw (e, fields_from)
      (fields_from_end (w ++ c ∷ []) s h ∙ ap (λ v. flush v []) (append_assoc w (c ∷ []) s))

-- A word ends at a blank.
pub fields-word :
    (c : ℕ) (s t : Text) → IsSolid (c ∷ s) → fields ((c ∷ s) ++ 32 ∷ t) ≡ (c ∷ s) ∷ fields t
unfolding fields
fields-word c s t h = fields_from-IsSolid [] (c ∷ s) t h

pub fields_last : (c : ℕ) (s : Text) → IsSolid (c ∷ s) → fields (c ∷ s) ≡ (c ∷ s) ∷ []
unfolding fields
fields_last c s h = fields_from_end [] (c ∷ s) h

pub All-append {ℓ} :
    {A : Type 0} (P : A → Type ℓ) (xs ys : List A) → All P xs → All P ys → All P (xs ++ ys)
All-append P [] ys h k = k
All-append P (x ∷ xs) ys (p, h) k = (p, All-append P xs ys h k)

pub All-mono {ℓ κ} :
    {A : Type 0} (P : A → Type ℓ) (Q : A → Type κ) (xs : List A)
    → ((x : A) → P x → Q x)
    → All P xs
    → All Q xs
All-mono P Q [] f h = tt
All-mono P Q (x ∷ xs) f (p, h) = (f x p, All-mono P Q xs f h)
