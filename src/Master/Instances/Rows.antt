-- ===== src/Master/Instances/Rows.antt =====
-- Rows of the tables of internal/master/store/instance.go: their keys, and the references to them.
use craft_stack.Prelude.{
  ◌≡◌, refl, ap, ◌∙◌, List, [], ◌∷◌, ◌++◌, Text, Bool, true, false, ◌||◌, some, inl, inr, same,
  same_iff, any, keep, map, All, Bool-cases, if◌then◌else◌, arith,
}
use mathlib.Core.Option.{some_inj}
use mathlib.Core.Path.{subst}
use craft_stack.Master.Instances.{Instance}
use craft_stack.Master.Instances.Store.{find_instance, change_rows}

module _ {A : Type 0} where
  pub any-append : (p : A → Bool) (xs ys : List A) → any p (xs ++ ys) ≡ (any p xs || any p ys)
  any-append p [] ys = refl
  any-append p (x ∷ xs) ys = ground (arith, any-append p xs ys)

  pub All-append {κ} : (P : A → Type κ) (xs ys : List A) → All P xs → All P ys → All P (xs ++ ys)
  All-append P [] ys hx hy = hy
  All-append P (x ∷ xs) ys (h, hx) hy = (h, All-append P xs ys hx hy)

  pub All-imply {κ} :
      (P : A → Type κ) (Q : A → Type κ) (xs : List A) → ((x : A) → P x → Q x) → All P xs → All Q xs
  All-imply P Q [] h a = tt
  All-imply P Q (x ∷ xs) h (p, a) = (h x p, All-imply P Q xs h a)

  pub All-map {κ} :
      (P : A → Type κ) (Q : A → Type κ) (f : A → A) (xs : List A)
      → ((x : A) → P x → Q (f x))
      → All P xs
      → All Q (map f xs)
  All-map P Q f [] h a = tt
  All-map P Q f (x ∷ xs) h (p, a) = (h x p, All-map P Q f xs h a)

  -- What the test passes keeps what every element had, and what the test tells.
  pub All-keep {κ} :
      (P : A → Type κ) (Q : A → Type κ) (p : A → Bool) (xs : List A)
      → ((x : A) → p x ≡ true → P x → Q x)
      → All P xs
      → All Q (keep p xs)
  All-keep P Q p [] h a = tt
  All-keep P Q p (x ∷ xs) h (q, a) = elim (Bool-cases (p x)) [
    | inl t ↦ rw t (h x t q, All-keep P Q p xs h a)
    | inr f ↦ rw f (All-keep P Q p xs h a)
  ]

  -- An element that is found is still found among those that a test passes, if the test passes it.
  pub any-keep :
      (q : A → Bool) (p : A → Bool) (xs : List A)
      → ((x : A) → q x ≡ true → p x ≡ true)
      → any q xs ≡ true
      → any q (keep p xs) ≡ true
  any-keep q p [] h e = e
  any-keep q p (x ∷ xs) h e = elim (Bool-cases (q x)) [
    | inl t ↦ rw (h x t) (ground (arith, t))
    | inr f ↦
        let rest = any-keep q p xs h (ground (arith, f, e)) in
        elim (Bool-cases (p x)) [ inl t ↦ rw t (ground (arith, rest)) | inr n ↦ rw n rest ]
  ]

-- No id stands twice.
abbrev pub Distinct : List Instance → Type 0
Distinct [] = Unit
Distinct (i ∷ is) = (any (λ k. same k.id i.id) is ≡ false) × Distinct is

same_sym : (s t : Text) → same s t ≡ same t s
same_sym s t = ground (arith, same_iff s t, same_iff t s)

pub Distinct-append :
    (is : List Instance) (i : Instance)
    → any (λ k. same k.id i.id) is ≡ false
    → Distinct is
    → Distinct (is ++ i ∷ [])
Distinct-append [] i h d = (refl, tt)
Distinct-append (k ∷ is) i h (e, d) = (
  any-append (λ m. same m.id k.id) is (i ∷ []) ∙ ground (arith, e, h, same_sym i.id k.id),
  Distinct-append is i (ground (arith, h)) d,
)

pub Distinct-keep : (p : Instance → Bool) (is : List Instance) → Distinct is → Distinct (keep p is)
Distinct-keep p [] d = tt
Distinct-keep p (i ∷ is) (e, d) = elim (Bool-cases (p i)) [
  | inl t ↦ rw t (absent is e, Distinct-keep p is d)
  | inr f ↦ rw f (Distinct-keep p is d)
]
  where
    absent :
        (ks : List Instance)
        → any (λ k. same k.id i.id) ks ≡ false
        → any (λ k. same k.id i.id) (keep p ks) ≡ false
    absent [] h = h
    absent (k ∷ ks) h = elim (Bool-cases (p k)) [
      | inl t ↦ rw t (ground (arith, h, absent ks))
      | inr f ↦ rw f (absent ks (ground (arith, h)))
    ]

module _ (id : Text) (f : Instance → Instance) (keeps : (i : Instance) → (f i).id ≡ i.id) where
  pub any-change_rows :
      (k : Text) (is : List Instance)
      → any (λ i. same i.id k) (change_rows id f is) ≡ any (λ i. same i.id k) is
  unfolding change_rows
  any-change_rows k [] = refl
  any-change_rows k (i ∷ is) = ground (arith, any-change_rows k is, keeps i)

  same_id : (i : Instance) → (if same i.id id then f i else i).id ≡ i.id
  same_id i = ground (arith, keeps i)

  pub Distinct-change_rows : (is : List Instance) → Distinct is → Distinct (change_rows id f is)
  unfolding change_rows
  Distinct-change_rows [] d = tt
  Distinct-change_rows (i ∷ is) (e, d) = (
    ap (λ k. any (λ (m : Instance). same m.id k) (change_rows id f is)) (same_id i)
        ∙ any-change_rows i.id is
        ∙ e,
    Distinct-change_rows is d,
  )

pub All-find_instance {κ} :
    (P : Instance → Type κ) (id : Text) (is : List Instance) (i : Instance)
    → find_instance id is ≡ some i
    → All P is
    → P i
unfolding find_instance
All-find_instance P id [] i e a = absurd (cc e)
All-find_instance P id (k ∷ is) i e (p, a) = elim (Bool-cases (same k.id id)) [
  | inl t ↦ subst P (some_inj.0 (rw t at e)) p
  | inr f ↦ All-find_instance P id is i (rw f at e) a
]
