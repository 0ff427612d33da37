-- ===== src/Prelude/Among.antt =====
-- Membership in a list, as a choice that can be taken apart into any type.
use mathlib.Core.Path.{◌≡◌, refl, ap}
use mathlib.Core.Logic.{◌⊎◌, inl, inr}
use mathlib.Core.Bool.{Bool, true}
use mathlib.Core.List.{List, [], ◌∷◌, ◌++◌}
use craft_stack.Prelude.Lists.{keep}
use craft_stack.Prelude.Tests.{Bool-cases}

module _ {A : Type 0} where
  abbrev pub Among : A → List A → Type 0
  Among a [] = ⊥
  Among a (x ∷ xs) = (a ≡ x) ⊎ Among a xs

  pub Among-left : (a : A) (xs ys : List A) → Among a xs → Among a (xs ++ ys)
  Among-left a [] ys m = absurd m
  Among-left a (x ∷ xs) ys (inl e) = inl e
  Among-left a (x ∷ xs) ys (inr m) = inr (Among-left a xs ys m)

  pub Among-right : (a : A) (xs ys : List A) → Among a ys → Among a (xs ++ ys)
  Among-right a [] ys m = m
  Among-right a (x ∷ xs) ys m = inr (Among-right a xs ys m)

  pub Among-last : (a : A) (xs : List A) → Among a (xs ++ a ∷ [])
  Among-last a xs = Among-right a xs (a ∷ []) (inl refl)

  -- An element of a list is the one that is taken out, or it stays.
  pub Among-taken :
      (a x : A) (xs ys : List A) → Among a (xs ++ x ∷ ys) → (a ≡ x) ⊎ Among a (xs ++ ys)
  Among-taken a x [] ys m = m
  Among-taken a x (z ∷ xs) ys (inl e) = inr (inl e)
  Among-taken a x (z ∷ xs) ys (inr m) = elim (Among-taken a x xs ys m) [
    | inl e ↦ inl e
    | inr r ↦ inr (inr r)
  ]

  pub Among-keep :
      (p : A → Bool) (a : A) (xs : List A) → p a ≡ true → Among a xs → Among a (keep p xs)
  Among-keep p a [] t m = absurd m
  Among-keep p a (x ∷ xs) t (inl e) = let passes : p x ≡ true = cc (ap p e) in rw passes (inl e)
  Among-keep p a (x ∷ xs) t (inr m) = elim (Bool-cases (p x)) [
    | inl e ↦ rw e (inr (Among-keep p a xs t m))
    | inr e ↦ rw e (Among-keep p a xs t m)
  ]

  pub List-cases : (xs : List A) → (xs ≡ []) ⊎ ((x : A) × (ys : List A) × (xs ≡ x ∷ ys))
  List-cases [] = inl refl
  List-cases (x ∷ xs) = inr (x, xs, refl)
