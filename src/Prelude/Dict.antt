-- ===== src/Prelude/Dict.antt =====
-- A Go map with string keys, as a list of entries. A loop over a map follows the list; Go leaves
-- the order open, so a statement about a loop is made for every list.
use mathlib.Core.Path.{◌≡◌, refl}
use mathlib.Core.Option
use mathlib.Core.Option.{Option, none, some}
use mathlib.Core.List.{List, [], ◌∷◌}
use native.Mathlib.Omega.{arith}
use mathlib.Core.Path.{subst}
use mathlib.Core.Logic.{inl, inr}
use craft_stack.Prelude.Lists.{All}
use craft_stack.Prelude.Tests.{Text, same, same_iff, same_self, if◌then◌else◌, Bool-cases}

abbrev pub Dict {ℓ} : Type ℓ → Type ℓ
Dict V = List (Text × V)

module _ {ℓ} {V : Type ℓ} where
  -- v, ok := m[k]
  unfoldable pub get : Dict V → Text → Option V
  get [] k = none
  get ((j, v) ∷ m) k = if same j k then some v else get m k

  -- m[k] = v
  unfoldable pub put : Dict V → Text → V → Dict V
  put [] k v = (k, v) ∷ []
  put ((j, w) ∷ m) k v = if same j k then (k, v) ∷ m else (j, w) ∷ put m k v

  -- delete(m, k)
  unfoldable pub remove : Dict V → Text → Dict V
  remove [] k = []
  remove ((j, v) ∷ m) k = let rest = remove m k in if same j k then rest else (j, v) ∷ rest

  pub get-put :
      (m : Dict V) (k j : Text) (v : V) → get (put m k v) j ≡ (if same k j then some v else get m j)
  unfolding get put
  get-put [] k j v = refl
  get-put ((i, w) ∷ m) k j v =
      ground (arith, get-put m k j v, same_iff i k, same_iff i j, same_iff k j)

  pub get-put_self : (m : Dict V) (k : Text) (v : V) → get (put m k v) k ≡ some v
  get-put_self m k v = simp (get-put, same_self)

  pub get-remove :
      (m : Dict V) (k j : Text) → get (remove m k) j ≡ (if same k j then none else get m j)
  unfolding get remove
  get-remove [] k j = ground arith
  get-remove ((i, w) ∷ m) k j =
      ground (arith, get-remove m k j, same_iff i k, same_iff i j, same_iff k j)

  pub get-empty : (k : Text) → get [] k ≡ none
  unfolding get
  get-empty k = refl

-- The same change to every value.
module _ {ℓ} {V : Type ℓ} where
  unfoldable pub map_values : (Text → V → V) → Dict V → Dict V
  map_values f [] = []
  map_values f ((j, v) ∷ m) = (j, f j v) ∷ map_values f m

  pub get-map_values :
      (f : Text → V → V) (m : Dict V) (k : Text)
      → get (map_values f m) k ≡ Option.map (f k) (get m k)
  unfolding get map_values
  get-map_values f [] k = refl
  get-map_values f ((j, v) ∷ m) k = ground (arith, get-map_values f m k, same_iff j k)

pub ruleset dict_laws = (get-empty, get-put, get-remove)

-- A property of every value.
module _ {ℓ κ} {V : Type ℓ} (Q : V → Type κ) where
  abbrev pub AllValues : Dict V → Type κ
  AllValues m = All (λ e. Q e.1) m

  pub AllValues-put : (m : Dict V) (k : Text) (v : V) → AllValues m → Q v → AllValues (put m k v)
  unfolding put
  AllValues-put [] k v h q = (q, tt)
  AllValues-put ((j, w) ∷ m) k v (p, h) q = elim (Bool-cases (same j k)) [
    | inl e ↦ rw e (q, h)
    | inr e ↦ rw e (p, AllValues-put m k v h q)
  ]

  pub AllValues-remove : (m : Dict V) (k : Text) → AllValues m → AllValues (remove m k)
  unfolding remove
  AllValues-remove [] k h = tt
  AllValues-remove ((j, w) ∷ m) k (p, h) = elim (Bool-cases (same j k)) [
    | inl e ↦ rw e (AllValues-remove m k h)
    | inr e ↦ rw e (p, AllValues-remove m k h)
  ]

  pub AllValues-get : (m : Dict V) (k : Text) {v : V} → AllValues m → get m k ≡ some v → Q v
  unfolding get
  AllValues-get [] k h e = cc
  AllValues-get ((j, w) ∷ m) k {v} (p, h) e = elim (Bool-cases (same j k)) [
    | inl t ↦ let same_value : w ≡ v = cc (rw t at e) in subst Q same_value p
    | inr t ↦ AllValues-get m k {v = v} h (rw t at e)
  ]
