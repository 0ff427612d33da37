-- ===== src/Master/Users/Keyed.antt =====
-- Ids in the users table are distinct, so that a row is found again by its id.
use craft_stack.Prelude.{
  ℕ, ◌+◌, ◌<◌, ◌≡◌, ◌≢◌, refl, List, [], ◌∷◌, ◌++◌, Text, Bool, not, none, some, ◌==◌, keep, All,
  arith, if◌then◌else◌, Bool-cases, inl, inr,
}
use craft_stack.Master.Users.{User, UserTable, find_id, find_username, update_rows}

abbrev pub Fresh : ℕ → List User → Type 0
Fresh k us = All (λ u. u.id ≢ k) us

abbrev pub Distinct : List User → Type 0
Distinct [] = Unit
Distinct (u ∷ us) = Fresh u.id us × Distinct us

pub record IsKeyed (t : UserTable) : Type 0 where
  pub distinct : Distinct t.rows
  pub below : All (λ u. u.id < t.next_id) t.rows

pub find_id-Fresh : (k : ℕ) (us : List User) → Fresh k us → find_id k us ≡ none
unfolding find_id
find_id-Fresh k [] h = refl
find_id-Fresh k (u ∷ us) (n, h) = ground (arith, find_id-Fresh k us h)

find_username-Fresh :
    (k : ℕ) (n : Text) (us : List User) {u : User}
    → Fresh k us
    → find_username n us ≡ some u
    → u.id ≢ k
unfolding find_username
find_username-Fresh k n [] h e = cc
find_username-Fresh k n (v ∷ us) {u} (m, h) e = ground (arith, find_username-Fresh k n us {u = u} h)

-- The user that a name finds is the user that its id finds.
pub find_id-find_username :
    (n : Text) (us : List User) {u : User}
    → Distinct us
    → find_username n us ≡ some u
    → find_id u.id us ≡ some u
unfolding find_id find_username
find_id-find_username n [] d e = cc
find_id-find_username n (v ∷ us) {u} (f, d) e =
    ground (arith, find_id-find_username n us {u = u} d, find_username-Fresh v.id n us {u = u} f)

module _ (f : User → User) (k : ℕ) (keeps : (u : User) → (f u).id ≡ u.id) where
  Fresh-update : (j : ℕ) (us : List User) → Fresh j us → Fresh j (update_rows f k us)
  unfolding update_rows
  Fresh-update j [] h = tt
  Fresh-update j (u ∷ us) (n, h) = (ground (arith, keeps u), Fresh-update j us h)

  pub Distinct-update : (us : List User) → Distinct us → Distinct (update_rows f k us)
  unfolding update_rows
  Distinct-update [] d = tt
  Distinct-update (u ∷ us) (n, d) = (rw (same_id u) (Fresh-update u.id us n), Distinct-update us d)
    where
      same_id : (u : User) → (if u.id == k then f u else u).id ≡ u.id
      same_id u = ground (arith, keeps u)

  pub below-update :
      (n : ℕ) (us : List User) → All (λ u. u.id < n) us → All (λ u. u.id < n) (update_rows f k us)
  unfolding update_rows
  below-update n [] h = tt
  below-update n (u ∷ us) (l, h) = (ground (arith, keeps u), below-update n us h)

  pub find_id-update :
      (j : ℕ) (us : List User) → j ≢ k → find_id j (update_rows f k us) ≡ find_id j us
  unfolding find_id update_rows
  find_id-update j [] n = refl
  find_id-update j (u ∷ us) n = ground (arith, keeps u, find_id-update j us n)

  pub find_id-update_self :
      (us : List User) {u : User}
      → find_id k us ≡ some u
      → find_id k (update_rows f k us) ≡ some (f u)
  unfolding find_id update_rows
  find_id-update_self [] e = cc
  find_id-update_self (v ∷ us) {u} e = ground (arith, keeps v, find_id-update_self us {u = u})

pub find_id-delete :
    (k j : ℕ) (us : List User) → j ≢ k → find_id j (keep (λ u. not (u.id == k)) us) ≡ find_id j us
unfolding find_id
find_id-delete k j [] n = refl
find_id-delete k j (u ∷ us) n = ground (arith, find_id-delete k j us n)

pub find_id-delete_self :
    (k : ℕ) (us : List User) → find_id k (keep (λ u. not (u.id == k)) us) ≡ none
unfolding find_id
find_id-delete_self k [] = refl
find_id-delete_self k (u ∷ us) = ground (arith, find_id-delete_self k us)

pub find_id-create :
    (k : ℕ) (us : List User) (v : User) {u : User}
    → find_id k us ≡ some u
    → find_id k (us ++ v ∷ []) ≡ some u
unfolding find_id
find_id-create k [] v e = cc
find_id-create k (w ∷ us) v {u} e = ground (arith, find_id-create k us v {u = u})

All-keep {ℓ} : (P : User → Type ℓ) (p : User → Bool) (us : List User) → All P us → All P (keep p us)
All-keep P p [] h = tt
All-keep P p (u ∷ us) (q, h) = elim (Bool-cases (p u)) [
  | inl e ↦ rw e (q, All-keep P p us h)
  | inr e ↦ rw e (All-keep P p us h)
]

pub Distinct-keep : (p : User → Bool) (us : List User) → Distinct us → Distinct (keep p us)
Distinct-keep p [] d = tt
Distinct-keep p (u ∷ us) (f, d) = elim (Bool-cases (p u)) [
  | inl e ↦ rw e (All-keep (λ v. v.id ≢ u.id) p us f, Distinct-keep p us d)
  | inr e ↦ rw e (Distinct-keep p us d)
]

pub below-keep :
    (n : ℕ) (p : User → Bool) (us : List User)
    → All (λ u. u.id < n) us
    → All (λ u. u.id < n) (keep p us)
below-keep n p us h = All-keep (λ u. u.id < n) p us h

pub Distinct-create :
    (us : List User) (v : User) → Distinct us → All (λ u. u.id < v.id) us → Distinct (us ++ v ∷ [])
Distinct-create [] v d b = (tt, tt)
Distinct-create (u ∷ us) v (f, d) (l, b) = (snoc us f, Distinct-create us v d b)
  where
    snoc : (ws : List User) → Fresh u.id ws → Fresh u.id (ws ++ v ∷ [])
    snoc [] h = ((λ e. omega arith), tt)
    snoc (w ∷ ws) (m, h) = (m, snoc ws h)

pub below-create :
    (us : List User) (v : User)
    → All (λ u. u.id < v.id) us
    → All (λ u. u.id < v.id + 1) (us ++ v ∷ [])
below-create [] v h = (omega arith, tt)
below-create (u ∷ us) v (l, h) = (omega arith, below-create us v h)
