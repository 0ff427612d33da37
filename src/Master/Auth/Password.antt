-- ===== src/Master/Auth/Password.antt =====
-- What a change of password does.
use craft_stack.Prelude.{
  ℕ, ◌≤◌, ◌≡◌, ◌≢◌, ◌⊎◌, refl, sym, ap, List, [], ◌∷◌, Text, codes, Bool, true, Option, none, some,
  ◌==◌, length, same_iff, arith, Bool-cases, inl, inr,
}
use craft_stack.Prelude.Dict.{Dict, AllValues}
use craft_stack.Master.Users.{role_admin, User, find_username, update_rows}
use craft_stack.Master.Auth.{
  Bcrypt, Session, AuthState, redirect, json, delete_user_sessions, PasswordForm, log_in, api_login,
  set_password, hash_password, own_password, api_change_password,
}

deleted-AllValues :
    (id : ℕ) (ss : Dict Session) → AllValues (λ t. t.user_id ≢ id) (delete_user_sessions id ss)
unfolding delete_user_sessions
deleted-AllValues id [] = tt
deleted-AllValues id ((t, s) ∷ ss) = elim (Bool-cases (s.user_id == id)) [
  | inl e ↦ rw e (unfold delete_user_sessions in deleted-AllValues id ss)
  | inr e ↦ rw e ((λ p. ground arith), unfold delete_user_sessions in deleted-AllValues id ss)
]

abbrev rehash : Text → User → User
rehash hash u = record u { password_hash = hash }

find_username-rehash :
    (hash name : Text) (us : List User) (u : User)
    → find_username name us ≡ some u
    → find_username name (update_rows (rehash hash) u.id us) ≡ some (rehash hash u)
unfolding find_username update_rows
find_username-rehash hash name [] u e = cc
find_username-rehash hash name (v ∷ us) u e = ground (arith, find_username-rehash hash name us u)

module _ (bcrypt : Bcrypt) where
  -- What a 200 means: the caller is the user or an administrator, the hash is of the new password,
  -- and it was stored.
  changed :
      (salt : ℕ) (ok : Bool) (id : ℕ) (form : PasswordForm) (s : Session) (st : AuthState)
      → (api_change_password bcrypt salt ok id (some form) s st).0 ≡ json 200
      → (hash : Text) × (bcrypt.generate salt form.new_password ≡ some hash)
        × ((s.user_id ≡ id) ⊎ (s.role ≡ role_admin))
        × (4 ≤ length form.new_password)
        × ((api_change_password bcrypt salt ok id (some form) s st).1 ≡ record {
          users = record st.users { rows = update_rows (rehash hash) id st.users.rows };
          sessions = delete_user_sessions id st.sessions;
        })
  unfolding api_change_password hash_password set_password own_password
  changed salt ok id form s st e = go (bcrypt.generate salt form.new_password) refl
    where
      go :
          (o : Option Text)
          → bcrypt.generate salt form.new_password ≡ o
          → (hash : Text) × (bcrypt.generate salt form.new_password ≡ some hash)
            × ((s.user_id ≡ id) ⊎ (s.role ≡ role_admin))
            × (4 ≤ length form.new_password)
            × ((api_change_password bcrypt salt ok id (some form) s st).1 ≡ record {
              users = record st.users { rows = update_rows (rehash hash) id st.users.rows };
              sessions = delete_user_sessions id st.sessions;
            })
      go none g = absurd (ground arith)
      go (some hash) g =
          (hash, g, ground (arith, same_iff s.role role_admin), ground arith, ground arith)

  -- A change of a user's password that answers 200 was asked for by that user or by an administrator
  -- and has a new password of 4 bytes at least; it leaves no session of the user; and if there is such
  -- a user who is approved and is the one that the name, which is not empty, finds, the user can log in
  -- with the new password.
  pub login-change_password :
      (salt : ℕ) (ok : Bool) (id : ℕ) (form : PasswordForm) (s : Session) (st : AuthState)
      → (api_change_password bcrypt salt ok id (some form) s st).0 ≡ json 200
      → ((s.user_id ≡ id) ⊎ (s.role ≡ role_admin))
        × (4 ≤ length form.new_password)
        × AllValues
            (λ t. t.user_id ≢ id)
            (api_change_password bcrypt salt ok id (some form) s st).1.sessions
        × ((u : User) (now : ℕ) (token : Text)
            → u.id ≡ id
            → u.username ≢ []
            → find_username u.username st.users.rows ≡ some u
            → u.approved ≡ true
            → (api_login bcrypt now token u.username form.new_password
                (api_change_password bcrypt salt ok id (some form) s st).1).0
              ≡ redirect (codes "/"))
  unfolding api_login log_in
  login-change_password salt ok id form s st e =
      let (hash, g, who, long, after) = changed salt ok id form s st e in
      (
        who,
        long,
        rw after (deleted-AllValues id st.sessions),
        λ u now token own named found approved.
            rw (after, sym own)
              (ground (
                arith,
                same_iff u.username [],
                same_iff form.new_password [],
                nonempty form.new_password long,
                find_username-rehash hash u.username st.users.rows u found,
                bcrypt.compare_generate salt form.new_password hash g,
              )),
      )
    where
      nonempty : (p : Text) → 4 ≤ length p → p ≢ []
      nonempty p l e = omega (arith, ap length e)
