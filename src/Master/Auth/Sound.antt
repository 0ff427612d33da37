-- ===== src/Master/Auth/Sound.antt =====
-- Sessions agree with the users table, whatever requests are served.
use craft_stack.Prelude.{
  ℕ, ◌-◌, ◌≡◌, refl, List, [], ◌∷◌, Text, Bool, true, false, not, Option, none, some, ltb, same,
  arith, if◌then◌else◌, Bool-cases, inl, inr,
}
use craft_stack.Prelude.Dict.{Dict, get, AllValues-get}
use craft_stack.Master.Users.{
  role_viewer, User, UserTable, find_username, create_user, update_user_role, update_user_password,
  update_username,
}
use craft_stack.Master.Auth.{
  Bcrypt, Session, AuthState, session_max_age, Response, create_session, live_session, get_session,
  Access, granted, denied, auth_middleware, admin_only, PasswordForm, Request, login, logout,
  register, approve, reject, change_role, change_password, change_username, Reply, log_in,
  api_login, api_logout, signed_up, sign_up, api_register, api_approve_user, revoke,
  api_reject_user, api_change_role, api_change_password, set_password, hash_password,
  api_change_username, run, authenticated, after_lookup, serve_one, serve,
}
use craft_stack.Master.Auth.Backed.{
  IsBacked, IsSound, approve-IsSound, create-IsSound, create_session-IsSound, reject-IsSound,
  remove-IsSound, revoke_update-IsSound,
}

-- The state that a handler leaves is sound.
record LeavesSound (r : Reply) : Type 0 where
  state : IsSound r.1

unchanged : (r : Response) (st : AuthState) → IsSound st → LeavesSound (r, st)
unchanged r st i = record { state = i }

LeavesSound-if :
    (b : Bool) (x y : Reply)
    → (b ≡ true → LeavesSound x)
    → (b ≡ false → LeavesSound y)
    → LeavesSound (if b then x else y)
LeavesSound-if true x y hx hy = hx refl
LeavesSound-if false x y hx hy = hy refl

after_lookup-IsSound :
    (now : ℕ) (cookie : Text) (st : AuthState) → IsSound st → IsSound (after_lookup now cookie st)
unfolding auth_middleware get_session
after_lookup-IsSound now cookie st i = elim (Bool-cases (same cookie [])) [
  | inl e ↦ rw e i
  | inr e ↦ rw e (go (get st.sessions cookie))
]
  where
    go :
        (o : Option Session)
        → IsSound (record st { sessions = (live_session now cookie st.sessions o).1 })
    go none = i
    go (some s) = elim (Bool-cases (ltb session_max_age (now - s.created_at))) [
      | inl e ↦ rw e (remove-IsSound cookie st i)
      | inr e ↦ rw e i
    ]

logout-IsSound : (cookie : Text) (st : AuthState) → IsSound st → IsSound (api_logout cookie st).1
unfolding api_logout
logout-IsSound cookie st i = elim (Bool-cases (same cookie [])) [
  | inl e ↦ rw e i
  | inr e ↦ rw e (remove-IsSound cookie st i)
]

module _ (ok : Bool) (id : ℕ) (st : AuthState) (i : IsSound st) where
  revoke_role : (role : Text) → LeavesSound (revoke (update_user_role ok id role st.users) id st)
  revoke_role role = record {
    state = revoke_update-IsSound (λ u. record u { role = role }) id (λ u. refl) ok st i;
  }

  revoke_name : (name : Text) → LeavesSound (revoke (update_username ok id name st.users) id st)
  revoke_name name = record {
    state = revoke_update-IsSound (λ u. record u { username = name }) id (λ u. refl) _ st i;
  }

  revoke_password :
      (hash : Text) → LeavesSound (revoke (update_user_password ok id hash st.users) id st)
  revoke_password hash = record {
    state = revoke_update-IsSound (λ u. record u { password_hash = hash }) id (λ u. refl) ok st i;
  }

change_role-IsSound :
    (ok : Bool) (id : ℕ) (role : Option Text) (st : AuthState)
    → IsSound st
    → LeavesSound (api_change_role ok id role st)
unfolding api_change_role
change_role-IsSound ok id none st i = search (unchanged)
change_role-IsSound ok id (some role) st i = search (LeavesSound-if, unchanged, revoke_role)

change_username-IsSound :
    (ok : Bool) (id : ℕ) (name : Option Text) (s : Session) (st : AuthState)
    → IsSound st
    → LeavesSound (api_change_username ok id name s st)
unfolding api_change_username
change_username-IsSound ok id none s st i = search (LeavesSound-if, unchanged)
change_username-IsSound ok id (some name) s st i =
    search (LeavesSound-if, unchanged, revoke_name) depth 8

run-IsSound :
    (a : Access) (handler : Session → AuthState → Reply) (st : AuthState)
    → ((s : Session) → LeavesSound (handler s st))
    → IsSound st
    → LeavesSound (run a handler st)
run-IsSound (denied r) handler st h i = unchanged _ _ i
run-IsSound (granted s) handler st h i = h s

logged_in :
    (now : ℕ) (token name : Text) (st : AuthState) (u : User) (r : Response)
    → find_username name st.users.rows ≡ some u
    → not u.approved ≡ false
    → IsSound st
    → LeavesSound (r, record st { sessions = create_session now token u st.sessions })
logged_in now token name st u r e a i = record {
  state = create_session-IsSound now token name st u e (ground arith) i;
}

signed_up-IsSound :
    (ok : Bool) (name hash : Text) (st : AuthState) (o : Option UserTable)
    → create_user ok name hash role_viewer false st.users ≡ o
    → IsSound st
    → LeavesSound (signed_up st o)
unfolding signed_up
signed_up-IsSound ok name hash st none e i = search unchanged
signed_up-IsSound ok name hash st (some users) e i = record {
  state = create-IsSound ok name hash role_viewer st users e i;
}

module _ (bcrypt : Bcrypt) where
  log_in-IsSound :
      (now : ℕ) (token name password : Text) (st : AuthState) (o : Option User)
      → find_username name st.users.rows ≡ o
      → IsSound st
      → LeavesSound (log_in bcrypt now token password st o)
  unfolding log_in
  log_in-IsSound now token name password st none e i = search unchanged
  log_in-IsSound now token name password st (some u) e i =
      search (LeavesSound-if, unchanged, logged_in now token name st u)

  login-IsSound :
      (now : ℕ) (token name password : Text) (st : AuthState)
      → IsSound st
      → LeavesSound (api_login bcrypt now token name password st)
  unfolding api_login
  login-IsSound now token name password st i =
      let found = log_in-IsSound now token name password st _ refl i in
      search (LeavesSound-if, unchanged, found)

  sign_up-IsSound :
      (ok : Bool) (name : Text) (st : AuthState) (o : Option Text)
      → IsSound st
      → LeavesSound (sign_up bcrypt ok name st o)
  unfolding sign_up
  sign_up-IsSound ok name st none i = search unchanged
  sign_up-IsSound ok name st (some hash) i = signed_up-IsSound ok name hash st _ refl i

  register-IsSound :
      (salt : ℕ) (ok : Bool) (name password confirm : Text) (st : AuthState)
      → IsSound st
      → LeavesSound (api_register bcrypt salt ok name password confirm st)
  unfolding api_register
  register-IsSound salt ok name password confirm st i =
      let made = sign_up-IsSound ok name st (bcrypt.generate salt password) i in
      search (LeavesSound-if, unchanged, made) depth 8

  set_password-IsSound :
      (ok : Bool) (id : ℕ) (st : AuthState) (o : Option Text)
      → IsSound st
      → LeavesSound (set_password bcrypt ok id st o)
  unfolding set_password
  set_password-IsSound ok id st none i = search unchanged
  set_password-IsSound ok id st (some hash) i = revoke_password ok id st i hash

  hash_password-IsSound :
      (salt : ℕ) (ok : Bool) (id : ℕ) (password : Text) (st : AuthState) (o : Option Response)
      → IsSound st
      → LeavesSound (hash_password bcrypt salt ok id password st o)
  unfolding hash_password
  hash_password-IsSound salt ok id password st none i = set_password-IsSound ok id st _ i
  hash_password-IsSound salt ok id password st (some r) i = search unchanged

  change_password-IsSound :
      (salt : ℕ) (ok : Bool) (id : ℕ) (form : Option PasswordForm) (s : Session) (st : AuthState)
      → IsSound st
      → LeavesSound (api_change_password bcrypt salt ok id form s st)
  unfolding api_change_password
  change_password-IsSound salt ok id none s st i = search (LeavesSound-if, unchanged)
  change_password-IsSound salt ok id (some form) s st i =
      search (LeavesSound-if, unchanged, hash_password-IsSound) depth 8

  -- Every request keeps the state sound.
  pub serve_one-IsSound :
      (r : Request) (st : AuthState) → IsSound st → IsSound (serve_one bcrypt r st).1
  unfolding serve_one
  serve_one-IsSound (login now token name password) st i =
      (login-IsSound now token name password st i).state
  serve_one-IsSound (logout cookie) st i = logout-IsSound cookie st i
  serve_one-IsSound (register salt ok name password confirm) st i =
      (register-IsSound salt ok name password confirm st i).state
  serve_one-IsSound (approve now cookie ok id) st i =
      let j = after_lookup-IsSound now cookie st i in
      (run-IsSound (admin_only (authenticated now cookie st)) (λ _. api_approve_user ok id)
        (after_lookup now cookie st) (λ _. record { state = approve-IsSound ok id _ j }) j).state
  serve_one-IsSound (reject now cookie ok id) st i =
      let j = after_lookup-IsSound now cookie st i in
      (run-IsSound (admin_only (authenticated now cookie st)) (λ _. api_reject_user ok id)
        (after_lookup now cookie st) (λ _. record { state = reject-IsSound ok id _ j }) j).state
  serve_one-IsSound (change_role now cookie ok id role) st i =
      let j = after_lookup-IsSound now cookie st i in
      (run-IsSound (admin_only (authenticated now cookie st)) (λ _. api_change_role ok id role)
        (after_lookup now cookie st) (λ _. change_role-IsSound ok id role _ j) j).state
  serve_one-IsSound (change_password now cookie salt ok id form) st i =
      let j = after_lookup-IsSound now cookie st i in
      (run-IsSound (authenticated now cookie st) (api_change_password bcrypt salt ok id form)
        (after_lookup now cookie st) (λ s. change_password-IsSound salt ok id form s _ j) j).state
  serve_one-IsSound (change_username now cookie ok id name) st i =
      let j = after_lookup-IsSound now cookie st i in
      (run-IsSound (authenticated now cookie st) (api_change_username ok id name)
        (after_lookup now cookie st) (λ s. change_username-IsSound ok id name s _ j) j).state

  serve-IsSound : (rs : List Request) (st : AuthState) → IsSound st → IsSound (serve bcrypt rs st)
  unfolding serve
  serve-IsSound [] st i = i
  serve-IsSound (r ∷ rs) st i = serve-IsSound rs _ (serve_one-IsSound r st i)

  -- After any requests, from a sound state, whoever authMiddleware lets in is an approved user of
  -- the table as it stands then, and the session has that user's present name and role.
  pub authenticated-serve :
      (rs : List Request) (st : AuthState) (now : ℕ) (cookie : Text) (s : Session)
      → IsSound st
      → authenticated now cookie (serve bcrypt rs st) ≡ granted s
      → IsBacked (serve bcrypt rs st).users.rows s
  unfolding auth_middleware get_session
  authenticated-serve rs st now cookie s i e =
      AllValues-get (IsBacked (serve bcrypt rs st).users.rows) (serve bcrypt rs st).sessions cookie
        (serve-IsSound rs st i).backed (held (serve bcrypt rs st).sessions e)
    where
      held :
          (ss : Dict Session)
          → (auth_middleware now cookie ss).0 ≡ granted s
          → get ss cookie ≡ some s
      held ss e = ground arith
