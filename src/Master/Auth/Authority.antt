-- ===== src/Master/Auth/Authority.antt =====
-- Only an administrator's session changes roles and approvals.
use mathlib.Core.Option
use craft_stack.Prelude.{
  ℕ, ◌≡◌, ◌⊎◌, inl, inr, refl, sym, ◌∙◌, List, [], ◌∷◌, ◌++◌, Text, Bool, true, false, Option, none,
  some, ◌==◌, same, same_iff, arith, if◌then◌else◌, Bool-cases,
}
use craft_stack.Master.Users.{
  role_admin, role_viewer, User, UserTable, find_id, update_rows, create_user, update_user,
}
use craft_stack.Master.Auth.{
  Bcrypt, Session, AuthState, Response, Access, granted, denied, admin_only, PasswordForm, Request,
  login, logout, register, approve, reject, change_role, change_password, change_username, Reply,
  log_in, api_login, api_logout, signed_up, sign_up, api_register, revoke, api_change_password,
  set_password, hash_password, api_change_username, run, authenticated, after_lookup, serve_one,
}

-- Every user of the first table is in the second with the same role and approval, and one that only
-- the second has is an unapproved viewer.
pub record KeepsRights (before after : List User) : Type 0 where
  pub kept :
      (k : ℕ) (old : User)
      → find_id k before ≡ some old
      → (u : User) × (find_id k after ≡ some u) × (u.role ≡ old.role) × (u.approved ≡ old.approved)
  pub added :
      (k : ℕ) (u : User)
      → find_id k before ≡ none
      → find_id k after ≡ some u
      → (u.role ≡ role_viewer) × (u.approved ≡ false)

KeepsRights-refl : (us : List User) → KeepsRights us us
KeepsRights-refl us = record {
  kept = λ k old e. (old, e, refl, refl);
  added = λ k u e f. absurd (cc (rw e at f));
}

find_id-map :
    (f : User → User) (j k : ℕ) (us : List User)
    → ((u : User) → (f u).id ≡ u.id)
    → find_id k (update_rows f j us) ≡ Option.map (λ u. if k == j then f u else u) (find_id k us)
unfolding find_id update_rows
find_id-map f j k [] keeps = refl
find_id-map f j k (u ∷ us) keeps = ground (arith, keeps u, find_id-map f j k us keeps)

update-KeepsRights :
    (f : User → User) (j : ℕ) (us : List User)
    → ((u : User) → (f u).id ≡ u.id)
    → ((u : User) → (f u).role ≡ u.role)
    → ((u : User) → (f u).approved ≡ u.approved)
    → KeepsRights us (update_rows f j us)
update-KeepsRights f j us keeps role approved = record {
  kept = λ k old e. (
    if k == j then f old else old,
    find_id-map f j k us keeps ∙ rw e refl,
    ground (arith, role old),
    ground (arith, approved old),
  );
  added = λ k u e found. absurd (cc (rw (find_id-map f j k us keeps, e) at found));
}

find_id-snoc_old :
    (k : ℕ) (us : List User) (v u : User)
    → find_id k us ≡ some u
    → find_id k (us ++ v ∷ []) ≡ some u
unfolding find_id
find_id-snoc_old k [] v u e = cc
find_id-snoc_old k (w ∷ us) v u e = ground (arith, find_id-snoc_old k us v u)

find_id-snoc_new :
    (k : ℕ) (us : List User) (v u : User)
    → find_id k us ≡ none
    → find_id k (us ++ v ∷ []) ≡ some u
    → u ≡ v
unfolding find_id
find_id-snoc_new k [] v u e f = ground arith
find_id-snoc_new k (w ∷ us) v u e f = ground (arith, find_id-snoc_new k us v u)

-- The request came with the session of an administrator.
pub record ByAdmin (now : ℕ) (cookie : Text) (st : AuthState) : Type 0 where
  pub session : Session
  pub let_in : authenticated now cookie st ≡ granted session
  pub is_admin : session.role ≡ role_admin

-- The rights that a handler leaves.
record KeepsIn (us : List User) (r : Reply) : Type 0 where
  rights : KeepsRights us r.1.users.rows

KeepsIn-same : (r : Response) (st : AuthState) → KeepsIn st.users.rows (r, st)
KeepsIn-same r st = record { rights = KeepsRights-refl st.users.rows }

KeepsIn-if :
    (us : List User) (b : Bool) (x y : Reply)
    → KeepsIn us x
    → KeepsIn us y
    → KeepsIn us (if b then x else y)
KeepsIn-if us true x y hx hy = hx
KeepsIn-if us false x y hx hy = hy

KeepsIn-name :
    (ok : Bool) (id : ℕ) (name : Text) (st : AuthState)
    → KeepsIn st.users.rows
        (revoke (update_user ok (λ u. record u { username = name }) id st.users) id st)
KeepsIn-name false id name st = KeepsIn-same _ st
KeepsIn-name true id name st = record {
  rights =
      update-KeepsRights (λ u. record u { username = name }) id st.users.rows (λ u. refl)
        (λ u. refl) (λ u. refl);
}

KeepsIn-hash :
    (ok : Bool) (id : ℕ) (hash : Text) (st : AuthState)
    → KeepsIn st.users.rows
        (revoke (update_user ok (λ u. record u { password_hash = hash }) id st.users) id st)
KeepsIn-hash false id hash st = KeepsIn-same _ st
KeepsIn-hash true id hash st = record {
  rights =
      update-KeepsRights (λ u. record u { password_hash = hash }) id st.users.rows (λ u. refl)
        (λ u. refl) (λ u. refl);
}

username-KeepsIn :
    (ok : Bool) (id : ℕ) (name : Option Text) (s : Session) (st : AuthState)
    → KeepsIn st.users.rows (api_change_username ok id name s st)
unfolding api_change_username
username-KeepsIn ok id none s st = search (KeepsIn-if, KeepsIn-same)
username-KeepsIn ok id (some name) s st = search (KeepsIn-if, KeepsIn-same, KeepsIn-name) depth 8

create-KeepsRights :
    (ok : Bool) (name hash : Text) (st : AuthState) (o : Option UserTable)
    → create_user ok name hash role_viewer false st.users ≡ o
    → KeepsIn st.users.rows (signed_up st o)
unfolding signed_up create_user
create-KeepsRights ok name hash st none e = search KeepsIn-same
create-KeepsRights ok name hash st (some users) e = record {
  rights = record {
    kept =
        λ k old e. (old, rw (sym rows_of) (find_id-snoc_old k st.users.rows _ old e), refl, refl);
    added =
        λ k u e found. rights (find_id-snoc_new k st.users.rows _ u e (rw (sym rows_of) at found));
  };
}
  where
    new_row : User
    new_row = record {
      id = st.users.next_id;
      username = name;
      password_hash = hash;
      role = role_viewer;
      approved = false;
    }

    rows_of : st.users.rows ++ new_row ∷ [] ≡ users.rows
    rows_of = ground arith

    rights : {u : User} → u ≡ new_row → (u.role ≡ role_viewer) × (u.approved ≡ false)
    rights e = rw e (refl, refl)

admin_only-granted :
    (a : Access) (s : Session) → admin_only a ≡ granted s → (a ≡ granted s) × (s.role ≡ role_admin)
unfolding admin_only
admin_only-granted (denied r) s e = cc
admin_only-granted (granted t) s e = ground (arith, same_iff t.role role_admin)

-- A handler behind adminOnly: an administrator's session, or nothing happens to the users.
admin_route :
    (now : ℕ) (cookie : Text) (handler : Session → AuthState → Reply) (st : AuthState) (a : Access)
    → admin_only (authenticated now cookie st) ≡ a
    → ByAdmin now cookie st ⊎ KeepsIn st.users.rows (run a handler (after_lookup now cookie st))
admin_route now cookie handler st (denied r) e =
    inr (record { rights = KeepsRights-refl st.users.rows })
admin_route now cookie handler st (granted s) e =
    let (in_, role) = admin_only-granted (authenticated now cookie st) s e in
    inl (record { session = s; let_in = in_; is_admin = role })

run-KeepsIn :
    (us : List User) (a : Access) (handler : Session → AuthState → Reply) (st : AuthState)
    → ((s : Session) → KeepsIn us (handler s st))
    → KeepsRights us st.users.rows
    → KeepsIn us (run a handler st)
run-KeepsIn us (denied r) handler st h k = record { rights = k }
run-KeepsIn us (granted s) handler st h k = h s

logout-KeepsIn : (cookie : Text) (st : AuthState) → KeepsIn st.users.rows (api_logout cookie st)
unfolding api_logout
logout-KeepsIn cookie st = elim (Bool-cases (same cookie [])) [
  | inl e ↦ rw e (KeepsIn-same _ st)
  | inr e ↦ rw e (record { rights = KeepsRights-refl st.users.rows })
]

-- Who asks: the session of an administrator, for the requests behind adminOnly.
abbrev pub Authorised : Request → AuthState → Type 0
Authorised (approve now cookie _ _) st = ByAdmin now cookie st
Authorised (reject now cookie _ _) st = ByAdmin now cookie st
Authorised (change_role now cookie _ _ _) st = ByAdmin now cookie st
Authorised _ st = ⊥

module _ (bcrypt : Bcrypt) where
  login-KeepsIn :
      (now : ℕ) (token password : Text) (st : AuthState) (o : Option User)
      → KeepsIn st.users.rows (log_in bcrypt now token password st o)
  unfolding log_in
  login-KeepsIn now token password st none = search KeepsIn-same
  login-KeepsIn now token password st (some u) =
      let same_users : KeepsRights st.users.rows st.users.rows = KeepsRights-refl st.users.rows in
      ground (arith, same_users)

  api_login-KeepsIn :
      (now : ℕ) (token name password : Text) (st : AuthState)
      → KeepsIn st.users.rows (api_login bcrypt now token name password st)
  unfolding api_login
  api_login-KeepsIn now token name password st = search (KeepsIn-if, KeepsIn-same, login-KeepsIn)

  sign_up-KeepsIn :
      (ok : Bool) (name : Text) (st : AuthState) (o : Option Text)
      → KeepsIn st.users.rows (sign_up bcrypt ok name st o)
  unfolding sign_up
  sign_up-KeepsIn ok name st none = search KeepsIn-same
  sign_up-KeepsIn ok name st (some hash) = create-KeepsRights ok name hash st _ refl

  register-KeepsIn :
      (salt : ℕ) (ok : Bool) (name password confirm : Text) (st : AuthState)
      → KeepsIn st.users.rows (api_register bcrypt salt ok name password confirm st)
  unfolding api_register
  register-KeepsIn salt ok name password confirm st =
      search (KeepsIn-if, KeepsIn-same, sign_up-KeepsIn) depth 8

  hashed-KeepsIn :
      (ok : Bool) (id : ℕ) (st : AuthState) (o : Option Text)
      → KeepsIn st.users.rows (set_password bcrypt ok id st o)
  unfolding set_password
  hashed-KeepsIn ok id st none = search KeepsIn-same
  hashed-KeepsIn ok id st (some hash) = KeepsIn-hash ok id hash st

  checked-KeepsIn :
      (salt : ℕ) (ok : Bool) (id : ℕ) (password : Text) (st : AuthState) (o : Option Response)
      → KeepsIn st.users.rows (hash_password bcrypt salt ok id password st o)
  unfolding hash_password
  checked-KeepsIn salt ok id password st none = hashed-KeepsIn ok id st _
  checked-KeepsIn salt ok id password st (some r) = search KeepsIn-same

  password-KeepsIn :
      (salt : ℕ) (ok : Bool) (id : ℕ) (form : Option PasswordForm) (s : Session) (st : AuthState)
      → KeepsIn st.users.rows (api_change_password bcrypt salt ok id form s st)
  unfolding api_change_password
  password-KeepsIn salt ok id none s st = search (KeepsIn-if, KeepsIn-same)
  password-KeepsIn salt ok id (some form) s st =
      search (KeepsIn-if, KeepsIn-same, checked-KeepsIn) depth 8

  served :
      (r : Request) (st : AuthState)
      → Authorised r st ⊎ KeepsIn st.users.rows (serve_one bcrypt r st)
  unfolding serve_one
  served (login now token name password) st = inr (api_login-KeepsIn now token name password st)
  served (logout cookie) st = inr (logout-KeepsIn cookie st)
  served (register salt ok name password confirm) st =
      inr (register-KeepsIn salt ok name password confirm st)
  served (approve now cookie ok id) st = admin_route now cookie _ st _ refl
  served (reject now cookie ok id) st = admin_route now cookie _ st _ refl
  served (change_role now cookie ok id role) st = admin_route now cookie _ st _ refl
  served (change_password now cookie salt ok id form) st = inr (
      run-KeepsIn st.users.rows (authenticated now cookie st) _ (after_lookup now cookie st)
        (λ s. password-KeepsIn salt ok id form s (after_lookup now cookie st))
        (KeepsRights-refl st.users.rows))
  served (change_username now cookie ok id name) st = inr (
      run-KeepsIn st.users.rows (authenticated now cookie st) _ (after_lookup now cookie st)
        (λ s. username-KeepsIn ok id name s (after_lookup now cookie st))
        (KeepsRights-refl st.users.rows))

  -- Any one request is an approval, a rejection or a change of role that an administrator's session
  -- asks for, or it keeps every user, with the role and the approval that the user had, and whoever
  -- it adds is an unapproved viewer.
  pub rights-serve_one :
      (r : Request) (st : AuthState)
      → Authorised r st ⊎ KeepsRights st.users.rows (serve_one bcrypt r st).1.users.rows
  rights-serve_one r st = elim (served r st) [ inl a ↦ inl a | inr k ↦ inr k.rights ]
