-- ===== src/Master/Auth/Tests.antt =====
-- Runs of the login and the user management, over a stand-in for bcrypt.
use craft_stack.Prelude.{
  ℕ, ◌≤◌, ◌≡◌, ◌≢◌, ◌⊎◌, refl, List, [], ◌∷◌, Text, codes, true, Option, none, some, ltb, length,
  same, same_self, arith, if◌then◌else◌,
}
use craft_stack.Prelude.Dict.{AllValues, get, put}
use craft_stack.Master.Users.{role_admin, role_viewer, User, find_id, find_username}
use craft_stack.Master.Auth.{
  Bcrypt, Session, AuthState, redirect, json, create_session, get_session, granted, auth_middleware,
  admin_only, PasswordForm, Request, login, change_role, api_login, api_change_password,
  authenticated, serve_one, serve,
}
use craft_stack.Master.Auth.Sound.{authenticated-serve}
use craft_stack.Master.Auth.Backed.{IsBacked, IsSound}
use craft_stack.Master.Auth.Authority.{Authorised, KeepsRights, rights-serve_one}
use craft_stack.Master.Auth.Password.{login-change_password}

abbrev plain_generate : ℕ → Text → Option Text
plain_generate salt p = if ltb 72 (length p) then none else some p

plain-compare : (salt : ℕ) (p hash : Text) → plain_generate salt p ≡ some hash → same hash p ≡ true
plain-compare salt p hash e = ground (arith, same_self p)

abbrev plain : Bcrypt
plain = record { generate = plain_generate; compare = same; compare_generate = plain-compare }

abbrev root : User
root = record {
  id = 1;
  username = codes "admin";
  password_hash = codes "secret";
  role = role_admin;
  approved = true;
}

abbrev eve : User
eve = record {
  id = 2;
  username = codes "eve";
  password_hash = codes "hunter";
  role = role_viewer;
  approved = true;
}

abbrev start : AuthState
start = record { users = record { rows = root ∷ eve ∷ []; next_id = 3 }; sessions = [] }

start-IsSound : IsSound start
start-IsSound = record {
  keyed = record { distinct = omega arith; below = omega arith };
  backed = tt;
}

abbrev eve_logs_in : List Request
eve_logs_in = login 5 (codes "t") (codes "eve") (codes "hunter") ∷ []

abbrev eve_session : Session
eve_session = record { user_id = 2; username = codes "eve"; role = role_viewer; created_at = 5 }

eve_is_in : authenticated 9 (codes "t") (serve plain eve_logs_in start) ≡ granted eve_session
unfolding serve serve_one api_login create_session auth_middleware get_session get put find_username
    same
eve_is_in = refl

authenticated-serve_example : IsBacked (serve plain eve_logs_in start).users.rows eve_session
authenticated-serve_example =
    authenticated-serve plain eve_logs_in start 9 (codes "t") eve_session start-IsSound eve_is_in

-- A viewer who asks for the role of an administrator is refused.
refused :
    (serve_one plain
      (change_role 9 (codes "t") true 2 (some role_admin))
      (serve plain eve_logs_in start)).0
    ≡ json 403
unfolding serve serve_one api_login create_session auth_middleware admin_only get_session get put
    find_username same
refused = refl

rights-serve_one_example :
    Authorised (change_role 9 (codes "t") true 2 (some role_admin)) (serve plain eve_logs_in start)
    ⊎ KeepsRights
        (serve plain eve_logs_in start).users.rows
        (serve_one plain
          (change_role 9 (codes "t") true 2 (some role_admin))
          (serve plain eve_logs_in start)).1.users.rows
rights-serve_one_example =
    rights-serve_one plain (change_role 9 (codes "t") true 2 (some role_admin))
      (serve plain eve_logs_in start)

abbrev new_password : PasswordForm
new_password = record { current_password = codes "hunter"; new_password = codes "hunter2" }

login-change_password_example :
    ((eve_session.user_id ≡ eve.id) ⊎ (eve_session.role ≡ role_admin))
    × (4 ≤ length new_password.new_password)
    × AllValues
        (λ t. t.user_id ≢ eve.id)
        (api_change_password plain 0 true eve.id (some new_password) eve_session start).1.sessions
    × ((u : User) (now : ℕ) (token : Text)
        → u.id ≡ eve.id
        → u.username ≢ []
        → find_username u.username start.users.rows ≡ some u
        → u.approved ≡ true
        → (api_login plain now token u.username new_password.new_password
            (api_change_password plain 0 true eve.id (some new_password) eve_session start).1).0
          ≡ redirect (codes "/"))
unfolding find_username same api_change_password find_id
login-change_password_example =
    login-change_password plain 0 true eve.id new_password eve_session start refl
