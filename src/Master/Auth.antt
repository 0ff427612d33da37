-- ===== src/Master/Auth.antt =====
-- internal/master/web/handler_auth.go: sessions, the middleware and the handlers that change users,
-- with the guards that router.go puts in front of each route. Each request runs to its end before
-- the next one. Times are in nanoseconds. A path id that names no number is 0, as in the source;
-- a negative one names no row, and 0 stands for it too. Reads of the database do not fail.
pub mod Backed
pub mod Sound
pub mod Authority
pub mod Password
mod Tests
use craft_stack.Prelude.{
  ℕ, ◌+◌, ◌-◌, ◌*◌, ◌^◌, List, [], ◌∷◌, Text, codes, Bool, true, false, not, ◌&&◌, ◌||◌, Option,
  none, some, ◌==◌, ltb, same, keep, length, ◌≡◌, if◌then◌else◌,
}
use craft_stack.Prelude.Dict.{Dict, get, put, remove}
use craft_stack.Master.Users.{
  role_admin, role_editor, role_viewer, valid_role, User, UserTable, taken, get_user_by_id,
  get_user_by_username, create_user, update_user_password, update_username, update_user_role,
  approve_user, reject_user,
}

-- bcrypt: a hash may be refused (a password of more than 72 bytes), and a hash that was made
-- accepts the password that it was made from. `generate` takes its random salt.
pub record Bcrypt : Type 0 where
  pub generate : ℕ → Text → Option Text
  pub compare : Text → Text → Bool
  pub compare_generate :
      (salt : ℕ) (password hash : Text)
      → generate salt password ≡ some hash
      → compare hash password ≡ true

pub record Session : Type 0 where
  pub user_id : ℕ
  pub username : Text
  pub role : Text
  pub created_at : ℕ

pub record AuthState : Type 0 where
  pub users : UserTable
  pub sessions : Dict Session

abbrev pub session_max_age : ℕ
session_max_age = 24 * 3600 * 10 ^ 9

-- sessionStore.Create, given the token that it drew
unfoldable pub create_session : ℕ → Text → User → Dict Session → Dict Session
create_session now token user ss =
    put ss token
      (record { user_id = user.id; username = user.username; role = user.role; created_at = now })

abbrev live_session : ℕ → Text → Dict Session → Option Session → Option Session × Dict Session
live_session now token ss none = (none, ss)
live_session now token ss (some s) =
    if ltb session_max_age (now - s.created_at) then (none, remove ss token) else (some s, ss)

-- sessionStore.Get: an expired session is deleted
unfoldable pub get_session : ℕ → Text → Dict Session → Option Session × Dict Session
get_session now token ss = live_session now token ss (get ss token)

-- sessionStore.DeleteUserSessions
unfoldable pub delete_user_sessions : ℕ → Dict Session → Dict Session
delete_user_sessions id = keep (λ e. not (e.1.user_id == id))

-- What a handler answers: a redirect to a page (its message left out), a JSON answer with a status
-- code, or, for a middleware, the session under which the next handler runs.
pub data Response : Type 0 where
  redirect : Text → Response
  json : ℕ → Response

pub data Access : Type 0 where
  denied : Response → Access
  granted : Session → Access

abbrev checked : Option Session → Access
checked none = denied (redirect (codes "/login"))
checked (some s) = granted s

-- authMiddleware; an absent cookie is an empty one
unfoldable pub auth_middleware : ℕ → Text → Dict Session → Access × Dict Session
auth_middleware now cookie ss =
    if same cookie []
    then (denied (redirect (codes "/login")), ss)
    else (let (s, ss') = get_session now cookie ss in (checked s, ss'))

-- adminOnly
unfoldable pub admin_only : Access → Access
admin_only (denied r) = denied r
admin_only (granted s) = if same s.role role_admin then granted s else denied (json 403)

-- adminOrEditor
unfoldable pub admin_or_editor : Access → Access
admin_or_editor (denied r) = denied r
admin_or_editor (granted s) =
    if not (same s.role role_admin) && not (same s.role role_editor)
    then denied (json 403)
    else granted s

-- The fields of the bodies; `none` where Bind fails.
pub record PasswordForm : Type 0 where
  pub current_password : Text
  pub new_password : Text

-- A request, with what its handler draws: the time, a token or a salt, and the driver's answer.
pub data Request : Type 0 where
  login : ℕ → Text → Text → Text → Request
  logout : Text → Request
  register : ℕ → Bool → Text → Text → Text → Request
  approve : ℕ → Text → Bool → ℕ → Request
  reject : ℕ → Text → Bool → ℕ → Request
  change_role : ℕ → Text → Bool → ℕ → Option Text → Request
  change_password : ℕ → Text → ℕ → Bool → ℕ → Option PasswordForm → Request
  change_username : ℕ → Text → Bool → ℕ → Option Text → Request

abbrev pub Reply : Type 0
Reply = Response × AuthState

-- The end of a handler that writes and then ends the user's sessions.
abbrev revoke : Option UserTable → ℕ → AuthState → Reply
revoke none id st = (json 500, st)
revoke (some users) id st =
    (json 200, record { users = users; sessions = delete_user_sessions id st.sessions })

-- apiLogout
unfoldable pub api_logout : Text → AuthState → Reply
api_logout cookie st = (
  redirect (codes "/login"),
  if same cookie [] then st else record st { sessions = remove st.sessions cookie },
)

signed_up : AuthState → Option UserTable → Reply
signed_up st none = (redirect (codes "/register"), st)
signed_up st (some users) = (redirect (codes "/login"), record st { users = users })

approved_by : AuthState → Option UserTable → Reply
approved_by st none = (json 500, st)
approved_by st (some users) = (json 200, record st { users = users })

-- apiApproveUser
unfoldable pub api_approve_user : Bool → ℕ → AuthState → Reply
unfolding approved_by
api_approve_user ok id st = approved_by st (approve_user ok id st.users)

-- apiRejectUser
unfoldable pub api_reject_user : Bool → ℕ → AuthState → Reply
api_reject_user ok id st = revoke (reject_user ok id st.users) id st

-- apiChangeRole
unfoldable pub api_change_role : Bool → ℕ → Option Text → AuthState → Reply
api_change_role ok id none st = (json 400, st)
api_change_role ok id (some role) st =
    if not (valid_role role)
    then (json 400, st)
    else revoke (update_user_role ok id role st.users) id st

abbrev clashes : Option User → ℕ → Bool
clashes none target = false
clashes (some existing) target = not (existing.id == target)

-- apiChangeUsername, run by the user of the session
unfoldable pub api_change_username : Bool → ℕ → Option Text → Session → AuthState → Reply
api_change_username ok target none current st =
    if not (current.user_id == target) && not (same current.role role_admin)
    then (json 403, st)
    else (json 400, st)
api_change_username ok target (some name) current st =
    if not (current.user_id == target) && not (same current.role role_admin)
    then (json 403, st)
    else if same name []
    then (json 400, st)
    else if ltb (length name) 3 || ltb 32 (length name)
    then (json 400, st)
    else if clashes (get_user_by_username st.users name) target
    then (json 409, st)
    else revoke (update_username ok target name st.users) target st

abbrev run : Access → (Session → AuthState → Reply) → AuthState → Reply
run (denied r) handler st = (r, st)
run (granted s) handler st = handler s st

abbrev pub authenticated : ℕ → Text → AuthState → Access
authenticated now cookie st = (auth_middleware now cookie st.sessions).0

abbrev pub after_lookup : ℕ → Text → AuthState → AuthState
after_lookup now cookie st = record st { sessions = (auth_middleware now cookie st.sessions).1 }

module _ (bcrypt : Bcrypt) where
  log_in : ℕ → Text → Text → AuthState → Option User → Reply
  log_in now token password st none = (redirect (codes "/login"), st)
  log_in now token password st (some user) =
      if not (bcrypt.compare user.password_hash password)
      then (redirect (codes "/login"), st)
      else if not user.approved
      then (redirect (codes "/login"), st)
      else (
        redirect (codes "/"),
        record st { sessions = create_session now token user st.sessions },
      )

  -- apiLogin
  unfoldable pub api_login : ℕ → Text → Text → Text → AuthState → Reply
  unfolding log_in
  api_login now token username password st =
      if same username [] || same password []
      then (redirect (codes "/login"), st)
      else log_in now token password st (get_user_by_username st.users username)

  sign_up : Bool → Text → AuthState → Option Text → Reply
  unfolding signed_up
  sign_up ok username st none = (redirect (codes "/register"), st)
  sign_up ok username st (some hash) =
      signed_up st (create_user ok username hash role_viewer false st.users)

  -- apiRegister
  unfoldable pub api_register : ℕ → Bool → Text → Text → Text → AuthState → Reply
  unfolding sign_up
  api_register salt ok username password confirm st =
      if same username [] || same password []
      then (redirect (codes "/register"), st)
      else if ltb (length username) 3 || ltb 32 (length username)
      then (redirect (codes "/register"), st)
      else if ltb (length password) 4
      then (redirect (codes "/register"), st)
      else if not (same password confirm)
      then (redirect (codes "/register"), st)
      else if taken (get_user_by_username st.users username)
      then (redirect (codes "/register"), st)
      else sign_up ok username st (bcrypt.generate salt password)

  -- The check of the current password: `none` where it passes.
  own_password : Text → Option User → Option Response
  own_password current none = some (json 404)
  own_password current (some user) =
      if not (bcrypt.compare user.password_hash current) then some (json 400) else none

  set_password : Bool → ℕ → AuthState → Option Text → Reply
  set_password ok target st none = (json 500, st)
  set_password ok target st (some hash) =
      revoke (update_user_password ok target hash st.users) target st

  hash_password : ℕ → Bool → ℕ → Text → AuthState → Option Response → Reply
  unfolding set_password
  hash_password salt ok target password st (some r) = (r, st)
  hash_password salt ok target password st none =
      set_password ok target st (bcrypt.generate salt password)

  -- apiChangePassword, run by the user of the session
  unfoldable pub api_change_password :
      ℕ → Bool → ℕ → Option PasswordForm → Session → AuthState → Reply
  unfolding own_password hash_password
  api_change_password salt ok target none current st =
      if not (current.user_id == target) && not (same current.role role_admin)
      then (json 403, st)
      else (json 400, st)
  api_change_password salt ok target (some form) current st =
      if not (current.user_id == target) && not (same current.role role_admin)
      then (json 403, st)
      else if ltb (length form.new_password) 4
      then (json 400, st)
      else hash_password salt ok target form.new_password st (
          if current.user_id == target
          then own_password form.current_password (get_user_by_id st.users target)
          else none)

  -- The routes of registerRoutes that change users or sessions.
  unfoldable pub serve_one : Request → AuthState → Reply
  serve_one (login now token username password) st = api_login now token username password st
  serve_one (logout cookie) st = api_logout cookie st
  serve_one (register salt ok username password confirm) st =
      api_register salt ok username password confirm st
  serve_one (approve now cookie ok id) st =
      run (admin_only (authenticated now cookie st)) (λ _. api_approve_user ok id)
        (after_lookup now cookie st)
  serve_one (reject now cookie ok id) st =
      run (admin_only (authenticated now cookie st)) (λ _. api_reject_user ok id)
        (after_lookup now cookie st)
  serve_one (change_role now cookie ok id role) st =
      run (admin_only (authenticated now cookie st)) (λ _. api_change_role ok id role)
        (after_lookup now cookie st)
  serve_one (change_password now cookie salt ok id form) st =
      run (authenticated now cookie st) (api_change_password salt ok id form)
        (after_lookup now cookie st)
  serve_one (change_username now cookie ok id name) st =
      run (authenticated now cookie st) (api_change_username ok id name)
        (after_lookup now cookie st)

  unfoldable pub serve : List Request → AuthState → AuthState
  serve [] st = st
  serve (r ∷ rs) st = serve rs (serve_one r st).1
