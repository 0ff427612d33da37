-- ===== src/Master/Users.antt =====
-- internal/master/store/user.go: the users table. The two time columns are left out; nothing that
-- is modelled reads them. A write takes the answer of the database driver: `false` is an error, and
-- then the table is as before.
pub mod Keyed
use craft_stack.Prelude.{
  ℕ, suc, ◌+◌, List, [], ◌∷◌, ◌++◌, map, Text, codes, Bool, true, false, not, ◌&&◌, ◌||◌, Option,
  none, some, ◌==◌, ltb, same, keep, any, length, if◌then◌else◌,
}

abbrev pub role_admin : Text
role_admin = codes "admin"

abbrev pub role_editor : Text
role_editor = codes "editor"

abbrev pub role_viewer : Text
role_viewer = codes "viewer"

-- ValidRoles[role]
unfoldable pub valid_role : Text → Bool
valid_role role = same role role_admin || same role role_editor || same role role_viewer

pub record User : Type 0 where
  pub id : ℕ
  pub username : Text
  pub password_hash : Text
  pub role : Text
  pub approved : Bool

-- The rows in the order of their ids, and the next id of the AUTOINCREMENT column.
pub record UserTable : Type 0 where
  pub rows : List User
  pub next_id : ℕ

unfoldable pub find_id : ℕ → List User → Option User
find_id k [] = none
find_id k (u ∷ us) = if u.id == k then some u else find_id k us

unfoldable pub find_username : Text → List User → Option User
find_username n [] = none
find_username n (u ∷ us) = if same u.username n then some u else find_username n us

-- GetUserByID
abbrev pub get_user_by_id : UserTable → ℕ → Option User
get_user_by_id t k = find_id k t.rows

-- GetUserByUsername
abbrev pub get_user_by_username : UserTable → Text → Option User
get_user_by_username t n = find_username n t.rows

abbrev pub taken : Option User → Bool
taken none = false
taken (some u) = true

-- CreateUser; the column `username` is UNIQUE
unfoldable pub create_user : Bool → Text → Text → Text → Bool → UserTable → Option UserTable
create_user ok username hash role approved t =
    if ok && not (taken (get_user_by_username t username))
    then some (record {
      rows =
          t.rows
          ++ record {
            id = t.next_id;
            username = username;
            password_hash = hash;
            role = role;
            approved = approved;
          }
            ∷ [];
      next_id = t.next_id + 1;
    })
    else none

unfoldable pub update_rows : (User → User) → ℕ → List User → List User
update_rows f k [] = []
update_rows f k (u ∷ us) = (if u.id == k then f u else u) ∷ update_rows f k us

abbrev pub update_user : Bool → (User → User) → ℕ → UserTable → Option UserTable
update_user ok f k t = if ok then some (record t { rows = update_rows f k t.rows }) else none

-- UpdateUserPassword
abbrev pub update_user_password : Bool → ℕ → Text → UserTable → Option UserTable
update_user_password ok k hash = update_user ok (λ u. record u { password_hash = hash }) k

-- UpdateUsername; the column is UNIQUE
abbrev pub update_username : Bool → ℕ → Text → UserTable → Option UserTable
update_username ok k name t =
    update_user (ok && not (any (λ u. same u.username name && not (u.id == k)) t.rows))
      (λ u. record u { username = name }) k t

-- UpdateUserRole
abbrev pub update_user_role : Bool → ℕ → Text → UserTable → Option UserTable
update_user_role ok k role = update_user ok (λ u. record u { role = role }) k

-- ApproveUser
abbrev pub approve_user : Bool → ℕ → UserTable → Option UserTable
approve_user ok k = update_user ok (λ u. record u { approved = true }) k

-- RejectUser, DeleteUser
abbrev pub reject_user : Bool → ℕ → UserTable → Option UserTable
reject_user ok k t =
    if ok then some (record t { rows = keep (λ u. not (u.id == k)) t.rows }) else none

abbrev pub or_unchanged : Option UserTable → UserTable → UserTable
or_unchanged none t = t
or_unchanged (some t') t = t'

-- EnsureAdminUser, given the bcrypt hash of the password that it made up (`none`: bcrypt failed)
unfoldable pub ensure_admin_user : Bool → Option Text → UserTable → UserTable
ensure_admin_user ok none t = t
ensure_admin_user ok (some hash) t =
    if ltb 0 (length t.rows)
    then t
    else or_unchanged (create_user ok (codes "admin") hash role_admin true t) t
