-- ===== src/Master/Instances.antt =====
-- internal/master/store/instance.go, network.go and audit.go: the rows that the handlers of instances
-- read and write. The columns created_at and updated_at are left out.
pub mod Store
pub mod Requests
pub mod Form
pub mod Create
pub mod Update
pub mod Control
pub mod Rollback
pub mod Restored
pub mod Assigned
pub mod Upload
pub mod Uploaded
pub mod Rows
pub mod Valid
pub mod Audited
pub mod Created
pub mod Served
pub mod Asked
pub mod Kept
mod Tests
use craft_stack.Prelude.{
  ℕ, List, [], ◌∷◌, ◌++◌, Text, codes, Bool, true, false, not, ◌&&◌, ◌||◌, Option, none, some, same,
  any, keep, map, if◌then◌else◌,
}
use craft_stack.Prelude.Int.{ℤ}
use craft_stack.GoText.{split, trim_space}

-- store.Instance
pub record Instance : Type 0 where
  pub id : Text
  pub node_id : Text
  pub name : Text
  pub port : ℕ
  pub memory_min : Text
  pub memory_max : Text
  pub java_path : Text
  pub server_jar : Text
  pub work_dir : Text
  pub status : Text
  pub pid : Option ℕ
  pub rcon_port : Option ℕ
  pub rcon_password : Option Text
  pub auto_start : Bool
  pub auto_restart : Bool
  pub restart_delay_sec : ℕ
  pub stop_command : Text
  pub jvm_args : Text
  pub accept_eula : Bool
  pub instance_type : Text
  pub service_version : Text
  pub mysql_root_password : Text
  pub mysql_data_dir : Text
  pub mysql_extra_args : Text
  pub pg_password : Text
  pub pg_data_dir : Text
  pub pg_extra_args : Text
  pub mongo_admin_user : Text
  pub mongo_admin_password : Text
  pub mongo_data_dir : Text
  pub mongo_extra_args : Text
  pub redis_password : Text
  pub redis_data_dir : Text
  pub redis_extra_args : Text
  pub kafka_broker_id : ℤ
  pub kafka_data_dir : Text
  pub kafka_extra_args : Text
  pub backup_enabled : Bool
  pub backup_cron : Text
  pub backup_max_count : ℤ
  pub backup_last_at : Option ℕ
  pub java_version : Text
  pub custom_dockerfile : Text
  pub custom_compose : Text
  pub docker_memory : Text
  pub docker_cpus : Text

abbrev pub minecraft : Text
minecraft = codes "minecraft"

abbrev pub mysql : Text
mysql = codes "mysql"

abbrev pub postgresql : Text
postgresql = codes "postgresql"

abbrev pub mongodb : Text
mongodb = codes "mongodb"

abbrev pub redis : Text
redis = codes "redis"

abbrev pub kafka : Text
kafka = codes "kafka"

-- ValidInstanceTypes
unfoldable pub valid_type : Text → Bool
valid_type t = any (same t) (minecraft ∷ mysql ∷ postgresql ∷ mongodb ∷ redis ∷ kafka ∷ [])

-- The lines of a text that are not blank, trimmed
unfoldable pub trimmed_lines : List Text → List Text
trimmed_lines [] = []
trimmed_lines (l ∷ ls) =
    let rest = trimmed_lines ls in if same (trim_space l) [] then rest else trim_space l ∷ rest

-- strings.Join with a line feed
unfoldable pub join_lines : List Text → Text
join_lines [] = []
join_lines (l ∷ []) = l
join_lines (l ∷ m ∷ ls) = l ++ b'\n' ∷ join_lines (m ∷ ls)

-- JVMArgsList
unfoldable pub jvm_args_list : Instance → List Text
unfolding trimmed_lines
jvm_args_list i = if same i.jvm_args [] then [] else trimmed_lines (split i.jvm_args b'\n')

-- SetJVMArgsList
unfoldable pub set_jvm_args_list : List Text → Instance → Instance
unfolding join_lines
set_jvm_args_list args i = record i { jvm_args = join_lines args }

-- store.Network
pub record Network : Type 0 where
  pub id : Text
  pub name : Text
  pub driver : Text
  pub subnet : Text
  pub gateway : Text
  pub node_id : Text

-- store.InstanceNetwork, without its row id
pub record InstanceNetwork : Type 0 where
  pub instance_id : Text
  pub network_id : Text
  pub alias : Text
  pub ip_address : Text

-- store.AuditLog, without the detail text
pub record AuditLog : Type 0 where
  pub username : Text
  pub action : Text
  pub target_id : Text
  pub target_name : Text
  pub field_name : Text
  pub old_value : Text
  pub new_value : Text
  pub rolled_back : Bool

-- The tables; of `nodes` only the ids, which instances refer to
pub record Tables : Type 0 where
  pub nodes : List Text
  pub instances : List Instance
  pub networks : List Network
  pub instance_networks : List InstanceNetwork
  pub audit_logs : List AuditLog
