-- ===== src/Master/Instances/Store.antt =====
-- internal/master/store/instance.go and the networks of internal/master/store/network.go: the reads and
-- writes of the tables, with their keys. The answer of the database driver to a write is an argument; a
-- write that breaks a key is refused as well. Reads do not fail, and a row that is not found is `none`.
use craft_stack.Prelude.{
  ◌==◌, ◌-◌, ℕ, List, [], ◌∷◌, ◌++◌, Text, Bool, true, false, not, ◌&&◌, ◌||◌, Option, none, some,
  same, any, keep, map, if◌then◌else◌,
}
use craft_stack.Master.Instances.{AuditLog, Instance, InstanceNetwork, Network, Tables, minecraft}

unfoldable pub find_instance : Text → List Instance → Option Instance
find_instance id [] = none
find_instance id (i ∷ is) = if same i.id id then some i else find_instance id is

-- DB.GetInstance
unfoldable pub get_instance : Text → Tables → Option Instance
unfolding find_instance
get_instance id t = find_instance id t.instances

abbrev pub has_instance : Text → Tables → Bool
has_instance id t = any (λ i. same i.id id) t.instances

abbrev pub or_minecraft : Instance → Instance
or_minecraft i = if same i.instance_type [] then record i { instance_type = minecraft } else i

-- The columns that neither insert names are NULL.
abbrev pub no_pid : Instance → Instance
no_pid i = record i { pid = none; backup_last_at = none }

-- DB.CreateInstance; the id is a key, and the node must be there
unfoldable pub create_instance : Bool → Instance → Tables → Bool × Tables
create_instance ok i t =
    if ok && any (λ n. same n i.node_id) t.nodes && not (has_instance i.id t)
    then (true, record t { instances = t.instances ++ no_pid (or_minecraft i) ∷ [] })
    else (false, t)

-- The rows with an id, changed
unfoldable pub change_rows : Text → (Instance → Instance) → List Instance → List Instance
change_rows id f = map (λ i. if same i.id id then f i else i)

-- DB.UpdateInstanceStatus
unfoldable pub update_instance_status : Bool → Text → Text → Option ℕ → Tables → Bool × Tables
unfolding change_rows
update_instance_status ok id status pid t =
    if ok
    then (
      true,
      record t {
        instances = change_rows id (λ i. record i { status = status; pid = pid }) t.instances;
      },
    )
    else (false, t)

-- DB.UpsertInstance; a row that is there only gets the status
unfoldable pub upsert_instance : Bool → Instance → Tables → Bool × Tables
unfolding change_rows
upsert_instance ok i t =
    if ok
    then if has_instance i.id t
      then (
        true,
        record t {
          instances = change_rows i.id (λ old. record old { status = i.status }) t.instances;
        },
      )
      else if any (λ n. same n i.node_id) t.nodes
      then (
        true,
        record t {
          instances =
              t.instances
              ++ record (no_pid (or_minecraft i)) { rcon_port = none; rcon_password = none } ∷ [];
        },
      )
      else (false, t)
    else (false, t)

-- The columns that UpdateInstance writes
abbrev pub with_settings : Instance → Instance → Instance
with_settings i old = record old {
  name = i.name;
  port = i.port;
  memory_min = i.memory_min;
  memory_max = i.memory_max;
  java_path = i.java_path;
  server_jar = i.server_jar;
  work_dir = i.work_dir;
  auto_start = i.auto_start;
  auto_restart = i.auto_restart;
  restart_delay_sec = i.restart_delay_sec;
  stop_command = i.stop_command;
  jvm_args = i.jvm_args;
  accept_eula = i.accept_eula;
  instance_type = i.instance_type;
  service_version = i.service_version;
  mysql_root_password = i.mysql_root_password;
  mysql_data_dir = i.mysql_data_dir;
  mysql_extra_args = i.mysql_extra_args;
  pg_password = i.pg_password;
  pg_data_dir = i.pg_data_dir;
  pg_extra_args = i.pg_extra_args;
  mongo_admin_user = i.mongo_admin_user;
  mongo_admin_password = i.mongo_admin_password;
  mongo_data_dir = i.mongo_data_dir;
  mongo_extra_args = i.mongo_extra_args;
  redis_password = i.redis_password;
  redis_data_dir = i.redis_data_dir;
  redis_extra_args = i.redis_extra_args;
  kafka_broker_id = i.kafka_broker_id;
  kafka_data_dir = i.kafka_data_dir;
  kafka_extra_args = i.kafka_extra_args;
  backup_enabled = i.backup_enabled;
  backup_cron = i.backup_cron;
  backup_max_count = i.backup_max_count;
  java_version = i.java_version;
  custom_dockerfile = i.custom_dockerfile;
  custom_compose = i.custom_compose;
  docker_memory = i.docker_memory;
  docker_cpus = i.docker_cpus;
}

-- DB.UpdateInstance
unfoldable pub update_instance : Bool → Instance → Tables → Bool × Tables
unfolding change_rows
update_instance ok i t =
    if ok
    then (true, record t { instances = change_rows i.id (with_settings i) t.instances })
    else (false, t)

-- DB.DeleteInstance, with the rows that refer to the instance (ON DELETE CASCADE)
unfoldable pub delete_instance : Bool → Text → Tables → Bool × Tables
delete_instance ok id t =
    if ok
    then (
      true,
      record t {
        instances = keep (λ i. not (same i.id id)) t.instances;
        instance_networks = keep (λ n. not (same n.instance_id id)) t.instance_networks;
      },
    )
    else (false, t)

-- DB.GetNetwork
unfoldable pub find_network : Text → List Network → Option Network
find_network id [] = none
find_network id (n ∷ ns) = if same n.id id then some n else find_network id ns

-- DB.CreateNetwork; the id is a key, and the name is unique
unfoldable pub create_network : Bool → Network → Tables → Bool × Tables
create_network ok n t =
    if ok && not (any (λ m. same m.id n.id || same m.name n.name) t.networks)
    then (true, record t { networks = t.networks ++ n ∷ [] })
    else (false, t)

abbrev pub same_link : Text → Text → InstanceNetwork → Bool
same_link instance network l = same l.instance_id instance && same l.network_id network

-- DB.AddInstanceToNetwork; the instance and the network must be there
unfoldable pub add_instance_to_network : Bool → InstanceNetwork → Tables → Bool × Tables
add_instance_to_network ok l t =
    if ok && has_instance l.instance_id t && any (λ n. same n.id l.network_id) t.networks
    then if any (same_link l.instance_id l.network_id) t.instance_networks
      then (
        true,
        record t {
          instance_networks =
              map
                (λ m.
                  if same_link l.instance_id l.network_id m
                  then record m { alias = l.alias; ip_address = l.ip_address }
                  else m)
                t.instance_networks;
        },
      )
      else (true, record t { instance_networks = t.instance_networks ++ l ∷ [] })
    else (false, t)

-- DB.RemoveInstanceFromNetwork
unfoldable pub remove_instance_from_network : Bool → Text → Text → Tables → Bool × Tables
remove_instance_from_network ok instance network t =
    if ok
    then (
      true,
      record t {
        instance_networks = keep (λ l. not (same_link instance network l)) t.instance_networks;
      },
    )
    else (false, t)

-- DB.ListInstanceNetworks, by age
unfoldable pub list_instance_networks : Text → Tables → List InstanceNetwork
list_instance_networks instance t = keep (λ l. same l.instance_id instance) t.instance_networks

-- DB.CreateAuditLog
unfoldable pub create_audit_log : Bool → AuditLog → Tables → Bool × Tables
create_audit_log ok a t =
    if ok then (true, record t { audit_logs = t.audit_logs ++ a ∷ [] }) else (false, t)

-- DB.GetAuditLog, of the entries about instances, whose ids count from 1
unfoldable pub get_audit_log : ℕ → List AuditLog → Option AuditLog
get_audit_log id [] = none
get_audit_log id (a ∷ logs) =
    let rest = get_audit_log (id - 1) logs in if id == 1 then some a else rest

unfoldable pub mark_at : ℕ → List AuditLog → List AuditLog
mark_at id [] = []
mark_at id (a ∷ logs) =
    let rest = mark_at (id - 1) logs in
    if id == 1 then record a { rolled_back = true } ∷ logs else a ∷ rest

-- DB.MarkAuditLogRolledBack; the caller goes on where it fails
unfoldable pub mark_audit_log_rolled_back : Bool → ℕ → Tables → Tables
unfolding mark_at
mark_audit_log_rolled_back ok id t =
    if ok then record t { audit_logs = mark_at id t.audit_logs } else t
