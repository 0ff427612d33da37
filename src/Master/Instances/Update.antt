-- ===== src/Master/Instances/Update.antt =====
-- apiUpdateInstance of internal/master/web/handler_instance.go, and the audit entries of
-- internal/master/web/handler_audit.go. A pointer that is nil is `none`.
use craft_stack.Prelude.{
  List, [], ◌∷◌, Text, codes, Bool, true, false, ◌||◌, Option, none, some, ◌==◌, same, length,
  if◌then◌else◌,
}
use craft_stack.Prelude.Int.{ℤ, pos, ltb_ℤ}
use craft_stack.GoText.{trim_space, fields}
use craft_stack.GoText.Format.{show_bool, show_int}
use craft_stack.Master.Instances.{Instance, Tables}
use craft_stack.Master.Instances.Store.{get_instance, update_instance, create_audit_log}
use craft_stack.Master.Instances.Requests.{
  Caller, HttpReply, ok, bad_request, not_found, server_error,
}

-- The body of the request
pub record UpdateRequest : Type 0 where
  pub name : Option Text
  pub port : Option ℤ
  pub memory_min : Option Text
  pub memory_max : Option Text
  pub auto_start : Option Bool
  pub auto_restart : Option Bool
  pub stop_command : Option Text
  pub jvm_args : Option Text
  pub service_version : Option Text
  pub mysql_root_password : Option Text
  pub mysql_extra_args : Option Text
  pub pg_password : Option Text
  pub pg_extra_args : Option Text
  pub mongo_admin_user : Option Text
  pub mongo_admin_password : Option Text
  pub mongo_extra_args : Option Text
  pub redis_password : Option Text
  pub redis_extra_args : Option Text
  pub kafka_broker_id : Option ℤ
  pub kafka_extra_args : Option Text
  pub backup_enabled : Option Bool
  pub backup_cron : Option Text
  pub backup_max_count : Option ℤ
  pub java_version : Option Text
  pub custom_dockerfile : Option Text
  pub custom_compose : Option Text
  pub docker_memory : Option Text
  pub docker_cpus : Option Text

abbrev pub or_old {ℓ} : {A : Type ℓ} → Option A → A → A
or_old none old = old
or_old (some new) old = new

-- The fields that are taken over as they are; the port is not among them
abbrev pub with_fields : UpdateRequest → Instance → Instance
with_fields r i = record i {
  name = or_old r.name i.name;
  memory_min = or_old r.memory_min i.memory_min;
  memory_max = or_old r.memory_max i.memory_max;
  auto_start = or_old r.auto_start i.auto_start;
  auto_restart = or_old r.auto_restart i.auto_restart;
  stop_command = or_old r.stop_command i.stop_command;
  jvm_args = or_old r.jvm_args i.jvm_args;
  service_version = or_old r.service_version i.service_version;
  mysql_root_password = or_old r.mysql_root_password i.mysql_root_password;
  mysql_extra_args = or_old r.mysql_extra_args i.mysql_extra_args;
  pg_password = or_old r.pg_password i.pg_password;
  pg_extra_args = or_old r.pg_extra_args i.pg_extra_args;
  mongo_admin_user = or_old r.mongo_admin_user i.mongo_admin_user;
  mongo_admin_password = or_old r.mongo_admin_password i.mongo_admin_password;
  mongo_extra_args = or_old r.mongo_extra_args i.mongo_extra_args;
  redis_password = or_old r.redis_password i.redis_password;
  redis_extra_args = or_old r.redis_extra_args i.redis_extra_args;
  kafka_broker_id = or_old r.kafka_broker_id i.kafka_broker_id;
  kafka_extra_args = or_old r.kafka_extra_args i.kafka_extra_args;
  backup_enabled = or_old r.backup_enabled i.backup_enabled;
  java_version = or_old r.java_version i.java_version;
  custom_dockerfile = or_old r.custom_dockerfile i.custom_dockerfile;
  custom_compose = or_old r.custom_compose i.custom_compose;
  docker_memory = or_old r.docker_memory i.docker_memory;
  docker_cpus = or_old r.docker_cpus i.docker_cpus;
}

-- The cron expression is trimmed, and must be empty or have five fields.
unfoldable pub accepts_cron : Text → Bool
accepts_cron c = same (trim_space c) [] || length (fields (trim_space c)) == 5

unfoldable pub with_cron : Option Text → Instance → Option Instance
with_cron none i = some i
with_cron (some c) i =
    if accepts_cron c then some (record i { backup_cron = trim_space c }) else none

unfoldable pub with_max_count : Option ℤ → Instance → Option Instance
with_max_count none i = some i
with_max_count (some n) i =
    if ltb_ℤ n (pos 1) then none else some (record i { backup_max_count = n })

abbrev pub then_max_count : Option ℤ → Option Instance → Option Instance
then_max_count n none = none
then_max_count n (some i) = with_max_count n i

-- The new row, or `none` for a request that is refused
unfoldable pub apply_update : UpdateRequest → Instance → Option Instance
unfolding with_cron with_max_count
apply_update r i = then_max_count r.backup_max_count (with_cron r.backup_cron (with_fields r i))

-- auditFieldChange
unfoldable pub audit_field_change : Caller → Text → Text → Text → Text → Text → Tables → Tables
unfolding create_audit_log
audit_field_change user id name field old new t =
    if same old new
    then t
    else (create_audit_log (user.records field)
        (record {
          username = user.username;
          action = codes "update";
          target_id = id;
          target_name = name;
          field_name = field;
          old_value = old;
          new_value = new;
          rolled_back = false;
        })
        t).1

-- The fields that an update records, in order, and how their values are written
abbrev pub audited_fields : List (Text × (Instance → Text))
audited_fields =
    (codes "memory_min", λ i. i.memory_min)
    ∷ (codes "memory_max", λ i. i.memory_max)
    ∷ (codes "auto_start", λ i. show_bool i.auto_start)
    ∷ (codes "auto_restart", λ i. show_bool i.auto_restart)
    ∷ (codes "stop_command", λ i. i.stop_command)
    ∷ (codes "jvm_args", λ i. i.jvm_args)
    ∷ (codes "service_version", λ i. i.service_version)
    ∷ (codes "java_version", λ i. i.java_version)
    ∷ (codes "custom_dockerfile", λ i. i.custom_dockerfile)
    ∷ (codes "custom_compose", λ i. i.custom_compose)
    ∷ (codes "mysql_root_password", λ i. i.mysql_root_password)
    ∷ (codes "mysql_extra_args", λ i. i.mysql_extra_args)
    ∷ (codes "pg_password", λ i. i.pg_password)
    ∷ (codes "pg_extra_args", λ i. i.pg_extra_args)
    ∷ (codes "mongo_admin_user", λ i. i.mongo_admin_user)
    ∷ (codes "mongo_admin_password", λ i. i.mongo_admin_password)
    ∷ (codes "mongo_extra_args", λ i. i.mongo_extra_args)
    ∷ (codes "redis_password", λ i. i.redis_password)
    ∷ (codes "redis_extra_args", λ i. i.redis_extra_args)
    ∷ (codes "kafka_broker_id", λ i. show_int i.kafka_broker_id)
    ∷ (codes "kafka_extra_args", λ i. i.kafka_extra_args)
    ∷ (codes "backup_enabled", λ i. show_bool i.backup_enabled)
    ∷ (codes "backup_cron", λ i. i.backup_cron)
    ∷ (codes "backup_max_count", λ i. show_int i.backup_max_count)
    ∷ (codes "docker_memory", λ i. i.docker_memory)
    ∷ (codes "docker_cpus", λ i. i.docker_cpus)
    ∷ []

unfoldable pub audit_changes :
    Caller → Instance → Instance → List (Text × (Instance → Text)) → Tables → Tables
unfolding audit_field_change
audit_changes user old new [] t = t
audit_changes user old new ((field, show) ∷ fs) t =
    audit_changes user old new fs
      (audit_field_change user new.id new.name field (show old) (show new) t)

unfoldable pub updated : Caller → Instance → Instance → Bool × Tables → HttpReply × Tables
unfolding audit_changes
updated user old new (false, t) = (server_error, t)
updated user old new (true, t) = (ok, audit_changes user old new audited_fields t)

unfoldable pub changed : Caller → Bool → Instance → Option Instance → Tables → HttpReply × Tables
unfolding updated
changed user write old none t = (bad_request, t)
changed user write old (some new) t = updated user old new (update_instance write new t)

unfoldable pub found :
    Caller → Bool → Option UpdateRequest → Option Instance → Tables → HttpReply × Tables
unfolding changed
found user write r none t = (not_found, t)
found user write none (some i) t = (bad_request, t)
found user write (some r) (some i) t = changed user write i (apply_update r i) t

-- apiUpdateInstance, by the caller and whether the write succeeds; a body that does not bind is `none`
unfoldable pub api_update_instance :
    Caller → Bool → Text → Option UpdateRequest → Tables → HttpReply × Tables
unfolding found
api_update_instance user write id r t = found user write r (get_instance id t) t
