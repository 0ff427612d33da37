-- ===== src/Master/Instances/Rollback.antt =====
-- apiRollbackAuditLog of internal/master/web/handler_audit.go: an old value of a field comes back.
use craft_stack.Prelude.{
  ℕ, [], ◌∷◌, Text, codes, Bool, true, false, Option, none, some, same, if◌then◌else◌,
}
use mathlib.Core.Option
use craft_stack.Prelude.Dict.{Dict, get}
use craft_stack.GoText.{atoi}
use craft_stack.Master.Instances.{Instance, AuditLog, Tables}
use craft_stack.Master.Instances.Store.{
  get_instance, update_instance, create_audit_log, get_audit_log, mark_audit_log_rolled_back,
}
use craft_stack.Master.Instances.Requests.{
  Caller, HttpReply, ok, bad_request, not_found, server_error,
}
use craft_stack.Master.Instances.Update.{or_old}

-- The switch over the field: what it does with the old value
abbrev pub restorers : Dict (Text → Instance → Instance)
restorers =
    (codes "memory_min", λ v i. record i { memory_min = v })
    ∷ (codes "memory_max", λ v i. record i { memory_max = v })
    ∷ (codes "docker_memory", λ v i. record i { docker_memory = v })
    ∷ (codes "docker_cpus", λ v i. record i { docker_cpus = v })
    ∷ (codes "auto_start", λ v i. record i { auto_start = same v (codes "true") })
    ∷ (codes "auto_restart", λ v i. record i { auto_restart = same v (codes "true") })
    ∷ (codes "stop_command", λ v i. record i { stop_command = v })
    ∷ (codes "jvm_args", λ v i. record i { jvm_args = v })
    ∷ (codes "service_version", λ v i. record i { service_version = v })
    ∷ (codes "java_version", λ v i. record i { java_version = v })
    ∷ (codes "custom_dockerfile", λ v i. record i { custom_dockerfile = v })
    ∷ (codes "custom_compose", λ v i. record i { custom_compose = v })
    ∷ (codes "mysql_root_password", λ v i. record i { mysql_root_password = v })
    ∷ (codes "mysql_extra_args", λ v i. record i { mysql_extra_args = v })
    ∷ (codes "pg_password", λ v i. record i { pg_password = v })
    ∷ (codes "pg_extra_args", λ v i. record i { pg_extra_args = v })
    ∷ (codes "mongo_admin_user", λ v i. record i { mongo_admin_user = v })
    ∷ (codes "mongo_admin_password", λ v i. record i { mongo_admin_password = v })
    ∷ (codes "mongo_extra_args", λ v i. record i { mongo_extra_args = v })
    ∷ (codes "redis_password", λ v i. record i { redis_password = v })
    ∷ (codes "redis_extra_args", λ v i. record i { redis_extra_args = v })
    ∷ (
      codes "kafka_broker_id",
      λ v i. record i { kafka_broker_id = or_old (atoi v) i.kafka_broker_id },
    )
    ∷ (codes "kafka_extra_args", λ v i. record i { kafka_extra_args = v })
    ∷ (codes "backup_enabled", λ v i. record i { backup_enabled = same v (codes "true") })
    ∷ (codes "backup_cron", λ v i. record i { backup_cron = v })
    ∷ (
      codes "backup_max_count",
      λ v i. record i { backup_max_count = or_old (atoi v) i.backup_max_count },
    )
    ∷ []

unfoldable pub restore : Text → Text → Instance → Option Instance
restore field value i = Option.map (λ set. set value i) (get restorers field)

-- What follows the write of the row
unfoldable pub after_rollback : Caller → Bool → ℕ → AuditLog → Bool × Tables → HttpReply × Tables
unfolding mark_audit_log_rolled_back create_audit_log
after_rollback user marks id e (false, t) = (server_error, t)
after_rollback user marks id e (true, t) = (
  ok,
  (create_audit_log (user.records e.field_name)
      (record {
        username = user.username;
        action = codes "update";
        target_id = e.target_id;
        target_name = e.target_name;
        field_name = e.field_name;
        old_value = e.new_value;
        new_value = e.old_value;
        rolled_back = false;
      })
      (mark_audit_log_rolled_back marks id t)).1,
)

unfoldable pub write_restored :
    Caller → Bool → Bool → ℕ → AuditLog → Option Instance → Tables → HttpReply × Tables
unfolding after_rollback
write_restored user write marks id e none t = (bad_request, t)
write_restored user write marks id e (some new) t =
    after_rollback user marks id e (update_instance write new t)

unfoldable pub restore_in :
    Caller → Bool → Bool → ℕ → AuditLog → Option Instance → Tables → HttpReply × Tables
unfolding restore write_restored
restore_in user write marks id e none t = (not_found, t)
restore_in user write marks id e (some i) t =
    write_restored user write marks id e (restore e.field_name e.old_value i) t

unfoldable pub rollback_entry :
    Caller → Bool → Bool → ℕ → Option AuditLog → Tables → HttpReply × Tables
unfolding restore_in
rollback_entry user write marks id none t = (not_found, t)
rollback_entry user write marks id (some e) t =
    if e.rolled_back
    then (bad_request, t)
    else if same e.field_name []
    then (bad_request, t)
    else restore_in user write marks id e (get_instance e.target_id t) t

-- apiRollbackAuditLog, for an entry about an instance; the other entries are refused. `write` and `marks`
-- are whether the two updates succeed.
unfoldable pub api_rollback_audit_log : Caller → Bool → Bool → ℕ → Tables → HttpReply × Tables
unfolding rollback_entry
api_rollback_audit_log user write marks id t =
    rollback_entry user write marks id (get_audit_log id t.audit_logs) t
