-- ===== src/Master/Instances/Asked.antt =====
-- apiUpdateInstance of internal/master/web/handler_instance.go: the row that a request asks for, the
-- rows behind its write, and the entries of the log.
use craft_stack.Prelude.{
  ◌≡◌, refl, sym, ap, ◌∙◌, List, [], ◌∷◌, ◌++◌, append-nil, append_assoc, Text, codes, true, false,
  not, ◌&&◌, Option, none, some, inl, inr, ◌⊎◌, same, same_iff, keep, map, Bool-cases,
  if◌then◌else◌, arith,
}
use mathlib.Core.Option
use mathlib.Core.Option.{some_inj}
use craft_stack.Prelude.Int.{ℤ, pos, ltb_ℤ}
use craft_stack.GoText.{trim_space}
use craft_stack.Master.Instances.{Instance, Tables, AuditLog}
use craft_stack.Master.Instances.Store.{find_instance, change_rows, with_settings, create_audit_log}
use craft_stack.Master.Instances.Requests.{Caller}
use craft_stack.Master.Instances.Update.{
  UpdateRequest, or_old, with_fields, with_cron, with_max_count, then_max_count, accepts_cron,
  apply_update, audit_field_change, audit_changes,
}

-- What no request changes
pub record IsFrozen (old : Instance) (new : Instance) : Type 0 where
  pub id_kept : new.id ≡ old.id
  pub node_id_kept : new.node_id ≡ old.node_id
  pub port_kept : new.port ≡ old.port
  pub java_path_kept : new.java_path ≡ old.java_path
  pub server_jar_kept : new.server_jar ≡ old.server_jar
  pub work_dir_kept : new.work_dir ≡ old.work_dir
  pub status_kept : new.status ≡ old.status
  pub pid_kept : new.pid ≡ old.pid
  pub rcon_port_kept : new.rcon_port ≡ old.rcon_port
  pub rcon_password_kept : new.rcon_password ≡ old.rcon_password
  pub restart_delay_sec_kept : new.restart_delay_sec ≡ old.restart_delay_sec
  pub accept_eula_kept : new.accept_eula ≡ old.accept_eula
  pub instance_type_kept : new.instance_type ≡ old.instance_type
  pub mysql_data_dir_kept : new.mysql_data_dir ≡ old.mysql_data_dir
  pub pg_data_dir_kept : new.pg_data_dir ≡ old.pg_data_dir
  pub mongo_data_dir_kept : new.mongo_data_dir ≡ old.mongo_data_dir
  pub redis_data_dir_kept : new.redis_data_dir ≡ old.redis_data_dir
  pub kafka_data_dir_kept : new.kafka_data_dir ≡ old.kafka_data_dir
  pub backup_last_at_kept : new.backup_last_at ≡ old.backup_last_at

-- What a request asks for; a field that it leaves out stays.
pub record IsAsked (r : UpdateRequest) (old : Instance) (new : Instance) : Type 0 where
  pub name_given : new.name ≡ or_old r.name old.name
  pub memory_min_given : new.memory_min ≡ or_old r.memory_min old.memory_min
  pub memory_max_given : new.memory_max ≡ or_old r.memory_max old.memory_max
  pub auto_start_given : new.auto_start ≡ or_old r.auto_start old.auto_start
  pub auto_restart_given : new.auto_restart ≡ or_old r.auto_restart old.auto_restart
  pub stop_command_given : new.stop_command ≡ or_old r.stop_command old.stop_command
  pub jvm_args_given : new.jvm_args ≡ or_old r.jvm_args old.jvm_args
  pub service_version_given : new.service_version ≡ or_old r.service_version old.service_version
  pub mysql_root_password_given :
      new.mysql_root_password ≡ or_old r.mysql_root_password old.mysql_root_password
  pub mysql_extra_args_given : new.mysql_extra_args ≡ or_old r.mysql_extra_args old.mysql_extra_args
  pub pg_password_given : new.pg_password ≡ or_old r.pg_password old.pg_password
  pub pg_extra_args_given : new.pg_extra_args ≡ or_old r.pg_extra_args old.pg_extra_args
  pub mongo_admin_user_given : new.mongo_admin_user ≡ or_old r.mongo_admin_user old.mongo_admin_user
  pub mongo_admin_password_given :
      new.mongo_admin_password ≡ or_old r.mongo_admin_password old.mongo_admin_password
  pub mongo_extra_args_given : new.mongo_extra_args ≡ or_old r.mongo_extra_args old.mongo_extra_args
  pub redis_password_given : new.redis_password ≡ or_old r.redis_password old.redis_password
  pub redis_extra_args_given : new.redis_extra_args ≡ or_old r.redis_extra_args old.redis_extra_args
  pub kafka_broker_id_given : new.kafka_broker_id ≡ or_old r.kafka_broker_id old.kafka_broker_id
  pub kafka_extra_args_given : new.kafka_extra_args ≡ or_old r.kafka_extra_args old.kafka_extra_args
  pub backup_enabled_given : new.backup_enabled ≡ or_old r.backup_enabled old.backup_enabled
  pub backup_max_count_given : new.backup_max_count ≡ or_old r.backup_max_count old.backup_max_count
  pub java_version_given : new.java_version ≡ or_old r.java_version old.java_version
  pub custom_dockerfile_given :
      new.custom_dockerfile ≡ or_old r.custom_dockerfile old.custom_dockerfile
  pub custom_compose_given : new.custom_compose ≡ or_old r.custom_compose old.custom_compose
  pub docker_memory_given : new.docker_memory ≡ or_old r.docker_memory old.docker_memory
  pub docker_cpus_given : new.docker_cpus ≡ or_old r.docker_cpus old.docker_cpus
  pub backup_cron_given :
      new.backup_cron ≡ or_old (Option.map trim_space r.backup_cron) old.backup_cron

-- The entries for the audited fields that differ, but for those that the database refuses
abbrev pub changed_entries :
    Caller → Instance → Instance → List (Text × (Instance → Text)) → List AuditLog
changed_entries user old new fields =
    map
      (λ f. record {
        username = user.username;
        action = codes "update";
        target_id = new.id;
        target_name = new.name;
        field_name = f.0;
        old_value = f.1 old;
        new_value = f.1 new;
        rolled_back = false;
      })
      (keep (λ f. not (same (f.1 old) (f.1 new)) && user.records f.0) fields)

module _ (f : Instance → Instance) (id : Text) (keeps : (i : Instance) → (f i).id ≡ i.id) where
  pub find_instance-change_rows :
      (j : Text) (is : List Instance)
      → find_instance j (change_rows id f is)
        ≡ (if same id j then Option.map f (find_instance j is) else find_instance j is)
  unfolding change_rows find_instance
  find_instance-change_rows j [] = ground arith
  find_instance-change_rows j (i ∷ is) = ground (
    arith,
    find_instance-change_rows j is,
    same_iff i.id id,
    same_iff i.id j,
    same_iff id j,
    keeps i,
  )

pub find_instance-id :
    (id : Text) (is : List Instance) (i : Instance) → find_instance id is ≡ some i → i.id ≡ id
unfolding find_instance
find_instance-id id [] i e = absurd (cc e)
find_instance-id id (j ∷ is) i e = elim (Bool-cases (same j.id id)) [
  | inl t ↦ let same_row : j ≡ i = some_inj.0 (rw t at e) in cc (same_row, (same_iff j.id id).0 t)
  | inr f ↦ find_instance-id id is i (rw f at e)
]

audit_field_change-logs :
    (user : Caller) (old new : Instance) (field : Text) (show : Instance → Text) (t : Tables)
    → audit_field_change user new.id new.name field (show old) (show new) t
      ≡ record t { audit_logs = t.audit_logs ++ changed_entries user old new ((field, show) ∷ []) }
unfolding audit_field_change create_audit_log
audit_field_change-logs user old new field show t = elim (Bool-cases (same (show old) (show new))) [
  | inl e ↦ rw (e, append-nil t.audit_logs) refl
  | inr e ↦ elim (Bool-cases (user.records field)) [
    | inl w ↦ rw (e, w) refl
    | inr w ↦ rw (e, w, append-nil t.audit_logs) refl
  ]
]

pub audit_changes-logs :
    (user : Caller) (old new : Instance) (fs : List (Text × (Instance → Text))) (t : Tables)
    → audit_changes user old new fs t
      ≡ record t { audit_logs = t.audit_logs ++ changed_entries user old new fs }
unfolding audit_changes
audit_changes-logs user old new [] t = rw (append-nil t.audit_logs) refl
audit_changes-logs user old new ((field, show) ∷ fs) t =
    rw
      (
        audit_field_change-logs user old new field show t,
        audit_changes-logs user old new fs (record t {
          audit_logs = t.audit_logs ++ changed_entries user old new ((field, show) ∷ []);
        }),
        append_assoc t.audit_logs (changed_entries user old new ((field, show) ∷ []))
            (changed_entries user old new fs),
      )
      (elim (Bool-cases (not (same (show old) (show new)) && user.records field)) [
        | inl e ↦ rw e refl
        | inr e ↦ rw e refl
      ])

with_cron-row :
    (o : Option Text) (i j : Instance)
    → with_cron o i ≡ some j
    → j ≡ record i { backup_cron = or_old (Option.map trim_space o) i.backup_cron }
unfolding with_cron
with_cron-row none i j e = sym (some_inj.0 e)
with_cron-row (some c) i j e = elim (Bool-cases (accepts_cron c)) [
  | inl t ↦ sym (some_inj.0 (rw t at e))
  | inr f ↦ absurd (cc (rw f at e))
]

with_max_count-row :
    (o : Option ℤ) (i j : Instance)
    → with_max_count o i ≡ some j
    → j ≡ record i { backup_max_count = or_old o i.backup_max_count }
unfolding with_max_count
with_max_count-row none i j e = sym (some_inj.0 e)
with_max_count-row (some n) i j e = elim (Bool-cases (ltb_ℤ n (pos 1))) [
  | inl t ↦ absurd (cc (rw t at e))
  | inr f ↦ sym (some_inj.0 (rw f at e))
]

abbrev pub asked_row : UpdateRequest → Instance → Instance
asked_row r old = record (with_fields r old) {
  backup_cron = or_old (Option.map trim_space r.backup_cron) old.backup_cron;
  backup_max_count = or_old r.backup_max_count old.backup_max_count;
}

pub apply_update-row :
    (r : UpdateRequest) (old new : Instance) → apply_update r old ≡ some new → new ≡ asked_row r old
unfolding apply_update
apply_update-row r old new e =
    checked (with_cron r.backup_cron (with_fields r old)) e
      (with_cron-row r.backup_cron (with_fields r old))
  where
    checked :
        (o : Option Instance)
        → then_max_count r.backup_max_count o ≡ some new
        → ((j : Instance)
            → o ≡ some j
            → j ≡ record (with_fields r old) {
              backup_cron = or_old (Option.map trim_space r.backup_cron) old.backup_cron;
            })
        → new ≡ asked_row r old
    checked none h row = absurd (cc h)
    checked (some j) h row =
        with_max_count-row r.backup_max_count j new h
        ∙ ap
            (λ (k : Instance). record k {
              backup_max_count = or_old r.backup_max_count k.backup_max_count;
            })
            (row j refl)

pub asked_row-IsFrozen : (r : UpdateRequest) (old : Instance) → IsFrozen old (asked_row r old)
asked_row-IsFrozen r old = record {
  id_kept = refl;
  node_id_kept = refl;
  port_kept = refl;
  java_path_kept = refl;
  server_jar_kept = refl;
  work_dir_kept = refl;
  status_kept = refl;
  pid_kept = refl;
  rcon_port_kept = refl;
  rcon_password_kept = refl;
  restart_delay_sec_kept = refl;
  accept_eula_kept = refl;
  instance_type_kept = refl;
  mysql_data_dir_kept = refl;
  pg_data_dir_kept = refl;
  mongo_data_dir_kept = refl;
  redis_data_dir_kept = refl;
  kafka_data_dir_kept = refl;
  backup_last_at_kept = refl;
}

pub asked_row-IsAsked : (r : UpdateRequest) (old : Instance) → IsAsked r old (asked_row r old)
asked_row-IsAsked r old = record {
  name_given = refl;
  memory_min_given = refl;
  memory_max_given = refl;
  auto_start_given = refl;
  auto_restart_given = refl;
  stop_command_given = refl;
  jvm_args_given = refl;
  service_version_given = refl;
  mysql_root_password_given = refl;
  mysql_extra_args_given = refl;
  pg_password_given = refl;
  pg_extra_args_given = refl;
  mongo_admin_user_given = refl;
  mongo_admin_password_given = refl;
  mongo_extra_args_given = refl;
  redis_password_given = refl;
  redis_extra_args_given = refl;
  kafka_broker_id_given = refl;
  kafka_extra_args_given = refl;
  backup_enabled_given = refl;
  backup_max_count_given = refl;
  java_version_given = refl;
  custom_dockerfile_given = refl;
  custom_compose_given = refl;
  docker_memory_given = refl;
  docker_cpus_given = refl;
  backup_cron_given = refl;
}

-- The row of an id after the write
pub find_instance-updated :
    (r : UpdateRequest) (old : Instance) (is : List Instance) (j : Text)
    → find_instance old.id is ≡ some old
    → find_instance j (change_rows old.id (with_settings (asked_row r old)) is)
      ≡ (if same old.id j then some (asked_row r old) else find_instance j is)
find_instance-updated r old is j g =
    find_instance-change_rows (with_settings (asked_row r old)) old.id (λ i. refl) j is
    ∙ replaced (Bool-cases (same old.id j))
  where
    replaced :
        (same old.id j ≡ true) ⊎ (same old.id j ≡ false)
        → (if same old.id j
            then Option.map (with_settings (asked_row r old)) (find_instance j is)
            else find_instance j is)
          ≡ (if same old.id j then some (asked_row r old) else find_instance j is)
    replaced (inr f) = rw f refl
    replaced (inl y) =
        let there : find_instance j is ≡ some old = cc (g, (same_iff old.id j).0 y) in
        rw (y, there) refl
