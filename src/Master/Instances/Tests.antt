-- ===== src/Master/Instances/Tests.antt =====
-- Requests for instances, by an agent `n1` that is known.
use craft_stack.Prelude.{
  not, ◌≡◌, ◌≢◌, ◌⊎◌, refl, List, [], ◌∷◌, Text, codes, true, false, Option, none, some, same,
  length, All,
}
use craft_stack.Prelude.Int.{pos}
use craft_stack.Prelude.Dict.{get, put}
use craft_stack.GoText.{
  has_prefix, has_suffix, contains_byte, split, trim_space, fields, atoi, to_lower, before, behind,
}
use craft_stack.GoText.Format.{scan_int, skip_blanks, leading_digits, show_int, digits}
use craft_stack.GoPath.{join}
use craft_stack.Master.Cron.{validate_cron, validate_cron_part, validate_cron_field}
use craft_stack.Agent.Upload.{
  UploadAnswers, UploadRequest, AgentFiles, upload_done, upload_server_data, work_dir,
}
use craft_stack.Agent.Upload.Zip.{ZipEntry}
use craft_stack.Master.Instances.{Tables, valid_type, trimmed_lines, join_lines}
use craft_stack.Master.Instances.Store.{
  get_instance, find_instance, change_rows, create_instance, update_instance, create_network,
  find_network, add_instance_to_network, create_audit_log, get_audit_log,
  mark_audit_log_rolled_back, mark_at,
}
use craft_stack.Master.Instances.Requests.{Caller, ok, AgentAnswers}
use craft_stack.Master.Instances.Create.{
  TableAnswers, api_create_instance, with_files, insert, after_insert, store_default_network,
  ensure_network, linked, agent_calls, create_call, upload_calls,
}
use craft_stack.Master.Instances.Form.{
  no_file, CreateForm, matches_name, name_tail, parse_int_safe, port_of, instance_of, clean_args,
  as_zip,
}
use mathlib.Core.Option
use craft_stack.Master.Instances.Rollback.{
  api_rollback_audit_log, rollback_entry, restore_in, write_restored, restore, after_rollback,
}
use craft_stack.Master.Instances.Update.{
  UpdateRequest, accepts_cron, api_update_instance, found, changed, updated, apply_update,
  with_cron, with_max_count, audit_changes, audit_field_change,
}
use craft_stack.Master.Instances.Upload.{stream_upload}
use craft_stack.Master.Instances.Kept.{IsDone, api_update_instance-changes}
use craft_stack.Master.Instances.Valid.{
  IsValid, InstanceRequest, create_request, update_request, rollback_request, serve_request,
  serve_requests,
}
use craft_stack.Master.Instances.Served.{serve_requests-IsValid}
use craft_stack.Master.Instances.Uploaded.{IsSmall, stream_upload-arrives}

names :
    (matches_name (codes "main-db_2.x") ≡ true)
    × (matches_name (codes "-db") ≡ false)
    × (matches_name (codes "a/b") ≡ false)
unfolding matches_name name_tail
names = (refl, refl, refl)

-- An update takes a schedule that the parser refuses.
unchecked : (accepts_cron (codes "99 * * * *") ≡ true) × (validate_cron (codes "99 * * * *") ≢ none)
unfolding accepts_cron validate_cron validate_cron_part fields split trim_space atoi same has_prefix
    contains_byte before behind validate_cron_field
unchecked = (refl, λ e. cc e)

abbrev redis_form : Text → Text → CreateForm
redis_form agent name = record {
  agent_id = agent;
  name = name;
  port = codes "7000";
  instance_type = codes "redis";
  service_version = [];
  memory_min = [];
  memory_max = [];
  jvm_args = codes " -a \n\n-b";
  auto_start = codes "on";
  auto_restart = [];
  start_after_create = codes "true";
  java_path = [];
  java_version = [];
  custom_dockerfile = [];
  custom_compose = [];
  docker_memory = [];
  docker_cpus = [];
  mysql_root_password = [];
  mysql_data_dir = [];
  mysql_extra_args = [];
  pg_password = [];
  pg_data_dir = [];
  pg_extra_args = [];
  mongo_admin_user = [];
  mongo_admin_password = [];
  mongo_data_dir = [];
  mongo_extra_args = [];
  redis_password = [];
  redis_data_dir = [];
  redis_extra_args = [];
  kafka_broker_id = [];
  kafka_data_dir = [];
  kafka_extra_args = [];
  server_jar = no_file;
  server_zip = no_file;
}

abbrev all_well : TableAnswers
all_well = record { creates_instance = true; creates_network = true; adds_to_network = true }

abbrev helpful : AgentAnswers
helpful = record { connects = true; creates = some true; uploads = some true; controls = some true }

abbrev empty : Tables
empty = record {
  nodes = codes "n1" ∷ codes "n2" ∷ [];
  instances = [];
  networks = [];
  instance_networks = [];
  audit_logs = [];
}

empty-IsValid : IsValid empty
empty-IsValid = record { runnable = tt; distinct = tt; linked = tt; logged = tt }

-- A user whose entry about one field is refused
abbrev root : Caller
root = record { username = codes "root"; records = λ field. not (same field (codes "memory_max")) }

abbrev creation : Text → InstanceRequest
creation agent = create_request root all_well helpful [] (redis_form agent (codes "cache"))

abbrev no_change : UpdateRequest
no_change = record {
  name = none;
  port = some (pos 1);
  memory_min = none;
  memory_max = some (codes "2G");
  auto_start = none;
  auto_restart = none;
  stop_command = none;
  jvm_args = none;
  service_version = none;
  mysql_root_password = none;
  mysql_extra_args = none;
  pg_password = none;
  pg_extra_args = none;
  mongo_admin_user = none;
  mongo_admin_password = none;
  mongo_extra_args = none;
  redis_password = none;
  redis_extra_args = none;
  kafka_broker_id = none;
  kafka_extra_args = none;
  backup_enabled = none;
  backup_cron = some (codes " 0 4 * * * ");
  backup_max_count = none;
  java_version = none;
  custom_dockerfile = none;
  custom_compose = none;
  docker_memory = none;
  docker_cpus = none;
}

abbrev served : Tables
served = serve_requests (creation (codes "n1") ∷ []) empty

-- The default networks of two nodes have the same name, so that the second is not stored, and its
-- instance has no network.
second_node :
    (length (serve_requests (creation (codes "n1") ∷ creation (codes "n2") ∷ []) empty).instances
      ≡ 2)
    × (length (serve_requests (creation (codes "n1") ∷ creation (codes "n2") ∷ []) empty).networks
        ≡ 1)
    × (length
          (serve_requests
            (creation (codes "n1") ∷ creation (codes "n2") ∷ [])
            empty).instance_networks
        ≡ 1)
unfolding serve_requests serve_request api_create_instance with_files insert instance_of port_of
    clean_args parse_int_safe scan_int skip_blanks leading_digits atoi after_insert
    store_default_network ensure_network create_network find_network linked add_instance_to_network
    create_audit_log create_instance matches_name name_tail valid_type as_zip agent_calls
    create_call upload_calls stream_upload same split trim_space trimmed_lines join_lines has_suffix
    to_lower get
second_node = (refl, refl, refl)

api_update_instance-changes_example :
    ((api_update_instance root true (codes "n1-cache") (some no_change) served).0 ≢ ok)
      × ((api_update_instance root true (codes "n1-cache") (some no_change) served).1 ≡ served)
    ⊎ IsDone root
        (codes "n1-cache")
        (some no_change)
        (codes "n1-cache")
        served
        (api_update_instance root true (codes "n1-cache") (some no_change) served)
api_update_instance-changes_example =
    api_update_instance-changes root true (codes "n1-cache") (some no_change) served
      (codes "n1-cache")

-- The update is carried out, its port is not taken, and one of its two entries is refused.
taken_over :
    ((api_update_instance root true (codes "n1-cache") (some no_change) served).0 ≡ ok)
    × (length
          (api_update_instance root true (codes "n1-cache") (some no_change) served).1.audit_logs
        ≡ 2)
unfolding serve_requests serve_request api_create_instance with_files insert instance_of port_of
    clean_args parse_int_safe scan_int skip_blanks leading_digits atoi after_insert
    store_default_network ensure_network create_network find_network linked add_instance_to_network
    create_audit_log create_instance matches_name name_tail valid_type as_zip agent_calls
    create_call upload_calls stream_upload same split trim_space trimmed_lines join_lines has_suffix
    to_lower get api_update_instance found changed updated apply_update with_cron with_max_count
    accepts_cron fields update_instance get_instance find_instance change_rows audit_changes
    audit_field_change show_int digits
taken_over = (refl, refl)

-- The second entry, of the schedule, is rolled back, which is recorded as well.
rolled_back_once :
    Option.map
      (λ i. i.backup_cron)
      (get_instance
        (codes "n1-cache")
        (api_rollback_audit_log root true true 2
          (api_update_instance root true (codes "n1-cache") (some no_change) served).1).1)
    ≡ some []
unfolding serve_requests serve_request api_create_instance with_files insert instance_of port_of
    clean_args parse_int_safe scan_int skip_blanks leading_digits atoi after_insert
    store_default_network ensure_network create_network find_network linked add_instance_to_network
    create_audit_log create_instance matches_name name_tail valid_type as_zip agent_calls
    create_call upload_calls stream_upload same split trim_space trimmed_lines join_lines has_suffix
    to_lower get api_update_instance found changed updated apply_update with_cron with_max_count
    accepts_cron fields update_instance get_instance find_instance change_rows audit_changes
    audit_field_change show_int digits api_rollback_audit_log rollback_entry restore_in
    write_restored restore after_rollback get_audit_log mark_audit_log_rolled_back mark_at
rolled_back_once = refl

serve_requests-IsValid_example : IsValid (
    serve_requests
      (creation (codes "n1")
        ∷ creation (codes "n2")
        ∷ update_request root true (codes "n1-cache") (some no_change)
        ∷ rollback_request root true true 2
        ∷ [])
      empty)
serve_requests-IsValid_example =
    serve_requests-IsValid
      (creation (codes "n1")
        ∷ creation (codes "n2")
        ∷ update_request root true (codes "n1-cache") (some no_change)
        ∷ rollback_request root true true 2
        ∷ [])
      empty empty-IsValid

abbrev good : UploadAnswers
good = record {
  create_temp = true;
  write_temp = true;
  seek_temp = true;
  make_work_dir = true;
  create_file = true;
  copied = none;
  read_temp = true;
  directory = record { make_dir = λ _. true; open_file = λ _. true; write_file = λ _. none };
}

abbrev no_reader : Text → Option (List ZipEntry)
no_reader d = none

abbrev no_files : AgentFiles
no_files = record { files = []; server_jars = [] }

stream_upload-arrives_example :
    (ms : List UploadRequest) × (stream_upload (codes "mc") (codes "paper.jar") (codes "PK") [] []
      ≡ some ms)
    × All IsSmall ms
    × (upload_server_data no_reader (codes "n1") good true ms no_files ≡ (
      upload_done [],
      record no_files {
        files = put [] (join (work_dir (codes "mc")) (codes "paper.jar")) (codes "PK");
      },
    ))
stream_upload-arrives_example =
    stream_upload-arrives no_reader (codes "n1") good (codes "mc") (codes "paper.jar") (codes "PK")
      no_files
      (record {
        create_temp = refl;
        write_temp = refl;
        seek_temp = refl;
        make_work_dir = refl;
        create_file = refl;
        copied = refl;
      })
      (λ e. cc e) (λ e. cc e) (λ e. cc e)
