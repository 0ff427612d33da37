-- ===== src/Master/Instances/Form.antt =====
-- apiCreateInstance of internal/master/web/handler_instance.go, up to the row that it inserts, with
-- parseIntSafe and instanceNameRe of internal/master/web/handler.go: the form, and what is made of it.
use craft_stack.Prelude.{
  ℕ, [], ◌∷◌, ◌++◌, Text, codes, Bool, true, false, not, ◌&&◌, ◌||◌, Option, none, some, ◌==◌, leb,
  same, if◌then◌else◌,
}
use craft_stack.Prelude.Int.{ℤ, pos, pos_part, ltb_ℤ}
use craft_stack.GoText.{split, has_suffix, to_lower, is_digit}
use craft_stack.GoText.Format.{scan_int}
use craft_stack.Master.Instances.{
  Instance, minecraft, mysql, postgresql, mongodb, redis, kafka, trimmed_lines, join_lines,
}

-- A file of the form; it may fail to open or to be read
pub data FormFile : Type 0 where
  no_file unreadable : FormFile
  form_file : Text → Text → FormFile

-- The values of the form
pub record CreateForm : Type 0 where
  pub agent_id : Text
  pub name : Text
  pub port : Text
  pub instance_type : Text
  pub service_version : Text
  pub memory_min : Text
  pub memory_max : Text
  pub jvm_args : Text
  pub auto_start : Text
  pub auto_restart : Text
  pub start_after_create : Text
  pub java_path : Text
  pub java_version : Text
  pub custom_dockerfile : Text
  pub custom_compose : Text
  pub docker_memory : Text
  pub docker_cpus : Text
  pub mysql_root_password : Text
  pub mysql_data_dir : Text
  pub mysql_extra_args : Text
  pub pg_password : Text
  pub pg_data_dir : Text
  pub pg_extra_args : Text
  pub mongo_admin_user : Text
  pub mongo_admin_password : Text
  pub mongo_data_dir : Text
  pub mongo_extra_args : Text
  pub redis_password : Text
  pub redis_data_dir : Text
  pub redis_extra_args : Text
  pub kafka_broker_id : Text
  pub kafka_data_dir : Text
  pub kafka_extra_args : Text
  pub server_jar : FormFile
  pub server_zip : FormFile

-- Both files, under their names; empty if they are not there
pub record ServerFiles : Type 0 where
  pub jar_name : Text
  pub jar : Text
  pub zip_name : Text
  pub zip : Text

abbrev pub is_alnum : ℕ → Bool
is_alnum c = (leb b'a' c && leb c b'z') || (leb b'A' c && leb c b'Z') || is_digit c

unfoldable pub name_tail : Text → Bool
name_tail [] = true
name_tail (c ∷ s) = (is_alnum c || c == b'.' || c == b'_' || c == b'-') && name_tail s

-- instanceNameRe
unfoldable pub matches_name : Text → Bool
unfolding name_tail
matches_name [] = false
matches_name (c ∷ s) = is_alnum c && name_tail s

-- parseIntSafe
unfoldable pub parse_int_safe : Text → Option ℤ
parse_int_safe s = scan_int s

abbrev pub default_port : Text → ℕ
default_port t =
    if same t minecraft
    then 25565
    else if same t mysql
    then 3306
    else if same t postgresql
    then 5432
    else if same t mongodb
    then 27017
    else if same t redis
    then 6379
    else if same t kafka
    then 9092
    else 25565

abbrev pub positive_or : Option ℤ → ℕ → ℕ
positive_or none d = d
positive_or (some n) d = if ltb_ℤ (pos 0) n then pos_part n else d

-- The port of the form, or the default of the type
unfoldable pub port_of : Text → Text → ℕ
port_of text type =
    if same text []
    then default_port type
    else positive_or (parse_int_safe text) (default_port type)

abbrev pub is_on : Text → Bool
is_on s = same s (codes "true") || same s (codes "on")

abbrev pub default_to : Text → Text → Text
default_to d s = if same s [] then d else s

-- The cleaned JVM arguments
unfoldable pub clean_args : Text → Text
clean_args s = if same s [] then [] else join_lines (trimmed_lines (split s b'\n'))

abbrev pub or_zero : Option ℤ → ℤ
or_zero none = pos 0
or_zero (some n) = n

abbrev pub broker_id : Text → ℤ
broker_id s = if same s [] then pos 0 else or_zero (parse_int_safe s)

abbrev pub type_of : CreateForm → Text
type_of f = default_to minecraft f.instance_type

-- Both files of the form, unless one cannot be read
abbrev pub both_files : FormFile → FormFile → Option ServerFiles
both_files unreadable z = none
both_files j unreadable = none
both_files no_file no_file = some (record { jar_name = []; jar = []; zip_name = []; zip = [] })
both_files (form_file n d) no_file =
    some (record { jar_name = n; jar = d; zip_name = []; zip = [] })
both_files no_file (form_file m e) =
    some (record { jar_name = []; jar = []; zip_name = m; zip = e })
both_files (form_file n d) (form_file m e) =
    some (record { jar_name = n; jar = d; zip_name = m; zip = e })

-- A ZIP file that comes as the JAR file
unfoldable pub as_zip : ServerFiles → ServerFiles
as_zip s =
    if not (same s.jar []) && same s.zip [] && has_suffix (to_lower s.jar_name) (codes ".zip")
    then record { jar_name = []; jar = []; zip_name = s.jar_name; zip = s.jar }
    else s

-- The row that the form makes
unfoldable pub instance_of : CreateForm → ServerFiles → Instance
unfolding port_of clean_args
instance_of f s = record {
  id = f.agent_id ++ b'-' ∷ f.name;
  node_id = f.agent_id;
  name = f.name;
  port = port_of f.port (type_of f);
  memory_min = default_to (codes "512M") f.memory_min;
  memory_max = default_to (codes "1024M") f.memory_max;
  java_path = default_to (codes "java") f.java_path;
  server_jar = default_to (codes "server.jar") s.jar_name;
  work_dir = codes "./servers/" ++ f.name;
  status = codes "stopped";
  pid = none;
  rcon_port = none;
  rcon_password = none;
  auto_start = is_on f.auto_start;
  auto_restart = is_on f.auto_restart;
  restart_delay_sec = 10;
  stop_command = codes "stop";
  jvm_args = clean_args f.jvm_args;
  accept_eula = true;
  instance_type = type_of f;
  service_version = f.service_version;
  mysql_root_password = f.mysql_root_password;
  mysql_data_dir = f.mysql_data_dir;
  mysql_extra_args = f.mysql_extra_args;
  pg_password = f.pg_password;
  pg_data_dir = f.pg_data_dir;
  pg_extra_args = f.pg_extra_args;
  mongo_admin_user = f.mongo_admin_user;
  mongo_admin_password = f.mongo_admin_password;
  mongo_data_dir = f.mongo_data_dir;
  mongo_extra_args = f.mongo_extra_args;
  redis_password = f.redis_password;
  redis_data_dir = f.redis_data_dir;
  redis_extra_args = f.redis_extra_args;
  kafka_broker_id = broker_id f.kafka_broker_id;
  kafka_data_dir = f.kafka_data_dir;
  kafka_extra_args = f.kafka_extra_args;
  backup_enabled = false;
  backup_cron = [];
  backup_max_count = pos 0;
  backup_last_at = none;
  java_version = f.java_version;
  custom_dockerfile = f.custom_dockerfile;
  custom_compose = f.custom_compose;
  docker_memory = f.docker_memory;
  docker_cpus = f.docker_cpus;
}
