-- ===== src/Agent/Instances/Sync.antt =====
-- syncInstances of internal/agent/instance_sync.go.
use craft_stack.Prelude.{
  List, [], ◌∷◌, Text, codes, Bool, true, false, not, ◌&&◌, ◌||◌, Option, none, some, same,
  if◌then◌else◌,
}
use craft_stack.Prelude.Int.{pos, ltb_ℤ}
use craft_stack.Prelude.Dict.{Dict, get, put}
use craft_stack.GoText.Format.{show_int}
use craft_stack.GoPath.{join}
use craft_stack.Agent.DockerProcess.{DockerProcess, start, is_running, is_starting}
use craft_stack.Agent.Instances.{
  AgentConfig, AgentState, DockerAnswers, InstanceConfig, InstanceDef, Managed, add_instance,
  default_port_of, ensure_docker_container, eula, or_default, properties,
}

-- The definition of a config, with its defaults
unfoldable pub def_of : AgentConfig → InstanceConfig → InstanceDef
def_of cfg c = record {
  type = or_default (codes "minecraft") c.instance_type;
  name = c.name;
  port = default_port_of c.port;
  work_dir = c.work_dir;
  server_jar = or_default (codes "server.jar") c.server_jar;
  memory_min = or_default (codes "512M") c.memory_min;
  memory_max = or_default (codes "1024M") c.memory_max;
  java_path = or_default cfg.java_path c.java_path;
  auto_start = c.auto_start;
  auto_restart = c.auto_restart;
  restart_delay_sec = if ltb_ℤ (pos 0) c.restart_delay_sec then c.restart_delay_sec else pos 10;
  stop_command = or_default (codes "stop") c.stop_command;
  jvm_args = c.jvm_args;
  accept_eula = c.accept_eula;
  service_version = c.service_version;
  java_version = c.java_version;
  custom_dockerfile = c.custom_dockerfile;
  custom_compose = c.custom_compose;
  network_name = c.network_name;
  docker_memory = c.docker_memory;
  docker_cpus = c.docker_cpus;
}

-- A file written by WriteFile, whose error is ignored; one that fails leaves the path as it was
abbrev pub put_if : Bool → Dict Text → Text → Text → Dict Text
put_if stores files p content = if stores then put files p content else files

abbrev pub put_new : (Text → Bool) → Dict Text → Text → Text → Dict Text
put_new stores files p content = elim (get files p) [
  | none ↦ put_if (stores p) files p content
  | some old ↦ files
]

-- eula.txt and server.properties of a Minecraft server, where they are missing
unfoldable pub prepare_files : (Text → Bool) → InstanceDef → Dict Text → Dict Text
unfolding show_int
prepare_files stores d files =
    if same d.type (codes "minecraft")
    then put_new stores
        (if d.accept_eula
          then put_new stores files (join d.work_dir (codes "eula.txt")) eula
          else files)
        (join d.work_dir (codes "server.properties")) (properties d.port)
    else files

abbrev pub jar_missing : InstanceDef → Dict Text → Bool
jar_missing d files =
    same d.type (codes "minecraft")
    && (elim (get files (join d.work_dir d.server_jar)) [ none ↦ true | some _ ↦ false ])

-- The start of a new instance
unfoldable pub auto_start_process :
    DockerAnswers → InstanceDef → Dict Text → DockerProcess → DockerProcess
unfolding start
auto_start_process ans d files p =
    if not d.auto_start || is_running p.state || is_starting p.state || jar_missing d files
    then p
    else (start ans.now ans.on_start p).1

-- Behind AddInstance: the definition, unless the id is taken
abbrev pub with_def : Text → InstanceDef → Bool × AgentState → AgentState
with_def id d (false, st) = st
with_def id d (true, st) = record st { defs = put st.defs id d }

-- A config that is not registered yet, once its container is ready or not
unfoldable pub registered :
    Text → DockerAnswers → InstanceDef → Option Managed × AgentState → AgentState
unfolding add_instance auto_start_process
registered id ans d (none, st) = st
registered id ans d (some m, st) =
    with_def id d
      (add_instance id (record m { process = auto_start_process ans d st.files m.process }) st)

unfoldable pub sync_at :
    AgentConfig → DockerAnswers → InstanceConfig → Option Managed → AgentState → AgentState
unfolding registered ensure_docker_container def_of prepare_files
sync_at cfg ans c (some old) st = st
sync_at cfg ans c none st =
    if ans.make_dir
    then registered c.instance_id ans (def_of cfg c) (
        ensure_docker_container cfg ans (def_of cfg c)
          (record st { files = prepare_files ans.stores (def_of cfg c) st.files }))
    else st

-- A round of the loop of syncInstances
unfoldable pub sync_one : AgentConfig → DockerAnswers → InstanceConfig → AgentState → AgentState
unfolding sync_at
sync_one cfg ans c st = sync_at cfg ans c (get st.instances c.instance_id) st

-- syncInstances, which holds its lock throughout
unfoldable pub sync_instances :
    AgentConfig → (Text → DockerAnswers) → List InstanceConfig → AgentState → AgentState
unfolding sync_one
sync_instances cfg ans [] st = st
sync_instances cfg ans (c ∷ cs) st =
    sync_instances cfg ans cs (sync_one cfg (ans c.instance_id) c st)
