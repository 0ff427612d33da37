-- ===== src/Agent/Instances/Manager.antt =====
-- CreateNewInstance and RemoveInstance of internal/agent/instance_manager.go, and the calls
-- CreateInstance and DeleteInstance of internal/agent/grpc_agent_service.go.
use craft_stack.Prelude.{
  [], ◌∷◌, ◌++◌, Text, codes, Bool, true, false, not, ◌&&◌, ◌||◌, Option, none, some, same, keep,
  if◌then◌else◌,
}
use craft_stack.Prelude.Int.{pos}
use craft_stack.Prelude.Dict.{Dict, get, remove}
use craft_stack.GoText.{has_prefix}
use craft_stack.GoPath.{join, clean}
use craft_stack.Agent.DockerProcess.{
  DockerProcess, start, stop, StopAnswer, kill, is_running, is_starting,
}
use craft_stack.Master.Instances.Requests.{CreateInstanceCall}
use craft_stack.Master.Instances.Form.{matches_name}
use craft_stack.Agent.Instances.{
  InstanceDef, Managed, AgentState, DockerAnswers, AgentConfig, or_default, default_port_of, eula,
  properties, container_name, ensure_docker_container, add_instance,
}
use craft_stack.Agent.Instances.Sync.{with_def, put_if, put_new}

-- The definition that CreateNewInstance makes; the call carries no version of the service and no limits
-- of its own
unfoldable pub def_of_call : AgentConfig → CreateInstanceCall → InstanceDef
def_of_call cfg r = record {
  type = or_default (codes "minecraft") r.instance_type;
  name = r.name;
  port = default_port_of r.port;
  work_dir = join (codes "./servers") r.name;
  server_jar = or_default (codes "server.jar") r.server_jar_name;
  memory_min = or_default (codes "512M") r.memory_min;
  memory_max = or_default (codes "1024M") r.memory_max;
  java_path = or_default cfg.java_path r.java_path;
  auto_start = r.auto_start;
  auto_restart = r.auto_restart;
  restart_delay_sec = pos 10;
  stop_command = codes "stop";
  jvm_args = r.jvm_args;
  accept_eula = r.accept_eula;
  service_version = [];
  java_version = r.java_version;
  custom_dockerfile = r.custom_dockerfile;
  custom_compose = r.custom_compose;
  network_name = or_default (codes "craftstack-default") r.network_name;
  docker_memory = [];
  docker_cpus = [];
}

-- eula.txt is written over, server.properties only where it is missing
unfoldable pub write_files : (Text → Bool) → InstanceDef → Dict Text → Dict Text
write_files stores d files =
    if same d.type (codes "minecraft")
    then put_new stores
        (if d.accept_eula
          then put_if (stores (join d.work_dir (codes "eula.txt"))) files
              (join d.work_dir (codes "eula.txt")) eula
          else files)
        (join d.work_dir (codes "server.properties")) (properties d.port)
    else files

-- The start after the creation
abbrev pub start_after : Bool → DockerAnswers → DockerProcess → DockerProcess
start_after wanted ans p = if wanted then (start ans.now ans.on_start p).1 else p

abbrev pub if_added : Text → InstanceDef → Bool × AgentState → Option Text × AgentState
if_added id d (false, st) = (none, st)
if_added id d (true, st) = (some id, with_def id d (true, st))

unfoldable pub with_process :
    Text
    → CreateInstanceCall
    → DockerAnswers
    → InstanceDef
    → Option Managed × AgentState
    → Option Text × AgentState
unfolding add_instance start
with_process id r ans d (none, st) = (none, st)
with_process id r ans d (some m, st) =
    if_added id d
      (add_instance id (record m { process = start_after r.start_after_create ans m.process }) st)

unfoldable pub create_at :
    AgentConfig
    → DockerAnswers
    → CreateInstanceCall
    → Text
    → Option Managed
    → AgentState
    → Option Text × AgentState
unfolding with_process ensure_docker_container write_files def_of_call
create_at cfg ans r id (some old) st = (none, st)
create_at cfg ans r id none st =
    if ans.make_dir
    then with_process id r ans (def_of_call cfg r) (
        ensure_docker_container cfg ans (def_of_call cfg r)
          (record st { files = write_files ans.stores (def_of_call cfg r) st.files }))
    else (none, st)

-- CreateNewInstance, and CreateInstance before it, without data of a file: the id, or an error
unfoldable pub create_new_instance :
    AgentConfig → DockerAnswers → CreateInstanceCall → AgentState → Option Text × AgentState
unfolding create_at
create_new_instance cfg ans r st =
    if not (same r.name []) && matches_name r.name
    then create_at cfg ans r (cfg.id ++ b'-' ∷ r.name) (get st.instances (cfg.id ++ b'-' ∷ r.name))
        st
    else (none, st)

-- What a removal meets: the stop, and whether the container and the directory can be removed
pub record RemoveAnswers : Type 0 where
  pub on_stop : StopAnswer
  pub removes_container : Bool
  pub removes_data : Bool

abbrev pub stopped_or_killed : Bool × DockerProcess → DockerProcess
stopped_or_killed (true, p) = p
stopped_or_killed (false, p) = (kill p).1

-- The process behind the removal, which other goroutines may still hold
unfoldable pub stop_process : RemoveAnswers → DockerProcess → DockerProcess
unfolding stop kill
stop_process ans p =
    if is_running p.state || is_starting p.state then stopped_or_killed (stop ans.on_stop p) else p

abbrev pub is_below : Text → Text → Bool
is_below dir p = same p (clean dir) || has_prefix p (clean dir ++ b'/' ∷ [])

-- os.RemoveAll on the work directory
abbrev pub remove_data : Bool → Bool → Option InstanceDef → Dict Text → Dict Text
remove_data wanted removes none files = files
remove_data wanted removes (some d) files =
    if wanted && not (same d.work_dir []) && removes
    then keep (λ f. not (is_below d.work_dir f.0)) files
    else files

unfoldable pub remove_at :
    RemoveAnswers → Text → Bool → Option Managed → AgentState → Option DockerProcess × AgentState
unfolding stop_process
remove_at ans id wanted none st = (none, st)
remove_at ans id wanted (some m) st = (
  some (stop_process ans m.process),
  record {
    instances = remove st.instances id;
    defs = remove st.defs id;
    containers =
        if ans.removes_container
        then remove st.containers (container_name m.name)
        else st.containers;
    files = remove_data wanted ans.removes_data (get st.defs id) st.files;
  },
)

-- RemoveInstance, and DeleteInstance before it: the process as it is left, or an error
unfoldable pub remove_instance :
    RemoveAnswers → Text → Bool → AgentState → Option DockerProcess × AgentState
unfolding remove_at
remove_instance ans id wanted st =
    if same id [] then (none, st) else remove_at ans id wanted (get st.instances id) st
