-- ===== src/Agent/Instances.antt =====
-- internal/agent/instance_manager.go and internal/agent/instance_sync.go: the instances of an agent,
-- their definitions, and the containers that are made for them; CreateInstance and DeleteInstance of
-- internal/agent/grpc_agent_service.go call them. The containers that docker has are part of the
-- state, and what docker and the disk answer is an argument. A ZIP file does not come with the call
-- (it is uploaded afterwards).
pub mod Manager
pub mod Sync
pub mod Ready
pub mod Synced
mod Tests
use craft_stack.Prelude.{
  ℕ, List, [], ◌∷◌, ◌++◌, Text, codes, Bool, true, false, not, ◌&&◌, ◌||◌, Option, none, some, same,
  if◌then◌else◌,
}
use craft_stack.Prelude.Int.{ℤ, pos, ltb_ℤ}
use craft_stack.Prelude.Dict.{Dict, get, put}
use craft_stack.GoText.Format.{show_int}
use craft_stack.GoPath.{join}
use craft_stack.Agent.Containers.{ContainerConfig, build_container_config, is_zero}
use craft_stack.Agent.Containers.Memory.{compute_docker_memory}
use craft_stack.Agent.DockerProcess.{
  DockerProcess, new_docker, InspectAnswer, refresh_state, StartAnswer, start, is_running,
  is_starting,
}

-- pb.InstanceConfig
pub record InstanceConfig : Type 0 where
  pub instance_id : Text
  pub name : Text
  pub port : ℤ
  pub memory_min : Text
  pub memory_max : Text
  pub server_jar : Text
  pub work_dir : Text
  pub java_path : Text
  pub auto_start : Bool
  pub auto_restart : Bool
  pub restart_delay_sec : ℤ
  pub stop_command : Text
  pub jvm_args : List Text
  pub accept_eula : Bool
  pub instance_type : Text
  pub service_version : Text
  pub java_version : Text
  pub custom_dockerfile : Text
  pub custom_compose : Text
  pub network_name : Text
  pub docker_memory : Text
  pub docker_cpus : Text

-- common.InstanceDef, without the RCON settings and the server properties, which nothing here fills
pub record InstanceDef : Type 0 where
  pub type : Text
  pub name : Text
  pub port : ℤ
  pub work_dir : Text
  pub server_jar : Text
  pub memory_min : Text
  pub memory_max : Text
  pub java_path : Text
  pub auto_start : Bool
  pub auto_restart : Bool
  pub restart_delay_sec : ℤ
  pub stop_command : Text
  pub jvm_args : List Text
  pub accept_eula : Bool
  pub service_version : Text
  pub java_version : Text
  pub custom_dockerfile : Text
  pub custom_compose : Text
  pub network_name : Text
  pub docker_memory : Text
  pub docker_cpus : Text

-- A DockerProcess with the settings that it was made with
pub record Managed : Type 0 where
  pub name : Text
  pub type : Text
  pub process : DockerProcess

pub record AgentState : Type 0 where
  pub instances : Dict Managed
  pub defs : Dict InstanceDef
  pub containers : Dict ContainerConfig
  pub files : Dict Text

-- What docker and the disk answer for one instance
pub record DockerAnswers : Type 0 where
  pub now : ℕ
  pub make_dir : Bool
  pub write_file : Bool
  pub stores : Text → Bool
  pub daemon : Bool
  pub compose_up : Bool
  pub builds : Bool
  pub pulls : Bool
  pub creates : Bool
  pub inspected : InspectAnswer
  pub on_start : StartAnswer

-- The settings of the agent that are read here
pub record AgentConfig : Type 0 where
  pub id : Text
  pub java_path : Text
  pub cwd : Text
  pub dns_listen_ip : Text

abbrev pub or_default : Text → Text → Text
or_default d s = if same s [] then d else s

abbrev pub default_port_of : ℤ → ℤ
default_port_of p = if is_zero p then pos 25565 else p

abbrev pub eula : Text
eula = codes "# CraftStack auto create\n# https://aka.ms/MinecraftEULA\neula=true\n"

-- The text of server.properties; its first line has a dash of three bytes
abbrev pub properties : ℤ → Text
properties port =
    codes "# CraftStack auto create "
    ++ 226 ∷ 128 ∷ 148 ∷ codes " additional settings auto-added after server start\nserver-port="
    ++ show_int port
    ++ codes "\n"

-- The variables that ensureDockerContainerCtx sets
unfoldable pub env_overrides : InstanceDef → Dict Text
env_overrides d =
    if same d.type (codes "minecraft")
    then (codes "JAVA_TOOL_OPTIONS", codes "-Xms" ++ d.memory_min ++ codes " -Xmx" ++ d.memory_max)
      ∷ []
    else if same d.type (codes "mysql")
    then (codes "MYSQL_ROOT_PASSWORD", codes "craftstack") ∷ []
    else if same d.type (codes "postgresql")
    then (codes "POSTGRES_PASSWORD", codes "craftstack") ∷ []
    else []

abbrev pub effective_memory : InstanceDef → Text
effective_memory d =
    if same d.docker_memory [] && not (same d.memory_max [])
    then compute_docker_memory d.memory_max
    else d.docker_memory

unfoldable pub container_config : AgentConfig → InstanceDef → Option ContainerConfig
unfolding env_overrides build_container_config
container_config cfg d =
    build_container_config cfg.cwd d.name d.type d.service_version d.port d.work_dir
      (env_overrides d) (effective_memory d) d.docker_cpus d.java_version d.network_name

abbrev pub container_name : Text → Text
container_name name = codes "craftstack-" ++ name

-- The image of a custom Dockerfile, and the DNS server of the mesh
abbrev pub customised : AgentConfig → InstanceDef → ContainerConfig → ContainerConfig
customised cfg d c = record c {
  dns = if same cfg.dns_listen_ip [] then [] else cfg.dns_listen_ip ∷ [];
  image =
      if same d.custom_dockerfile []
      then c.image
      else codes "craftstack-custom-" ++ d.name ++ codes ":latest";
}

-- The file of a custom setting, unless the setting is empty
abbrev pub custom_file : InstanceDef → Text → Text → Dict Text → Dict Text
custom_file d name content files =
    if same content [] then files else put files (join d.work_dir name) content

-- Whether a custom setting stops the creation
abbrev pub custom_ok : Bool → Bool → Text → Bool
custom_ok writes works content = same content [] || (writes && works)

-- The files behind the compose and the Dockerfile steps; the second is reached if the first is done
unfoldable pub custom_files : DockerAnswers → InstanceDef → Dict Text → Dict Text
custom_files ans d files =
    if ans.write_file
    then if custom_ok ans.write_file ans.compose_up d.custom_compose
      then custom_file d (codes "Dockerfile") d.custom_dockerfile
          (custom_file d (codes "docker-compose.yml") d.custom_compose files)
      else custom_file d (codes "docker-compose.yml") d.custom_compose files
    else files

-- The process for a container, with the state that docker reports
abbrev pub managed : DockerAnswers → InstanceDef → Managed
managed ans d = record {
  name = d.name;
  type = d.type;
  process = refresh_state ans.now ans.inspected new_docker;
}

-- The part of ensureDockerContainerCtx behind the custom settings: a container is only made if there
-- is none of its name; a custom image is not pulled
unfoldable pub ensure_container :
    AgentConfig
    → DockerAnswers
    → InstanceDef
    → ContainerConfig
    → Option ContainerConfig
    → AgentState
    → Option Managed × AgentState
unfolding refresh_state
ensure_container cfg ans d c (some old) st = (some (managed ans d), st)
ensure_container cfg ans d c none st =
    if (not (same d.custom_dockerfile []) || ans.pulls) && ans.creates
    then (
      some (managed ans d),
      record st { containers = put st.containers (container_name d.name) (customised cfg d c) },
    )
    else (none, st)

unfoldable pub with_container :
    AgentConfig
    → DockerAnswers
    → InstanceDef
    → Option ContainerConfig
    → AgentState
    → Option Managed × AgentState
unfolding custom_files ensure_container
with_container cfg ans d none st = (none, st)
with_container cfg ans d (some c) st =
    if custom_ok ans.write_file ans.compose_up d.custom_compose
      && custom_ok ans.write_file ans.builds d.custom_dockerfile
    then ensure_container cfg ans d c (get st.containers (container_name d.name))
        (record st { files = custom_files ans d st.files })
    else (none, record st { files = custom_files ans d st.files })

-- ensureDockerContainerCtx
unfoldable pub ensure_docker_container :
    AgentConfig → DockerAnswers → InstanceDef → AgentState → Option Managed × AgentState
unfolding container_config with_container
ensure_docker_container cfg ans d st =
    if ans.daemon then with_container cfg ans d (container_config cfg d) st else (none, st)

abbrev pub add_at : Text → Managed → Option Managed → AgentState → Bool × AgentState
add_at id m (some old) st = (false, st)
add_at id m none st = (true, record st { instances = put st.instances id m })

-- AddInstance
unfoldable pub add_instance : Text → Managed → AgentState → Bool × AgentState
add_instance id m st = add_at id m (get st.instances id) st
