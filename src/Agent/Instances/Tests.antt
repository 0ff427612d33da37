-- ===== src/Agent/Instances/Tests.antt =====
-- Instances of an agent `n1`: a synchronisation, a call to create, and a removal.
use craft_stack.Prelude.{
  ◌≡◌, refl, [], ◌∷◌, Text, codes, true, false, Option, none, some, same, All,
}
use mathlib.Core.Option
use craft_stack.Prelude.Int.{pos}
use craft_stack.Prelude.Dict.{get, put, remove}
use craft_stack.GoText.{has_prefix, has_suffix, contains_byte, split, trim_space, atoi}
use craft_stack.GoText.Format.{scan_int, skip_blanks, leading_digits, show_int, digits}
use craft_stack.GoPath.{join, clean}
use craft_stack.Master.Instances.{valid_type}
use craft_stack.Master.Instances.Requests.{CreateInstanceCall}
use craft_stack.Master.Instances.Form.{matches_name, name_tail}
use craft_stack.Agent.DockerProcess.{
  running, inspect_failed, started, start, attach, refresh_state, exited, stop, kill,
}
use craft_stack.Agent.Containers.{
  ContainerConfig, build_container_config, get_image_config, default_images, without_tag, put_all,
}
use craft_stack.Agent.Containers.Memory.{compute_docker_memory}
use craft_stack.Agent.Instances.{
  InstanceConfig, Managed, AgentState, DockerAnswers, AgentConfig, container_config, env_overrides,
  ensure_docker_container, with_container, ensure_container, custom_files, add_instance,
}
use craft_stack.Agent.Instances.Sync.{def_of, sync_instances}
use craft_stack.Agent.Instances.Manager.{
  def_of_call, create_new_instance, create_at, with_process, write_files, remove_instance,
  remove_at, stop_process,
}
use craft_stack.Agent.Instances.Synced.{
  IsPresent, old_or, expected_def, first_config, sync_instances-registers,
}
use craft_stack.Agent.Instances.Ready.{IsWorking}

abbrev cfg : AgentConfig
cfg = record { id = codes "n1"; java_path = codes "java"; cwd = codes "/srv"; dns_listen_ip = [] }

abbrev docker : Text → DockerAnswers
docker id = record {
  now = 7;
  make_dir = true;
  write_file = true;
  stores = λ path. true;
  daemon = true;
  compose_up = true;
  builds = true;
  pulls = true;
  creates = true;
  inspected = inspect_failed;
  on_start = started 42;
}

docker-IsWorking : (id : Text) → IsWorking (docker id)
docker-IsWorking id = record {
  make_dir = refl;
  write_file = refl;
  daemon = refl;
  compose_up = refl;
  builds = refl;
  pulls = refl;
  creates = refl;
}

abbrev cache : InstanceConfig
cache = record {
  instance_id = codes "n1-cache";
  name = codes "cache";
  port = pos 7000;
  memory_min = [];
  memory_max = codes "1G";
  server_jar = [];
  work_dir = codes "./servers/cache";
  java_path = [];
  auto_start = true;
  auto_restart = false;
  restart_delay_sec = pos 0;
  stop_command = [];
  jvm_args = [];
  accept_eula = true;
  instance_type = codes "redis";
  service_version = codes "6";
  java_version = [];
  custom_dockerfile = [];
  custom_compose = [];
  network_name = codes "craftstack-default";
  docker_memory = codes "4G";
  docker_cpus = [];
}

-- What the master sends when the same instance is created while the agent is connected
abbrev cache_call : CreateInstanceCall
cache_call = record {
  name = codes "cache";
  port = pos 7000;
  memory_min = codes "512M";
  memory_max = codes "1G";
  server_jar_name = codes "server.jar";
  auto_start = true;
  auto_restart = false;
  accept_eula = true;
  start_after_create = true;
  java_path = codes "java";
  jvm_args = [];
  instance_type = codes "redis";
  service_version = codes "6";
  java_version = [];
  custom_dockerfile = [];
  custom_compose = [];
  network_name = codes "craftstack-default";
  server_zip_name = [];
}

abbrev nothing : AgentState
nothing = record { instances = []; defs = []; containers = []; files = [] }

abbrev image_of : Option ContainerConfig → Text
image_of none = []
image_of (some c) = c.image

abbrev memory_limit : Option ContainerConfig → Text
memory_limit none = []
memory_limit (some c) = c.memory

-- The container of a call has the default version and limit, not those that were asked for.
two_ways :
    (image_of (container_config cfg (def_of cfg cache)) ≡ codes "redis:6")
    × (memory_limit (container_config cfg (def_of cfg cache)) ≡ codes "4G")
    × (image_of (container_config cfg (def_of_call cfg cache_call)) ≡ codes "redis:7")
    × (memory_limit (container_config cfg (def_of_call cfg cache_call)) ≡ codes "1536M")
unfolding container_config build_container_config get_image_config default_images without_tag
    put_all compute_docker_memory def_of def_of_call env_overrides get put same contains_byte
    has_suffix trim_space scan_int skip_blanks leading_digits atoi show_int digits
two_ways = (refl, refl, refl, refl)

abbrev created : Option Text × AgentState
created = create_new_instance cfg (docker []) cache_call nothing

created_and_removed :
    (created.0 ≡ some (codes "n1-cache"))
    × (Option.map (λ (m : Managed). m.process.state) (get created.1.instances (codes "n1-cache"))
        ≡ some running)
    × ((create_new_instance cfg (docker []) cache_call created.1).0 ≡ none)
    × ((remove_instance
          (record { on_stop = exited 0; removes_container = true; removes_data = true })
          (codes "n1-cache")
          true
          created.1).1
        ≡ nothing)
unfolding create_new_instance create_at with_process write_files matches_name name_tail
    ensure_docker_container with_container ensure_container custom_files add_instance
    container_config build_container_config get_image_config default_images without_tag put_all
    compute_docker_memory def_of_call env_overrides get put remove same contains_byte has_suffix
    trim_space scan_int skip_blanks leading_digits atoi show_int digits refresh_state start attach
    remove_instance remove_at stop_process stop kill join clean has_prefix split
created_and_removed = (refl, refl, refl, refl)

sync_instances-registers_example :
    All (IsPresent (sync_instances cfg docker (cache ∷ []) nothing)) (cache ∷ [])
    × (get (sync_instances cfg docker (cache ∷ []) nothing).instances (codes "n1-cache")
        ≡ old_or none
            (get (sync_instances cfg docker (cache ∷ []) nothing).instances (codes "n1-cache")))
    × (get (sync_instances cfg docker (cache ∷ []) nothing).defs (codes "n1-cache")
        ≡ expected_def cfg none (first_config (codes "n1-cache") (cache ∷ [])) none)
    × (sync_instances cfg docker (cache ∷ []) (sync_instances cfg docker (cache ∷ []) nothing)
        ≡ sync_instances cfg docker (cache ∷ []) nothing)
unfolding get valid_type same def_of
sync_instances-registers_example =
    sync_instances-registers cfg docker docker (cache ∷ []) nothing (codes "n1-cache")
      docker-IsWorking (refl, tt)
