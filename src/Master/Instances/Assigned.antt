-- ===== src/Master/Instances/Assigned.antt =====
-- buildAssignedInstances of internal/master/grpc_agent_service.go: the instances that the master sends
-- to an agent. The rows come in the order of the table; the source sorts them by name.
use craft_stack.Prelude.{List, [], ◌∷◌, Text, none, some, same, keep, map}
use craft_stack.Master.Instances.{
  Instance, InstanceNetwork, Network, Tables, jvm_args_list, minecraft,
}
use craft_stack.Master.Instances.Store.{list_instance_networks, find_network}
use craft_stack.Master.Instances.Create.{int32}
use craft_stack.Master.Instances.Form.{default_to}
use craft_stack.Agent.Instances.{InstanceConfig}

-- The name of the first network of an instance, if it is in the table
unfoldable pub first_network : List InstanceNetwork → List Network → Text
first_network [] ns = []
first_network (l ∷ ls) ns = elim (find_network l.network_id ns) [ none ↦ [] | some n ↦ n.name ]

unfoldable pub config_of : Tables → Instance → InstanceConfig
unfolding jvm_args_list first_network
config_of t i = record {
  instance_id = i.id;
  name = i.name;
  port = int32 i.port;
  memory_min = i.memory_min;
  memory_max = i.memory_max;
  server_jar = i.server_jar;
  work_dir = i.work_dir;
  java_path = i.java_path;
  auto_start = i.auto_start;
  auto_restart = i.auto_restart;
  restart_delay_sec = int32 i.restart_delay_sec;
  stop_command = i.stop_command;
  jvm_args = jvm_args_list i;
  accept_eula = i.accept_eula;
  instance_type = default_to minecraft i.instance_type;
  service_version = i.service_version;
  java_version = i.java_version;
  custom_dockerfile = i.custom_dockerfile;
  custom_compose = i.custom_compose;
  network_name = first_network (list_instance_networks i.id t) t.networks;
  docker_memory = i.docker_memory;
  docker_cpus = i.docker_cpus;
}

-- buildAssignedInstances
unfoldable pub build_assigned_instances : Text → Tables → List InstanceConfig
unfolding config_of
build_assigned_instances agent t = map (config_of t) (keep (λ i. same i.node_id agent) t.instances)
