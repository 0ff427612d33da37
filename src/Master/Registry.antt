-- ===== src/Master/Registry.antt =====
-- internal/master/server.go, with the tables `nodes` and `instances` of internal/master/store, the
-- agents map of internal/master/sync/engine.go, the owners of internal/master/metrics_cache.go, and
-- RegisterAgent and the instance part of Heartbeat of internal/master/grpc_agent_service.go: which
-- agents are known and online. The source ignores the errors of these
-- writes: their answers are arguments of RegisterAgent, while the writes of the tables in a health check
-- and in a heartbeat, which do not reach the maps, succeed here.
-- Times are in nanoseconds. Each operation runs under its locks, one after the other.
pub mod Online
pub mod Registered
mod Tests
use craft_stack.Prelude.{
  ℕ, ◌-◌, ◌*◌, ◌^◌, List, [], ◌∷◌, Text, codes, Bool, true, false, not, ◌&&◌, ◌||◌, Option, none,
  some, ◌==◌, ltb, same, keep, if◌then◌else◌,
}
use craft_stack.Prelude.Dict.{Dict, get, put, remove, map_values}

pub record ConnectedAgent : Type 0 where
  pub id : Text
  pub name : Text
  pub address : Text
  pub last_seen : ℕ
  pub status : Text

-- store.Node, without its times and with the six WireGuard columns as one value
pub record Node : Type 0 where
  pub name : Text
  pub address : Text
  pub status : Text
  pub cpu_cores : ℕ
  pub memory_mb : ℕ
  pub os_info : Text
  pub wireguard : List Text

-- A row of `instances`, as far as it is written here.
pub record InstanceRow : Type 0 where
  pub node_id : Text
  pub status : Text

-- sync.TargetAgent
pub record TargetAgent : Type 0 where
  pub name : Text
  pub address : Text

-- The agents and owners of GRPCServer, the agents of the sync engine, and the two tables by key.
pub record Master : Type 0 where
  pub agents : Dict ConnectedAgent
  pub instance_owners : Dict Text
  pub sync_agents : Dict TargetAgent
  pub nodes : Dict Node
  pub instances : Dict InstanceRow

abbrev pub online : Text
online = codes "online"

abbrev pub offline : Text
offline = codes "offline"

-- What UpsertNode writes over an old row, or as a new one
unfoldable pub merge_node : Node → Option Node → Node
merge_node n none = n
merge_node n (some old) = record n { wireguard = old.wireguard }

-- DB.UpsertNode, by whether it succeeds
unfoldable pub upsert_node : Bool → Text → Node → Dict Node → Dict Node
unfolding merge_node
upsert_node ok id n nodes = if ok then put nodes id (merge_node n (get nodes id)) else nodes

abbrev bare_node : Text → Text → Node
bare_node name address = record {
  name = name;
  address = address;
  status = online;
  cpu_cores = 0;
  memory_mb = 0;
  os_info = [];
  wireguard = [];
}

-- RegisterAgentConnection
unfoldable pub register_agent_connection : Bool → ℕ → Text → Text → Text → Master → Master
unfolding upsert_node
register_agent_connection ok now id name address m = record m {
  agents =
      put m.agents id
        (record { id = id; name = name; address = address; last_seen = now; status = online });
  sync_agents = put m.sync_agents id (record { name = name; address = address });
  nodes = upsert_node ok id (bare_node name address) m.nodes;
}

set_node : Text → Dict Node → Text → Option Node → Dict Node
set_node id nodes status none = nodes
set_node id nodes status (some n) = put nodes id (record n { status = status })

-- DB.UpdateNodeStatus
unfoldable pub update_node_status : Text → Text → Dict Node → Dict Node
unfolding set_node
update_node_status id status nodes = set_node id nodes status (get nodes id)

seen : Text → ℕ → Dict ConnectedAgent → Option ConnectedAgent → Dict ConnectedAgent
seen id now agents none = agents
seen id now agents (some a) = put agents id (record a { last_seen = now; status = online })

-- UpdateAgentHeartbeat
unfoldable pub update_agent_heartbeat : ℕ → Text → Master → Master
unfolding seen update_node_status
update_agent_heartbeat now id m = record m {
  agents = seen id now m.agents (get m.agents id);
  nodes = update_node_status id online m.nodes;
}

abbrev pub agent_timeout : ℕ
agent_timeout = 90 * 10 ^ 9

-- The instances that ListInstances gives for a node, which are all of them for an empty id, set to a
-- status
unfoldable pub set_instances : Text → Text → Dict InstanceRow → Dict InstanceRow
set_instances node status =
    map_values
      (λ _ i. if same node [] || same i.node_id node then record i { status = status } else i)

-- What the health check does about one agent that timed out, besides its status.
unfoldable pub drop_agent : Text → Master → Master
unfolding update_node_status set_instances
drop_agent id m = record m {
  sync_agents = remove m.sync_agents id;
  nodes = update_node_status id offline m.nodes;
  instances = set_instances id offline m.instances;
}

abbrev pub timed_out : ℕ → ConnectedAgent → Bool
timed_out now a = ltb agent_timeout (now - a.last_seen)

unfoldable pub drop_all_timed_out : ℕ → Dict ConnectedAgent → Master → Master
drop_all_timed_out now [] m = m
drop_all_timed_out now ((id, a) ∷ agents) m =
    drop_all_timed_out now agents (if timed_out now a then drop_agent id m else m)

-- One round of healthCheckLoop
unfoldable pub health_check : ℕ → Master → Master
health_check now m = record (drop_all_timed_out now m.agents m) {
  agents =
      map_values (λ _ a. if timed_out now a then record a { status = offline } else a) m.agents;
}

abbrev status_is_online : Option ConnectedAgent → Bool
status_is_online none = false
status_is_online (some a) = same a.status online

-- IsAgentOnline
unfoldable pub is_agent_online : Text → Master → Bool
is_agent_online id m = status_is_online (get m.agents id)

abbrev address_of : Option ConnectedAgent → Option Text
address_of none = none
address_of (some a) = some a.address

-- GetAgentAddress
unfoldable pub get_agent_address : Text → Master → Option Text
get_agent_address id m = address_of (get m.agents id)

-- UpdateInstanceOwner, GetInstanceOwner
unfoldable pub update_instance_owner : Text → Text → Master → Master
update_instance_owner inst agent m = record m { instance_owners = put m.instance_owners inst agent }

abbrev pub get_instance_owner : Text → Master → Option Text
get_instance_owner inst m = get m.instance_owners inst

-- DB.DeleteNode; the rows of its instances go with it (ON DELETE CASCADE)
unfoldable pub delete_node : Text → Master → Master
delete_node id m = record m {
  nodes = remove m.nodes id;
  instances = keep (λ e. not (same e.1.node_id id)) m.instances;
}

-- The answers of the database to RegisterAgent: ListNodes, DeleteNode by its id, and UpsertNode, first
-- of RegisterAgentConnection and then of RegisterAgent itself
pub record RegisterAnswers : Type 0 where
  pub lists : Bool
  pub deletes : Text → Bool
  pub connects : Bool
  pub upserts : Bool

unfoldable pub delete_stale : (Text → Bool) → Text → Text → Dict Node → Master → Master
delete_stale deletes id name [] m = m
delete_stale deletes id name ((k, n) ∷ nodes) m =
    delete_stale deletes id name nodes
      (if same n.name name && not (same k id) && deletes k then delete_node k m else m)

unfoldable pub clean_stale : RegisterAnswers → Text → Text → Master → Master
unfolding delete_stale
clean_stale ans id name m = if ans.lists then delete_stale ans.deletes id name m.nodes m else m

-- RegisterAgentRequest
pub record Registration : Type 0 where
  pub agent_id : Text
  pub name : Text
  pub address : Text
  pub cpu_cores : ℕ
  pub memory_mb : ℕ
  pub os_info : Text

-- RegisterAgent, up to the answer
unfoldable pub register_agent : RegisterAnswers → ℕ → Registration → Master → Master
unfolding clean_stale register_agent_connection upsert_node
register_agent ans now r m =
    let m' =
      register_agent_connection ans.connects now r.agent_id r.name r.address
        (clean_stale ans r.agent_id r.name m) in
    record m' {
      nodes =
          upsert_node ans.upserts r.agent_id
            (record {
              name = r.name;
              address = r.address;
              status = online;
              cpu_cores = r.cpu_cores;
              memory_mb = r.memory_mb;
              os_info = r.os_info;
              wireguard = [];
            })
            m'.nodes;
    }

set_instance : Text → Text → Dict InstanceRow → Option InstanceRow → Dict InstanceRow
set_instance id status rows none = rows
set_instance id status rows (some i) = put rows id (record i { status = status })

-- DB.UpdateInstanceStatus
unfoldable pub update_instance_status : Text → Text → Dict InstanceRow → Dict InstanceRow
unfolding set_instance
update_instance_status id status rows = set_instance id status rows (get rows id)

unfoldable pub report : Text → List (Text × Text) → Master → Master
unfolding update_instance_owner update_instance_status
report agent [] m = m
report agent ((inst, status) ∷ reports) m =
    let owned = update_instance_owner inst agent m in
    report agent reports
      (record owned { instances = update_instance_status inst status owned.instances })

-- Heartbeat, for one request: the id of the agent, and each instance with its state as text
unfoldable pub heartbeat : ℕ → Text → List (Text × Text) → Master → Master
unfolding update_agent_heartbeat report
heartbeat now agent reports m = report agent reports (update_agent_heartbeat now agent m)
