-- ===== src/Master/Registry/Tests.antt =====
-- Runs of the registry: an agent that registers, goes silent and comes back.
use craft_stack.Prelude.{
  ℕ, ◌+◌, ◌*◌, ◌^◌, ◌≡◌, ◌≢◌, refl, [], ◌∷◌, Text, codes, true, false, not, ◌&&◌, none, some, same,
}
use craft_stack.Prelude.Dict.{get}
use craft_stack.Master.Registry.{
  ConnectedAgent, Node, Master, online, offline, timed_out, health_check, is_agent_online,
  get_agent_address, RegisterAnswers, Registration, register_agent, heartbeat,
}
use craft_stack.Master.Registry.Online.{online-health_check, heartbeat-health_check}
use craft_stack.Master.Registry.Registered.{new_node, register_agent_lem}

abbrev blank : Master
blank = record { agents = []; instance_owners = []; sync_agents = []; nodes = []; instances = [] }

abbrev old_row : Node
old_row = record {
  name = codes "alpha";
  address = codes "10.0.0.1:1";
  status = offline;
  cpu_cores = 1;
  memory_mb = 2;
  os_info = [];
  wireguard = codes "key" ∷ [];
}

-- The same agent under an id that it had before.
abbrev with_stale : Master
with_stale = record blank { nodes = (codes "a0", old_row) ∷ (codes "a1", old_row) ∷ [] }

abbrev alpha : Registration
alpha = record {
  agent_id = codes "a1";
  name = codes "alpha";
  address = codes "10.0.0.2:1";
  cpu_cores = 8;
  memory_mb = 16;
  os_info = codes "linux";
}

-- The first of the two writes of the row fails.
abbrev stores : RegisterAnswers
stores = record { lists = true; deletes = λ id. true; connects = false; upserts = true }

register_agent_lem_example :
    (is_agent_online alpha.agent_id (register_agent stores 5 alpha with_stale) ≡ true)
    × (get_agent_address alpha.agent_id (register_agent stores 5 alpha with_stale)
        ≡ some alpha.address)
    × (get (register_agent stores 5 alpha with_stale).sync_agents alpha.agent_id
        ≡ some (record { name = alpha.name; address = alpha.address }))
    × (stores.upserts ≡ true
        → get (register_agent stores 5 alpha with_stale).nodes alpha.agent_id
          ≡ some (new_node stores 5 alpha with_stale))
    × ((k : Text) (n : Node)
        → stores.lists ≡ true
        → stores.deletes k ≡ true
        → k ≢ alpha.agent_id
        → get with_stale.nodes k ≡ some n
        → n.name ≡ alpha.name
        → get (register_agent stores 5 alpha with_stale).nodes k ≡ none)
register_agent_lem_example = register_agent_lem stores 5 alpha with_stale

abbrev connected : ConnectedAgent
connected = record {
  id = codes "a1";
  name = codes "alpha";
  address = codes "10.0.0.2:1";
  last_seen = 5;
  status = online;
}

abbrev one_agent : Master
one_agent = record blank {
  agents = (codes "a1", connected) ∷ [];
  sync_agents = (codes "a1", record { name = codes "alpha"; address = codes "10.0.0.2:1" }) ∷ [];
}

abbrev two_minutes : ℕ
two_minutes = 120 * 10 ^ 9

silent : timed_out two_minutes connected ≡ true
silent = refl

present : get one_agent.agents (codes "a1") ≡ some connected
unfolding get same
present = refl

online-health_check_example :
    (is_agent_online (codes "a1") (health_check two_minutes one_agent)
      ≡ (is_agent_online (codes "a1") one_agent && not (timed_out two_minutes connected)))
    × (timed_out two_minutes connected ≡ true
        → get (health_check two_minutes one_agent).sync_agents (codes "a1") ≡ none)
online-health_check_example =
    online-health_check two_minutes (codes "a1") one_agent connected present

heartbeat-health_check_example :
    (is_agent_online
        (codes "a1")
        (heartbeat (two_minutes + 1) (codes "a1") [] (health_check two_minutes one_agent))
      ≡ true)
    × (get
          (heartbeat
            (two_minutes + 1)
            (codes "a1")
            []
            (health_check two_minutes one_agent)).sync_agents
          (codes "a1")
        ≡ none)
heartbeat-health_check_example =
    heartbeat-health_check two_minutes (two_minutes + 1) (codes "a1") [] one_agent connected present
      silent
