-- ===== src/Master/Registry/Registered.antt =====
-- What RegisterAgent leaves in the maps and in the tables.
use craft_stack.Prelude.{
  ℕ, ◌≡◌, ◌≢◌, refl, ap, ◌∙◌, List, [], ◌∷◌, Text, Bool, true, false, not, ◌&&◌, Option, none, some,
  same, same_iff, same_self, any, arith, if◌then◌else◌,
}
use craft_stack.Prelude.Dict.{Dict, get, get-put, get-put_self, get-remove}
use craft_stack.Master.Registry.{
  Node, Master, online, Registration, register_agent, merge_node, delete_stale, clean_stale,
  RegisterAnswers, upsert_node, delete_node, is_agent_online, get_agent_address, bare_node,
}

-- The key is that of another node with this name, which can be deleted.
abbrev is_stale : (Text → Bool) → Text → Text → Text → Dict Node → Bool
is_stale deletes id name k =
    any (λ e. same e.0 k && (same e.1.name name && not (same e.0 id) && deletes e.0))

module _ (deletes : Text → Bool) where
  nodes-delete_stale :
      (id name k : Text) (ns : Dict Node) (m : Master)
      → get (delete_stale deletes id name ns m).nodes k
        ≡ (if is_stale deletes id name k ns then none else get m.nodes k)
  unfolding delete_stale delete_node
  nodes-delete_stale id name k [] m = refl
  nodes-delete_stale id name k ((j, n) ∷ ns) m =
      nodes-delete_stale id name k ns
        (if same n.name name && not (same j id) && deletes j then delete_node j m else m)
      ∙ ground (arith, get-remove m.nodes j k)

  not_stale_self : (id name : Text) (ns : Dict Node) → is_stale deletes id name id ns ≡ false
  not_stale_self id name [] = refl
  not_stale_self id name ((j, n) ∷ ns) = ground (arith, not_stale_self id name ns)

  get-is_stale :
      (id name k : Text) (ns : Dict Node) (n : Node)
      → get ns k ≡ some n
      → n.name ≡ name
      → deletes k ≡ true
      → k ≢ id
      → is_stale deletes id name k ns ≡ true
  unfolding get
  get-is_stale id name k [] n e p t d = cc
  get-is_stale id name k ((j, o) ∷ ns) n e p t d =
      ground (arith, get-is_stale id name k ns n, same_iff j k, same_iff o.name name, same_iff j id)

  agents-delete_stale :
      (id name : Text) (ns : Dict Node) (m : Master)
      → (delete_stale deletes id name ns m).agents ≡ m.agents
  unfolding delete_stale delete_node
  agents-delete_stale id name [] m = refl
  agents-delete_stale id name ((j, n) ∷ ns) m =
      agents-delete_stale id name ns
        (if same n.name name && not (same j id) && deletes j then delete_node j m else m)
      ∙ ground arith

abbrev wireguard_of : Option Node → List Text
wireguard_of none = []
wireguard_of (some n) = n.wireguard

get-upsert_node :
    (ok : Bool) (id k : Text) (n : Node) (ns : Dict Node)
    → k ≢ id
    → get (upsert_node ok id n ns) k ≡ get ns k
unfolding upsert_node
get-upsert_node true id k n ns d =
    ground (arith, get-put ns id k (merge_node n (get ns id)), same_iff id k)
get-upsert_node false id k n ns d = refl

-- A row that is written twice, the first time perhaps in vain, keeps the WireGuard columns it had.
upserted :
    (ok : Bool) (id : Text) (bare n : Node) (ns : Dict Node)
    → bare.wireguard ≡ []
    → n.wireguard ≡ []
    → get (upsert_node true id n (upsert_node ok id bare ns)) id
      ≡ some (record n { wireguard = wireguard_of (get ns id) })
unfolding upsert_node merge_node
upserted true id bare n ns b w =
    rw (get-put_self, get-put_self) (ap some (merged_twice (get ns id)))
  where
    merged_twice :
        (o : Option Node)
        → merge_node n (some (merge_node bare o)) ≡ record n { wireguard = wireguard_of o }
    merged_twice none = rw (b) refl
    merged_twice (some p) = refl
upserted false id bare n ns b w = rw get-put_self (ap some (merged (get ns id)))
  where
    merged : (o : Option Node) → merge_node n o ≡ record n { wireguard = wireguard_of o }
    merged none = ground (arith, w)
    merged (some p) = refl

module _ (ans : RegisterAnswers) (now : ℕ) (r : Registration) (m : Master) where
  abbrev cleaned : Master
  cleaned = clean_stale ans r.agent_id r.name m

  abbrev pub new_node : Node
  new_node = record {
    name = r.name;
    address = r.address;
    status = online;
    cpu_cores = r.cpu_cores;
    memory_mb = r.memory_mb;
    os_info = r.os_info;
    wireguard = wireguard_of (get m.nodes r.agent_id);
  }

  abbrev reported : Node
  reported = record new_node { wireguard = [] }

  kept_row : get cleaned.nodes r.agent_id ≡ get m.nodes r.agent_id
  unfolding clean_stale
  kept_row = ground (
    arith,
    nodes-delete_stale ans.deletes r.agent_id r.name r.agent_id m.nodes m,
    not_stale_self ans.deletes r.agent_id r.name m.nodes,
  )

  stored : ans.upserts ≡ true → get (register_agent ans now r m).nodes r.agent_id ≡ some new_node
  unfolding register_agent
  stored e = rw e (
      upserted ans.connects r.agent_id (bare_node r.name r.address) reported cleaned.nodes refl refl
      ∙ rw kept_row refl)

  others :
      (k : Text) → k ≢ r.agent_id → get (register_agent ans now r m).nodes k ≡ get cleaned.nodes k
  unfolding register_agent
  others k d =
      get-upsert_node ans.upserts r.agent_id k reported _ d
      ∙ get-upsert_node ans.connects r.agent_id k (bare_node r.name r.address) cleaned.nodes d

  gone :
      (k : Text) (n : Node)
      → ans.lists ≡ true
      → ans.deletes k ≡ true
      → k ≢ r.agent_id
      → get m.nodes k ≡ some n
      → n.name ≡ r.name
      → get (register_agent ans now r m).nodes k ≡ none
  unfolding clean_stale
  gone k n l t d e p =
      others k d
      ∙ rw l (
          nodes-delete_stale ans.deletes r.agent_id r.name k m.nodes m
          ∙ rw (get-is_stale ans.deletes r.agent_id r.name k m.nodes n e p t d) refl)

  -- After RegisterAgent the agent is online, its address is the registered one, and it is a target of
  -- synchronisation, whatever the database answers. Where the last write of its row succeeds, the row
  -- has the reported values and keeps the WireGuard columns it had; and where the nodes can be listed, a
  -- row of another id with the same name that can be deleted is gone.
  pub register_agent_lem :
      (is_agent_online r.agent_id (register_agent ans now r m) ≡ true)
      × (get_agent_address r.agent_id (register_agent ans now r m) ≡ some r.address)
      × (get (register_agent ans now r m).sync_agents r.agent_id
          ≡ some (record { name = r.name; address = r.address }))
      × (ans.upserts ≡ true → get (register_agent ans now r m).nodes r.agent_id ≡ some new_node)
      × ((k : Text) (n : Node)
          → ans.lists ≡ true
          → ans.deletes k ≡ true
          → k ≢ r.agent_id
          → get m.nodes k ≡ some n
          → n.name ≡ r.name
          → get (register_agent ans now r m).nodes k ≡ none)
  unfolding is_agent_online get_agent_address
  register_agent_lem = (
    unfold register_agent in rw get-put_self (same_self online),
    unfold register_agent in rw get-put_self refl,
    unfold register_agent in get-put_self cleaned.sync_agents r.agent_id _,
    stored,
    gone,
  )
