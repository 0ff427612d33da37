-- ===== src/Master/Instances/Created.antt =====
-- apiCreateInstance of internal/master/web/handler_instance.go keeps the tables valid.
use craft_stack.Prelude.{
  ◌<◌, ◌≡◌, refl, [], Text, Bool, true, not, ◌&&◌, Option, none, some, inl, inr, same, Bool-cases,
  arith,
}
use craft_stack.Prelude.Int.{ℤ}
use craft_stack.Prelude.Dict.{Dict}
use craft_stack.Master.Registry.{ConnectedAgent}
use craft_stack.Master.Instances.{Tables, valid_type, minecraft, Network}
use craft_stack.Master.Instances.Store.{create_instance, find_network}
use craft_stack.Master.Instances.Requests.{Caller, AgentAnswers}
use craft_stack.Master.Instances.Create.{
  TableAnswers, api_create_instance, needs_upload, with_files, insert, after_insert, linked,
  store_default_network, ensure_network, network_id,
}
use craft_stack.Master.Instances.Form.{
  CreateForm, ServerFiles, instance_of, port_of, default_port, positive_or, parse_int_safe, type_of,
  matches_name, both_files, as_zip,
}
use craft_stack.Master.Instances.Valid.{
  IsRunnable, IsValid, create_instance-IsValid, create_network-IsValid,
  add_instance_to_network-IsValid,
}
use craft_stack.Master.Instances.Audited.{action-IsValid}

default_port-positive : (type : Text) → 0 < default_port type
default_port-positive type = ground arith

port_of-positive : (text type : Text) → 0 < port_of text type
unfolding port_of
port_of-positive text type = elim (Bool-cases (same text [])) [
  | inl t ↦ rw t (default_port-positive type)
  | inr f ↦ rw f (from (parse_int_safe text))
]
  where
    from : (o : Option ℤ) → 0 < positive_or o (default_port type)
    from none = default_port-positive type
    from (some n) = ground (arith, default_port-positive type)

instance_of-IsRunnable :
    (f : CreateForm) (s : ServerFiles)
    → valid_type (type_of f) ≡ true
    → IsRunnable (instance_of f s)
unfolding instance_of
instance_of-IsRunnable f s v = record {
  type = v;
  port = port_of-positive f.port (type_of f);
  cron = inl refl;
}

store_default_network-IsValid :
    (write : Bool) (agent : Text) (t : Tables)
    → IsValid t
    → IsValid (store_default_network write agent t).1
unfolding store_default_network ensure_network
store_default_network-IsValid write agent t v = go (find_network (network_id agent) t.networks)
  where
    go : (o : Option Network) → IsValid (ensure_network write agent o t).1
    go (some n) = v
    go none = create_network-IsValid write _ t v

module _ (user : Caller) (w : TableAnswers) (ans : AgentAnswers) (agents : Dict ConnectedAgent)
    (f : CreateForm) where
  insert-IsValid :
      (s : ServerFiles) (t : Tables)
      → valid_type (type_of f) ≡ true
      → IsValid t
      → IsValid (insert user w ans agents f s t).1
  unfolding insert after_insert linked
  insert-IsValid s t h v =
      elim (Bool-cases (create_instance w.creates_instance (instance_of f s) t).0) [
        | inr n ↦ rw n v
        | inl e ↦ rw e (
            add_instance_to_network-IsValid w.adds_to_network _ _ (
              store_default_network-IsValid w.creates_network f.agent_id _ (
                action-IsValid (user.records []) user.username _ _ _ _ (
                  create_instance-IsValid w.creates_instance (instance_of f s) t
                    (instance_of-IsRunnable f s h) v))))
      ]

  with_files-IsValid :
      (o : Option ServerFiles) (t : Tables)
      → valid_type (type_of f) ≡ true
      → IsValid t
      → IsValid (with_files user w ans agents f o t).1
  unfolding with_files
  with_files-IsValid none t h v = v
  with_files-IsValid (some s) t h v =
      elim (Bool-cases (same (type_of f) minecraft && not (needs_upload (as_zip s)))) [
        | inl e ↦ rw e v
        | inr n ↦ rw n (insert-IsValid (as_zip s) t h v)
      ]

  pub create-IsValid :
      (t : Tables) → IsValid t → IsValid (api_create_instance user w ans agents f t).1
  unfolding api_create_instance
  create-IsValid t v =
      elim (Bool-cases (
        valid_type (type_of f)
        && not (same f.agent_id [])
        && not (same f.name [])
        && matches_name f.name)) [
          | inr n ↦ rw n v
          | inl e ↦
              rw e
                (with_files-IsValid (both_files f.server_jar f.server_zip) t (ground (arith, e)) v)
        ]
