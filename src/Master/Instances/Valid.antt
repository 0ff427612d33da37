-- ===== src/Master/Instances/Valid.antt =====
-- internal/master/web/handler_instance.go and the tables behind it: what holds of the tables after any
-- requests for instances.
use craft_stack.Prelude.{
  ℕ, ◌<◌, ◌≡◌, refl, ap, ◌∙◌, List, [], ◌∷◌, codes, Text, Bool, true, false, not, ◌&&◌, ◌||◌,
  Option, inl, inr, ◌⊎◌, same, same_iff, any, length, All, Bool-cases, if◌then◌else◌, arith,
}
use craft_stack.Master.Instances.Rows.{
  any-append, All-append, All-imply, All-map, All-keep, any-keep, Distinct, Distinct-append,
  Distinct-keep, any-change_rows, Distinct-change_rows,
}
use craft_stack.Prelude.Dict.{Dict}
use craft_stack.GoText.{fields}
use craft_stack.Master.Registry.{ConnectedAgent}
use craft_stack.Master.Instances.{
  AuditLog, Instance, InstanceNetwork, Network, Tables, valid_type, minecraft,
}
use craft_stack.Master.Instances.Store.{
  has_instance, change_rows, create_instance, update_instance_status, delete_instance, same_link,
  create_network, add_instance_to_network, remove_instance_from_network, or_minecraft, no_pid,
}
use craft_stack.Master.Instances.Requests.{Caller, AgentAnswers}
use craft_stack.Master.Instances.Update.{UpdateRequest, api_update_instance}
use craft_stack.Master.Instances.Rollback.{api_rollback_audit_log}
use craft_stack.Master.Instances.Create.{TableAnswers, api_create_instance}
use craft_stack.Master.Instances.Form.{CreateForm}
use craft_stack.Master.Instances.Control.{api_control_instance, api_delete_instance}

-- A request that writes instances, or the report of a state by a heartbeat, with who makes it and what the environment answers
pub data InstanceRequest : Type 0 where
  create_request :
      Caller → TableAnswers → AgentAnswers → Dict ConnectedAgent → CreateForm → InstanceRequest
  update_request : Caller → Bool → Text → Option UpdateRequest → InstanceRequest
  delete_request :
      Caller → Bool → Bool → AgentAnswers → Dict ConnectedAgent → Text → Bool → InstanceRequest
  control_request :
      Caller → AgentAnswers → Dict Text → Dict ConnectedAgent → Text → Option Text → InstanceRequest
  rollback_request : Caller → Bool → Bool → ℕ → InstanceRequest
  status_report : Bool → Text → Text → Option ℕ → InstanceRequest

-- The tables behind one request
unfoldable pub serve_request : InstanceRequest → Tables → Tables
serve_request (create_request user w ans agents f) t = (api_create_instance user w ans agents f t).1
serve_request (update_request user write id r) t = (api_update_instance user write id r t).1
serve_request (delete_request user unlinks deletes ans agents id remove_data) t =
    (api_delete_instance user unlinks deletes ans agents id remove_data t).1
serve_request (control_request user ans owners agents id action) t =
    (api_control_instance user ans owners agents id action t).1
serve_request (rollback_request user write marks id) t =
    (api_rollback_audit_log user write marks id t).1
serve_request (status_report write id status pid) t =
    (update_instance_status write id status pid t).1

unfoldable pub serve_requests : List InstanceRequest → Tables → Tables
unfolding serve_request
serve_requests [] t = t
serve_requests (r ∷ rs) t = serve_requests rs (serve_request r t)

-- No schedule, or one of five fields
abbrev pub IsCron : Text → Type 0
IsCron c = (c ≡ []) ⊎ (length (fields c) ≡ 5)

-- An entry whose values can come back
abbrev pub IsRestorable : AuditLog → Type 0
IsRestorable e =
    same e.field_name (codes "backup_cron") ≡ true → IsCron e.old_value × IsCron e.new_value

-- A row that can be run and scheduled
pub record IsRunnable (i : Instance) : Type 0 where
  pub type : valid_type i.instance_type ≡ true
  pub port : 0 < i.port
  pub cron : IsCron i.backup_cron

abbrev pub IsLinked : Tables → InstanceNetwork → Type 0
IsLinked t l =
    (any (λ i. same i.id l.instance_id) t.instances ≡ true)
    × (any (λ n. same n.id l.network_id) t.networks ≡ true)

-- Every row can be run, no id stands twice, the links have their instance and their network, and the
-- entries can be rolled back.
pub record IsValid (t : Tables) : Type 0 where
  pub runnable : All IsRunnable t.instances
  pub distinct : Distinct t.instances
  pub linked : All (IsLinked t) t.instance_networks
  pub logged : All IsRestorable t.audit_logs

minecraft_valid : valid_type minecraft ≡ true
unfolding valid_type same
minecraft_valid = refl

or_minecraft-IsRunnable : (i : Instance) → IsRunnable i → IsRunnable (no_pid (or_minecraft i))
or_minecraft-IsRunnable i r = elim (Bool-cases (same i.instance_type [])) [
  | inl t ↦ rw t (record { type = minecraft_valid; port = r.port; cron = r.cron })
  | inr f ↦ rw f (record { type = r.type; port = r.port; cron = r.cron })
]

pub create_instance-IsValid :
    (ok : Bool) (i : Instance) (t : Tables)
    → IsRunnable i
    → IsValid t
    → IsValid (create_instance ok i t).1
unfolding create_instance
create_instance-IsValid ok i t r v =
    elim (Bool-cases (ok && any (λ n. same n i.node_id) t.nodes && not (has_instance i.id t))) [
      | inr f ↦ rw f v
      | inl e ↦ rw e (record {
        runnable =
            All-append IsRunnable t.instances (new_row ∷ []) v.runnable
              (or_minecraft-IsRunnable i r, tt);
        distinct =
            Distinct-append t.instances new_row
              (ap (λ k. any (λ (m : Instance). same m.id k) t.instances) new_id ∙ ground (arith, e))
              v.distinct;
        logged = v.logged;
        linked =
            All-imply (IsLinked t) _ t.instance_networks
              (λ l h. (
                any-append (λ k. same k.id l.instance_id) t.instances (new_row ∷ [])
                    ∙ ground (arith, h.0),
                h.1,
              ))
              v.linked;
      })
    ]
  where
    new_row : Instance
    new_row = no_pid (or_minecraft i)

    new_id : new_row.id ≡ i.id
    new_id = ground arith

pub change_rows-IsValid :
    (id : Text) (f : Instance → Instance) (t : Tables)
    → ((i : Instance) → (f i).id ≡ i.id)
    → ((i : Instance) → IsRunnable i → IsRunnable (f i))
    → IsValid t
    → IsValid (record t { instances = change_rows id f t.instances })
unfolding change_rows
change_rows-IsValid id f t keeps runs v = record {
  runnable =
      All-map IsRunnable IsRunnable (λ i. if same i.id id then f i else i) t.instances
        (λ i r. elim (Bool-cases (same i.id id)) [ inl e ↦ rw e (runs i r) | inr n ↦ rw n r ])
        v.runnable;
  distinct = Distinct-change_rows id f keeps t.instances v.distinct;
  logged = v.logged;
  linked =
      All-imply (IsLinked t) _ t.instance_networks
        (λ l h. (any-change_rows id f keeps l.instance_id t.instances ∙ h.0, h.1)) v.linked;
}

pub delete_instance-IsValid :
    (ok : Bool) (id : Text) (t : Tables) → IsValid t → IsValid (delete_instance ok id t).1
unfolding delete_instance
delete_instance-IsValid false id t v = v
delete_instance-IsValid true id t v = record {
  runnable =
      All-keep IsRunnable IsRunnable (λ i. not (same i.id id)) t.instances (λ i e r. r) v.runnable;
  distinct = Distinct-keep (λ i. not (same i.id id)) t.instances v.distinct;
  logged = v.logged;
  linked =
      All-keep (IsLinked t) _ (λ n. not (same n.instance_id id)) t.instance_networks
        (λ l e h. (
          any-keep (λ i. same i.id l.instance_id) (λ i. not (same i.id id)) t.instances
              (λ i s. ground (arith, e, s, same_iff i.id l.instance_id)) h.0,
          h.1,
        ))
        v.linked;
}

pub remove_instance_from_network-IsValid :
    (ok : Bool) (i n : Text) (t : Tables)
    → IsValid t
    → IsValid (remove_instance_from_network ok i n t).1
unfolding remove_instance_from_network
remove_instance_from_network-IsValid false i n t v = v
remove_instance_from_network-IsValid true i n t v = record {
  runnable = v.runnable;
  distinct = v.distinct;
  logged = v.logged;
  linked = All-keep (IsLinked t) (IsLinked t) _ t.instance_networks (λ l e h. h) v.linked;
}

pub create_network-IsValid :
    (ok : Bool) (n : Network) (t : Tables) → IsValid t → IsValid (create_network ok n t).1
unfolding create_network
create_network-IsValid ok n t v =
    elim (Bool-cases (ok && not (any (λ m. same m.id n.id || same m.name n.name) t.networks))) [
      | inr f ↦ rw f v
      | inl e ↦ rw e (record {
        runnable = v.runnable;
        distinct = v.distinct;
        logged = v.logged;
        linked =
            All-imply (IsLinked t) _ t.instance_networks
              (λ l h. (
                h.0,
                any-append (λ k. same k.id l.network_id) t.networks (n ∷ []) ∙ ground (arith, h.1),
              ))
              v.linked;
      })
    ]

pub add_instance_to_network-IsValid :
    (ok : Bool) (l : InstanceNetwork) (t : Tables)
    → IsValid t
    → IsValid (add_instance_to_network ok l t).1
unfolding add_instance_to_network
add_instance_to_network-IsValid ok l t v =
    elim (Bool-cases
      (ok && has_instance l.instance_id t && any (λ n. same n.id l.network_id) t.networks)) [
        | inr f ↦ rw f v
        | inl e ↦
            elim (Bool-cases (any (same_link l.instance_id l.network_id) t.instance_networks)) [
              | inr n ↦
                  rw (e, n)
                    (record {
                      runnable = v.runnable;
                      distinct = v.distinct;
                      logged = v.logged;
                      linked =
                          All-append (IsLinked t) t.instance_networks (l ∷ []) v.linked
                            ((ground (arith, e), ground (arith, e)), tt);
                    })
              | inl y ↦
                  rw (e, y)
                    (record {
                      runnable = v.runnable;
                      distinct = v.distinct;
                      logged = v.logged;
                      linked =
                          All-map (IsLinked t) (IsLinked t) _ t.instance_networks
                            (λ m h. elim (Bool-cases (same_link l.instance_id l.network_id m)) [
                              | inl z ↦ rw z h
                              | inr z ↦ rw z h
                            ])
                            v.linked;
                    })
            ]
      ]
