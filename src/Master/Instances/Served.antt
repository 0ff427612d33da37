-- ===== src/Master/Instances/Served.antt =====
-- internal/master/web/handler_instance.go: every request keeps the tables valid.
use craft_stack.Prelude.{
  ◌≡◌, refl, sym, List, [], ◌∷◌, Text, Bool, true, false, Option, none, some, inl, inr, ◌⊎◌,
  same_iff, length, Bool-cases, arith,
}
use mathlib.Core.Option
use mathlib.Core.Path.{subst}
use craft_stack.Prelude.Dict.{Dict, get}
use craft_stack.GoText.{fields, trim_space}
use craft_stack.Master.Registry.{ConnectedAgent}
use craft_stack.Master.Instances.{Instance, InstanceNetwork, Tables}
use craft_stack.Master.Instances.Store.{
  get_instance, find_instance, update_instance, with_settings, update_instance_status,
  list_instance_networks,
}
use craft_stack.Master.Instances.Rows.{All-find_instance}
use craft_stack.Master.Instances.Requests.{Caller, InstanceAction, AgentAnswers}
use craft_stack.Master.Instances.Update.{
  UpdateRequest, or_old, with_cron, with_fields, then_max_count, accepts_cron, apply_update,
  api_update_instance, updated, changed, found,
}
use craft_stack.Master.Instances.Create.{agent_address}
use craft_stack.Master.Instances.Control.{
  action_of, api_control_instance, api_delete_instance, with_action, to_owner, forward, answered,
  delete_found, deleted, unlink_all,
}
use craft_stack.Master.Instances.Restored.{rollback-IsValid}
use craft_stack.Master.Instances.Asked.{apply_update-row}
use craft_stack.Master.Instances.Valid.{
  InstanceRequest, create_request, update_request, delete_request, control_request,
  rollback_request, status_report, serve_request, serve_requests, IsRunnable, IsValid,
  change_rows-IsValid, delete_instance-IsValid, remove_instance_from_network-IsValid,
}
use craft_stack.Master.Instances.Audited.{action-IsValid, audited-IsValid}
use craft_stack.Master.Instances.Created.{create-IsValid}

-- A row that was accepted has a schedule of five fields, or none.
five :
    (c : Text) → accepts_cron c ≡ true → (trim_space c ≡ []) ⊎ (length (fields (trim_space c)) ≡ 5)
unfolding accepts_cron
five c h = ground (arith, h, same_iff (trim_space c) [])

apply_update-IsRunnable :
    (r : UpdateRequest) (old new : Instance)
    → apply_update r old ≡ some new
    → IsRunnable old
    → IsRunnable new
unfolding apply_update with_cron
apply_update-IsRunnable r old new e v =
    subst IsRunnable (sym (apply_update-row r old new e))
      (record { type = v.type; port = v.port; cron = scheduled r.backup_cron e })
  where
    scheduled :
        (o : Option Text)
        → then_max_count r.backup_max_count (with_cron o (with_fields r old)) ≡ some new
        → (or_old (Option.map trim_space o) old.backup_cron ≡ [])
          ⊎ (length (fields (or_old (Option.map trim_space o) old.backup_cron)) ≡ 5)
    scheduled none h = v.cron
    scheduled (some c) h = elim (Bool-cases (accepts_cron c)) [
      | inl y ↦ five c y
      | inr n ↦ absurd (cc (rw n at h))
    ]

update-IsValid :
    (user : Caller) (write : Bool) (id : Text) (r : Option UpdateRequest) (t : Tables)
    → IsValid t
    → IsValid (api_update_instance user write id r t).1
unfolding api_update_instance found changed updated update_instance get_instance
update-IsValid user write id r t v = at_row r (find_instance id t.instances) refl
  where
    at_changed :
        (q : UpdateRequest) (old : Instance)
        → IsRunnable old
        → (write : Bool) (o : Option Instance) → apply_update q old ≡ o
        → IsValid (changed user write old o t).1
    at_changed q old s write none e = v
    at_changed q old s false (some new) e = v
    at_changed q old s true (some new) e =
        let n = apply_update-IsRunnable q old new e s in
        audited-IsValid user old new s.cron n.cron _ (
          change_rows-IsValid new.id (with_settings new) t (λ i. refl)
            (λ i _. record { type = n.type; port = n.port; cron = n.cron }) v)

    at_row :
        (r : Option UpdateRequest) (o : Option Instance)
        → find_instance id t.instances ≡ o
        → IsValid (found user write r o t).1
    at_row r none e = v
    at_row none (some old) e = v
    at_row (some q) (some old) e =
        at_changed q old (All-find_instance IsRunnable id t.instances old e v.runnable) write
          (apply_update q old) refl

unlink_all-IsValid :
    (write : Bool) (id : Text) (ls : List InstanceNetwork) (t : Tables)
    → IsValid t
    → IsValid (unlink_all write id ls t)
unfolding unlink_all
unlink_all-IsValid write id [] t v = v
unlink_all-IsValid write id (l ∷ ls) t v =
    unlink_all-IsValid write id ls _
      (remove_instance_from_network-IsValid write id l.network_id t v)

deleted-IsValid :
    (user : Caller) (i : Instance) (out : Bool × Tables)
    → IsValid out.1
    → IsValid (deleted user i out).1
unfolding deleted
deleted-IsValid user i (false, t) v = v
deleted-IsValid user i (true, t) v = action-IsValid (user.records []) user.username _ _ _ t v

delete-IsValid :
    (user : Caller) (unlinks deletes : Bool) (ans : AgentAnswers) (agents : Dict ConnectedAgent)
    (id : Text) (remove_data : Bool) (t : Tables)
    → IsValid t
    → IsValid (api_delete_instance user unlinks deletes ans agents id remove_data t).1
unfolding api_delete_instance delete_found
delete-IsValid user unlinks deletes ans agents id remove_data t v = go (get_instance id t)
  where
    go :
        (o : Option Instance)
        → IsValid (delete_found user unlinks deletes ans agents remove_data o t).1
    go none = v
    go (some i) = deleted-IsValid user i _ (
        delete_instance-IsValid deletes i.id _
          (unlink_all-IsValid unlinks i.id (list_instance_networks i.id t) t v))

control-IsValid :
    (user : Caller) (ans : AgentAnswers) (owners : Dict Text) (agents : Dict ConnectedAgent)
    (id : Text) (action : Option Text) (t : Tables)
    → IsValid t
    → IsValid (api_control_instance user ans owners agents id action t).1
unfolding api_control_instance with_action to_owner forward answered
control-IsValid user ans owners agents id none t v = v
control-IsValid user ans owners agents id (some a) t v = at_action (action_of a)
  where
    at_answer : (o : Option Bool) → IsValid (answered user id a o t).1
    at_answer none = v
    at_answer (some false) = v
    at_answer (some true) = action-IsValid (user.records []) user.username _ _ _ t v

    at_address :
        (b : InstanceAction) (agent : Text) (o : Option Text)
        → IsValid (forward user ans id a b agent o t).1
    at_address b agent none = v
    at_address b agent (some x) = elim (Bool-cases ans.connects) [
      | inl y ↦ rw y (at_answer ans.controls)
      | inr n ↦ rw n v
    ]

    at_owner :
        (b : InstanceAction) (o : Option Text) → IsValid (to_owner user ans id a b agents o t).1
    at_owner b none = v
    at_owner b (some agent) = at_address b agent (agent_address agent agents)

    at_action :
        (o : Option InstanceAction) → IsValid (with_action user ans id a owners agents o t).1
    at_action none = v
    at_action (some b) = at_owner b (get owners id)

serve_request-IsValid : (r : InstanceRequest) (t : Tables) → IsValid t → IsValid (serve_request r t)
unfolding serve_request update_instance_status
serve_request-IsValid (create_request user w ans agents f) t v =
    create-IsValid user w ans agents f t v
serve_request-IsValid (update_request user write id r) t v = update-IsValid user write id r t v
serve_request-IsValid (delete_request user u d ans agents id x) t v =
    delete-IsValid user u d ans agents id x t v
serve_request-IsValid (control_request user ans owners agents id a) t v =
    control-IsValid user ans owners agents id a t v
serve_request-IsValid (rollback_request user write marks id) t v =
    rollback-IsValid user write marks id t v
serve_request-IsValid (status_report true id status pid) t v =
    change_rows-IsValid id (λ i. record i { status = status; pid = pid }) t (λ i. refl)
      (λ i r. record { type = r.type; port = r.port; cron = r.cron }) v
serve_request-IsValid (status_report false id status pid) t v = v

-- From valid tables, after any requests that create, change, delete or control instances or roll a change
-- back, and reports of their states, whatever the database and the agents answer, every instance has one of
-- the six types, a port above zero, and no schedule or one of five fields; no id stands twice; every link
-- between an instance and a network has both; and the two schedules of every entry of the audit log about
-- one are empty or have five fields.
pub serve_requests-IsValid :
    (rs : List InstanceRequest) (t : Tables) → IsValid t → IsValid (serve_requests rs t)
unfolding serve_requests
serve_requests-IsValid [] t v = v
serve_requests-IsValid (r ∷ rs) t v =
    serve_requests-IsValid rs (serve_request r t) (serve_request-IsValid r t v)
