-- ===== src/Master/Instances/Kept.antt =====
-- internal/master/web/handler_instance.go: what an update of an instance changes, and what it records.
use craft_stack.Prelude.{
  ◌≡◌, ◌≢◌, refl, sym, ap, ◌∙◌, ◌++◌, Text, Bool, true, false, Option, none, some, inl, inr, ◌⊎◌,
  same, if◌then◌else◌,
}
use mathlib.Core.Path.{subst}
use craft_stack.Master.Instances.{Instance, Tables}
use craft_stack.Master.Instances.Store.{
  find_instance, get_instance, change_rows, with_settings, update_instance,
}
use craft_stack.Master.Instances.Requests.{Caller, HttpReply, ok}
use craft_stack.Master.Instances.Update.{
  UpdateRequest, apply_update, audited_fields, updated, changed, found, api_update_instance,
}
use craft_stack.Master.Instances.Asked.{
  IsAsked, IsFrozen, apply_update-row, asked_row, asked_row-IsAsked, asked_row-IsFrozen,
  audit_changes-logs, changed_entries, find_instance-id, find_instance-updated,
}

-- A request that was carried out: the row before and after, the answer, every row `j`, and the log
pub record IsDone (user : Caller) (id : Text) (r : Option UpdateRequest) (j : Text) (t : Tables)
    (out : HttpReply × Tables) : Type 0 where
  pub request : UpdateRequest
  pub old : Instance
  pub new : Instance
  pub body : r ≡ some request
  pub before : get_instance id t ≡ some old
  pub reply : out.0 ≡ ok
  pub frozen : IsFrozen old new
  pub asked : IsAsked request old new
  pub rows : get_instance j out.1 ≡ (if same id j then some new else get_instance j t)
  pub logs : out.1.audit_logs ≡ t.audit_logs ++ changed_entries user old new audited_fields

abbrev IsRefused : Tables → HttpReply × Tables → Type 0
IsRefused t out = (out.0 ≢ ok) × (out.1 ≡ t)

written :
    (user : Caller) (r : UpdateRequest) (old : Instance) (j : Text) (t : Tables)
    → find_instance old.id t.instances ≡ some old
    → IsDone user old.id (some r) j t (
        updated user old (asked_row r old) (
          true,
          record t { instances = change_rows old.id (with_settings (asked_row r old)) t.instances },
        ))
unfolding updated get_instance
written user r old j t g =
    let log =
      audit_changes-logs user old (asked_row r old) audited_fields (record t {
        instances = change_rows old.id (with_settings (asked_row r old)) t.instances;
      }) in
    record {
      request = r;
      old = old;
      new = asked_row r old;
      body = refl;
      before = g;
      reply = refl;
      frozen = asked_row-IsFrozen r old;
      asked = asked_row-IsAsked r old;
      rows =
          ap (λ (u : Tables). find_instance j u.instances) log
          ∙ find_instance-updated r old t.instances j g;
      logs = ap (λ (u : Tables). u.audit_logs) log;
    }

changed-done :
    (user : Caller) (write : Bool) (r : UpdateRequest) (old : Instance) (j : Text) (t : Tables)
    → find_instance old.id t.instances ≡ some old
    → (o : Option Instance) → ((new : Instance) → o ≡ some new → new ≡ asked_row r old)
    → IsRefused t (changed user write old o t)
      ⊎ IsDone user old.id (some r) j t (changed user write old o t)
unfolding changed update_instance updated
changed-done user write r old j t g none row = inl (λ e. cc e, refl)
changed-done user false r old j t g (some new) row = inl (λ e. cc e, refl)
changed-done user true r old j t g (some new) row =
    subst
      (λ k.
        IsRefused t (changed user true old (some k) t)
        ⊎ IsDone user old.id (some r) j t (changed user true old (some k) t))
      (sym (row new refl)) (inr (written user r old j t g))

-- A request to update an instance is refused, and then nothing changes, or it is carried out on the
-- instance, and then every field that it names has the value that it gives (a cron expression is trimmed),
-- every other field, the port among them, and every other row stay, and the audit log gains exactly one
-- entry for each of the audited fields whose value differs, in their order, but for the entries that the
-- database refuses.
pub api_update_instance-changes :
    (user : Caller) (write : Bool) (id : Text) (r : Option UpdateRequest) (t : Tables) (j : Text)
    → ((api_update_instance user write id r t).0 ≢ ok)
        × ((api_update_instance user write id r t).1 ≡ t)
      ⊎ IsDone user id r j t (api_update_instance user write id r t)
unfolding api_update_instance found get_instance
api_update_instance-changes user write id r t j = go r (get_instance id t) refl
  where
    go :
        (r : Option UpdateRequest) (o : Option Instance)
        → get_instance id t ≡ o
        → IsRefused t (found user write r o t) ⊎ IsDone user id r j t (found user write r o t)
    go r none g = inl (λ e. cc e, refl)
    go none (some old) g = inl (λ e. cc e, refl)
    go (some q) (some old) g =
        let own : old.id ≡ id = find_instance-id id t.instances old g in
        subst
          (λ k.
            IsRefused t (changed user write old (apply_update q old) t)
            ⊎ IsDone user k (some q) j t (changed user write old (apply_update q old) t))
          own
          (changed-done user write q old j t
            (subst (λ k. find_instance k t.instances ≡ some old) (sym own) g) (apply_update q old)
            (λ new. apply_update-row q old new))
