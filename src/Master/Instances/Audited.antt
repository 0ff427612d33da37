-- ===== src/Master/Instances/Audited.antt =====
-- internal/master/web/handler_audit.go: the audit log stays one whose entries can be rolled back.
use craft_stack.Prelude.{
  any, take, drop, ◌≡◌, refl, sym, All, codes, List, [], ◌∷◌, Text, Bool, true, false, not, ◌&&◌,
  inl, inr, same, Bool-cases, arith,
}
use mathlib.Core.Path.{subst}
use craft_stack.Master.Instances.{Instance, Tables}
use craft_stack.Master.Instances.Store.{create_audit_log}
use craft_stack.Master.Instances.Rows.{All-append}
use craft_stack.Master.Instances.Requests.{Caller}
use craft_stack.Master.Instances.Update.{audited_fields, audit_changes}
use craft_stack.Master.Instances.Restored.{create_audit_log-IsValid}
use craft_stack.Master.Instances.Asked.{changed_entries, audit_changes-logs}
use craft_stack.Master.Instances.Valid.{IsCron, IsRestorable, IsValid}

-- An entry about an action, and no field
pub action-IsValid :
    (ok : Bool) (user action id name : Text) (t : Tables)
    → IsValid t
    → IsValid
        (create_audit_log ok
          (record {
            username = user;
            action = action;
            target_id = id;
            target_name = name;
            field_name = [];
            old_value = [];
            new_value = [];
            rolled_back = false;
          })
          t).1
unfolding same
action-IsValid ok user action id name t v = create_audit_log-IsValid ok _ t (λ e. absurd (cc e)) v

module _ (user : Caller) (old new : Instance) (o : IsCron old.backup_cron)
    (n : IsCron new.backup_cron) where
  abbrev IsSound : Text × (Instance → Text) → Type 0
  IsSound f = same f.0 (codes "backup_cron") ≡ true → IsCron (f.1 old) × IsCron (f.1 new)

  others-IsSound :
      (fs : List (Text × (Instance → Text)))
      → any (λ f. same f.0 (codes "backup_cron")) fs ≡ false
      → All IsSound fs
  others-IsSound [] h = tt
  others-IsSound (f ∷ fs) h =
      ((λ e. absurd (ground (arith, h, e))), others-IsSound fs (ground (arith, h)))

  -- The schedule is behind 22 other fields.
  audited-IsSound : All IsSound audited_fields
  unfolding same
  audited-IsSound =
      All-append IsSound (take 22 audited_fields) (drop 22 audited_fields)
        (others-IsSound (take 22 audited_fields) refl)
        ((λ e. (o, n)), others-IsSound (drop 23 audited_fields) refl)

  entries-IsRestorable :
      (fs : List (Text × (Instance → Text)))
      → All IsSound fs
      → All IsRestorable (changed_entries user old new fs)
  entries-IsRestorable [] h = tt
  entries-IsRestorable (f ∷ fs) (s, h) =
      elim (Bool-cases (not (same (f.1 old) (f.1 new)) && user.records f.0)) [
        | inl y ↦ rw y (s, entries-IsRestorable fs h)
        | inr m ↦ rw m (entries-IsRestorable fs h)
      ]

  pub audited-IsValid :
      (t : Tables) → IsValid t → IsValid (audit_changes user old new audited_fields t)
  audited-IsValid t v =
      subst IsValid (sym (audit_changes-logs user old new audited_fields t)) (record {
        runnable = v.runnable;
        distinct = v.distinct;
        linked = v.linked;
        logged =
            All-append IsRestorable t.audit_logs _ v.logged
              (entries-IsRestorable audited_fields audited-IsSound);
      })
