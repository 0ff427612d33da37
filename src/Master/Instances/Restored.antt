-- ===== src/Master/Instances/Restored.antt =====
-- internal/master/web/handler_audit.go: a rollback keeps the tables valid.
use craft_stack.Prelude.{
  ℕ, ◌≡◌, refl, List, [], ◌∷◌, Text, codes, Bool, true, false, Option, none, some, same, same_iff,
  same_self, All, Bool-cases, inl, inr, ◌==◌, ◌-◌,
}
use mathlib.Core.Option
use mathlib.Core.Option.{some_inj}
use mathlib.Core.Path.{subst}
use craft_stack.Prelude.Dict.{Dict, get}
use craft_stack.Master.Instances.{Instance, AuditLog, Tables}
use craft_stack.Master.Instances.Store.{
  find_instance, get_instance, update_instance, with_settings, create_audit_log, get_audit_log,
  mark_at, mark_audit_log_rolled_back,
}
use craft_stack.Master.Instances.Rows.{All-append, All-find_instance}
use craft_stack.Master.Instances.Requests.{Caller}
use craft_stack.Master.Instances.Rollback.{
  restorers, restore, after_rollback, write_restored, restore_in, rollback_entry,
  api_rollback_audit_log,
}
use craft_stack.Master.Instances.Valid.{
  IsCron, IsRestorable, IsRunnable, IsValid, change_rows-IsValid,
}

-- The log with one more entry, or without it
pub create_audit_log-IsValid :
    (ok : Bool) (a : AuditLog) (t : Tables)
    → IsRestorable a
    → IsValid t
    → IsValid (create_audit_log ok a t).1
unfolding create_audit_log
create_audit_log-IsValid true a t r v = record {
  runnable = v.runnable;
  distinct = v.distinct;
  linked = v.linked;
  logged = All-append IsRestorable t.audit_logs (a ∷ []) v.logged (r, tt);
}
create_audit_log-IsValid false a t r v = v

get_audit_log-IsRestorable :
    (id : ℕ) (logs : List AuditLog) (e : AuditLog)
    → get_audit_log id logs ≡ some e
    → All IsRestorable logs
    → IsRestorable e
unfolding get_audit_log
get_audit_log-IsRestorable id [] e g h = absurd (cc g)
get_audit_log-IsRestorable id (a ∷ logs) e g (r, h) = elim (Bool-cases (id == 1)) [
  | inl y ↦ subst IsRestorable (some_inj.0 (rw y at g)) r
  | inr n ↦ get_audit_log-IsRestorable (id - 1) logs e (rw n at g) h
]

mark_at-IsRestorable :
    (id : ℕ) (logs : List AuditLog) → All IsRestorable logs → All IsRestorable (mark_at id logs)
unfolding mark_at
mark_at-IsRestorable id [] h = tt
mark_at-IsRestorable id (a ∷ logs) (r, h) = elim (Bool-cases (id == 1)) [
  | inl y ↦ rw y (r, h)
  | inr n ↦ rw n (r, mark_at-IsRestorable (id - 1) logs h)
]

marked-IsValid :
    (ok : Bool) (id : ℕ) (t : Tables) → IsValid t → IsValid (mark_audit_log_rolled_back ok id t)
unfolding mark_audit_log_rolled_back
marked-IsValid true id t v = record {
  runnable = v.runnable;
  distinct = v.distinct;
  linked = v.linked;
  logged = mark_at-IsRestorable id t.audit_logs v.logged;
}
marked-IsValid false id t v = v

infixr 4 ◌&◌
-- A pair, for the proofs about a list
abbrev ◌&◌ {ℓ κ} : {A : Type ℓ} {B : Type κ} → A → B → A × B
a & b = (a, b)

-- The switch sets the schedule for one field only.
abbrev IsSafe : Text × (Text → Instance → Instance) → Type 0
IsSafe f =
    (v : Text) (i : Instance)
    → IsRunnable i
    → (same f.0 (codes "backup_cron") ≡ true → IsCron v)
    → IsRunnable (f.1 v i)

get-IsSafe :
    (fs : Dict (Text → Instance → Instance)) (k : Text) (f : Text → Instance → Instance)
    → get fs k ≡ some f
    → All IsSafe fs
    → IsSafe (k, f)
unfolding get
get-IsSafe [] k f g h = absurd (cc g)
get-IsSafe ((j, e) ∷ fs) k f g (s, h) = elim (Bool-cases (same j k)) [
  | inl y ↦
      subst (λ z. IsSafe (k, z)) (some_inj.0 (rw y at g))
        (subst (λ z. IsSafe (z, e)) ((same_iff j k).0 y) s)
  | inr n ↦ get-IsSafe fs k f (rw n at g) h
]

restorers-IsSafe : All IsSafe restorers
restorers-IsSafe =
    (λ v i r c. record { type = r.type; port = r.port; cron = r.cron })
    & (λ v i r c. record { type = r.type; port = r.port; cron = r.cron })
    & (λ v i r c. record { type = r.type; port = r.port; cron = r.cron })
    & (λ v i r c. record { type = r.type; port = r.port; cron = r.cron })
    & (λ v i r c. record { type = r.type; port = r.port; cron = r.cron })
    & (λ v i r c. record { type = r.type; port = r.port; cron = r.cron })
    & (λ v i r c. record { type = r.type; port = r.port; cron = r.cron })
    & (λ v i r c. record { type = r.type; port = r.port; cron = r.cron })
    & (λ v i r c. record { type = r.type; port = r.port; cron = r.cron })
    & (λ v i r c. record { type = r.type; port = r.port; cron = r.cron })
    & (λ v i r c. record { type = r.type; port = r.port; cron = r.cron })
    & (λ v i r c. record { type = r.type; port = r.port; cron = r.cron })
    & (λ v i r c. record { type = r.type; port = r.port; cron = r.cron })
    & (λ v i r c. record { type = r.type; port = r.port; cron = r.cron })
    & (λ v i r c. record { type = r.type; port = r.port; cron = r.cron })
    & (λ v i r c. record { type = r.type; port = r.port; cron = r.cron })
    & (λ v i r c. record { type = r.type; port = r.port; cron = r.cron })
    & (λ v i r c. record { type = r.type; port = r.port; cron = r.cron })
    & (λ v i r c. record { type = r.type; port = r.port; cron = r.cron })
    & (λ v i r c. record { type = r.type; port = r.port; cron = r.cron })
    & (λ v i r c. record { type = r.type; port = r.port; cron = r.cron })
    & (λ v i r c. record { type = r.type; port = r.port; cron = r.cron })
    & (λ v i r c. record { type = r.type; port = r.port; cron = r.cron })
    & (λ v i r c. record { type = r.type; port = r.port; cron = r.cron })
    & (λ v i r c. record {
      type = r.type;
      port = r.port;
      cron = c (same_self (codes "backup_cron"));
    })
    & (λ v i r c. record { type = r.type; port = r.port; cron = r.cron })
    & tt

restore-IsRunnable :
    (field value : Text) (i new : Instance)
    → restore field value i ≡ some new
    → (same field (codes "backup_cron") ≡ true → IsCron value)
    → IsRunnable i
    → IsRunnable new
unfolding restore
restore-IsRunnable field value i new e c r = go (get restorers field) refl e
  where
    go :
        (o : Option (Text → Instance → Instance))
        → get restorers field ≡ o
        → Option.map (λ set. set value i) o ≡ some new
        → IsRunnable new
    go none g e = absurd (cc e)
    go (some f) g e =
        subst IsRunnable (some_inj.0 e)
          (get-IsSafe restorers field f g restorers-IsSafe value i r c)

pub rollback-IsValid :
    (user : Caller) (write marks : Bool) (id : ℕ) (t : Tables)
    → IsValid t
    → IsValid (api_rollback_audit_log user write marks id t).1
unfolding api_rollback_audit_log rollback_entry restore_in write_restored after_rollback
    update_instance get_instance
rollback-IsValid user write marks id t v = at_entry (get_audit_log id t.audit_logs) refl
  where
    at_row :
        (e : AuditLog)
        → IsRestorable e
        → (write : Bool) (o : Option Instance) → ((new : Instance) → o ≡ some new → IsRunnable new)
        → IsValid (write_restored user write marks id e o t).1
    at_row e s write none r = v
    at_row e s false (some new) r = v
    at_row e s true (some new) r =
        let n = r new refl in
        create_audit_log-IsValid (user.records e.field_name) _ _ (λ c. ((s c).1, (s c).0))
          (marked-IsValid marks id _ (
            change_rows-IsValid new.id (with_settings new) t (λ i. refl)
              (λ i _. record { type = n.type; port = n.port; cron = n.cron }) v))

    at_instance :
        (e : AuditLog)
        → IsRestorable e
        → (o : Option Instance) → find_instance e.target_id t.instances ≡ o
        → IsValid (restore_in user write marks id e o t).1
    at_instance e s none g = v
    at_instance e s (some i) g = at_row e s write (restore e.field_name e.old_value i) (λ new q.
        restore-IsRunnable e.field_name e.old_value i new q (λ c. (s c).0)
          (All-find_instance IsRunnable e.target_id t.instances i g v.runnable))

    at_entry :
        (o : Option AuditLog)
        → get_audit_log id t.audit_logs ≡ o
        → IsValid (rollback_entry user write marks id o t).1
    at_entry none g = v
    at_entry (some e) g = elim (Bool-cases e.rolled_back) [
      | inl y ↦ rw y v
      | inr n ↦ elim (Bool-cases (same e.field_name [])) [
        | inl y ↦ rw (n, y) v
        | inr m ↦
            rw (n, m)
              (at_instance e (get_audit_log-IsRestorable id t.audit_logs e g v.logged)
                (find_instance e.target_id t.instances) refl)
      ]
    ]
