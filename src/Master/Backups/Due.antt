-- ===== src/Master/Backups/Due.antt =====
-- When the scheduler starts a backup.
use craft_stack.Prelude.{
  ℕ, ◌-◌, ◌*◌, ◌<◌, ◌≡◌, ap, ◌∙◌, Bool, Text, codes, true, false, some, arith,
}
use craft_stack.Prelude.Dict.{get, get-put_self}
use craft_stack.Master.Cron.{Time}
use craft_stack.Master.Registry.{Master, get_instance_owner, is_agent_online, get_agent_address}
use craft_stack.Master.Backups.{
  StoreAnswers, BackupSettings, BackupState, made, create_backup, update_backup_last_at,
  set_last_at, delete_oldest_backups, store_backup, run_backup, is_due, second,
}

instances-delete :
    (queries deletes : Bool) (inst : Text) (n : ℕ) (st : BackupState)
    → (delete_oldest_backups queries deletes inst n st).1.instances ≡ st.instances
unfolding delete_oldest_backups
instances-delete queries deletes inst n st = ground arith

instances-create :
    (ok : Bool) (id path : Text) (size : ℕ) (checksum trigger status : Text) (st : BackupState)
    → (create_backup ok id path size checksum trigger status st).1.instances ≡ st.instances
unfolding create_backup
instances-create ok id path size checksum trigger status st = ground arith

touched :
    (id : Text) (now : ℕ) (row : BackupSettings) (st : BackupState)
    → get st.instances id ≡ some row
    → get (update_backup_last_at true id now st).instances id
      ≡ some (record row { backup_last_at = some now })
unfolding update_backup_last_at
touched id now row st g =
    rw (g, set_last_at) (get-put_self st.instances id (record row { backup_last_at = some now }))

settings_after :
    (db : StoreAnswers) (now : ℕ) (id path : Text) (size : ℕ) (checksum : Text)
    (inst row : BackupSettings) (st : BackupState)
    → db.touches ≡ true
    → get st.instances id ≡ some row
    → get (store_backup db now id inst (made path size checksum) st).instances id
      ≡ some (record row { backup_last_at = some now })
unfolding store_backup
settings_after db now id path size checksum inst row st w g =
    let created : BackupState =
      (create_backup db.creates id path size checksum (codes "scheduled") (codes "completed")
        st).1 in
    let stays : get created.instances id ≡ some row =
      ap (λ is. get is id)
        (instances-create db.creates id path size checksum (codes "scheduled") (codes "completed")
          st)
      ∙ g in
    ground (
      arith,
      w,
      touched id now row created stays,
      instances-delete db.queries db.deletes id inst.backup_max_count
          (update_backup_last_at db.touches id now created),
    )

not_due :
    (now later : ℕ) (t : Time) (row : BackupSettings)
    → later - now < 90 * second
    → is_due later t (record row { backup_last_at = some now }) ≡ false
unfolding is_due
not_due now later t row h = ground arith

-- For 90 seconds after a scheduled backup that succeeded and whose time could be stored, tick does not
-- start another one of the instance, whatever its cron expression and the other answers of the database:
-- one for every minute is not met at every minute.
pub is_due-run_backup :
    (db : StoreAnswers) (now later : ℕ) (t : Time) (id path : Text) (size : ℕ) (checksum : Text)
    (inst row : BackupSettings) (m : Master) (st : BackupState) (agent address : Text)
    → db.touches ≡ true
    → get st.instances id ≡ some row
    → get_instance_owner id m ≡ some agent
    → is_agent_online agent m ≡ true
    → get_agent_address agent m ≡ some address
    → later - now < 90 * second
    → (i : BackupSettings) × (get
          (run_backup db now id inst (made path size checksum) m st).instances
          id
        ≡ some i)
      × (is_due later t i ≡ false)
unfolding run_backup
is_due-run_backup db now later t id path size checksum inst row m st agent address w g o on at h = (
  record row { backup_last_at = some now },
  rw (o, on, at) (settings_after db now id path size checksum inst row st w g),
  not_due now later t row h,
)
