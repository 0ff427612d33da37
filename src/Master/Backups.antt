-- ===== src/Master/Backups.antt =====
-- The backup scheduler of internal/master/scheduler.go, over the tables `backups` and `instances` of
-- internal/master/store/backup.go and instance.go. The list of rows stands in the order in which
-- `ORDER BY created_at DESC` gives them, a new row first: the clock does not go back, and of rows of the
-- same second, whose order SQLite leaves open, the newer one comes first. Whether a statement succeeds is
-- an argument. Times are in nanoseconds. A maximal count of 0 stands for every one that is not positive:
-- runBackup, the only caller of DeleteOldestBackups, asks for a positive one.
pub mod Retention
pub mod Due
mod Tests
use craft_stack.Prelude.{
  ℕ, zero, suc, ◌+◌, ◌-◌, ◌*◌, ◌^◌, List, [], ◌∷◌, Text, codes, Bool, true, false, not, ◌&&◌,
  Option, none, some, ◌==◌, ltb, leb, same, keep, take, map, length, if◌then◌else◌,
}
use craft_stack.Prelude.Dict.{Dict, get, put}
use craft_stack.Master.Cron.{Time, cron_matches}
use craft_stack.Master.Registry.{Master, get_instance_owner, is_agent_online, get_agent_address}

pub record Backup : Type 0 where
  pub id : ℕ
  pub instance_id : Text
  pub file_path : Text
  pub file_size : ℕ
  pub checksum : Text
  pub trigger_type : Text
  pub status : Text

-- The columns of an instance that the scheduler reads and writes
pub record BackupSettings : Type 0 where
  pub backup_enabled : Bool
  pub backup_cron : Text
  pub backup_max_count : ℕ
  pub backup_last_at : Option ℕ

pub record BackupState : Type 0 where
  pub instances : Dict BackupSettings
  pub backups : List Backup
  pub next_id : ℕ

abbrev pub is_there : Option BackupSettings → Bool
is_there none = false
is_there (some i) = true

-- DB.CreateBackup, by whether the statement succeeds; a backup refers to an instance that is there
unfoldable pub create_backup :
    Bool → Text → Text → ℕ → Text → Text → Text → BackupState → Bool × BackupState
create_backup ok inst path size checksum trigger status st =
    if ok && is_there (get st.instances inst)
    then (
      true,
      record st {
        backups =
            record {
              id = st.next_id;
              instance_id = inst;
              file_path = path;
              file_size = size;
              checksum = checksum;
              trigger_type = trigger;
              status = status;
            }
            ∷ st.backups;
        next_id = st.next_id + 1;
      },
    )
    else (false, st)

abbrev pub of_instance : Text → List Backup → List Backup
of_instance inst = keep (λ b. same b.instance_id inst)

-- DB.ListBackups
unfoldable pub list_backups : Text → ℕ → BackupState → List Backup
list_backups inst limit st = take (if leb limit 0 then 50 else limit) (of_instance inst st.backups)

-- DB.CountBackups
abbrev pub count_backups : Text → BackupState → ℕ
count_backups inst st = length (of_instance inst st.backups)

-- The rows that the deletion leaves: of the instance, the first `n`
unfoldable pub keep_newest : Text → ℕ → List Backup → List Backup
keep_newest inst n [] = []
keep_newest inst zero (b ∷ bs) =
    let rest = keep_newest inst zero bs in if same b.instance_id inst then rest else b ∷ rest
keep_newest inst (suc n) (b ∷ bs) =
    let fewer = keep_newest inst n bs in
    let rest = keep_newest inst (suc n) bs in
    if same b.instance_id inst then b ∷ fewer else b ∷ rest

-- The paths of the rows past the offset
unfoldable pub old_paths : Text → ℕ → List Backup → List Text
old_paths inst n [] = []
old_paths inst zero (b ∷ bs) =
    let rest = old_paths inst zero bs in
    if same b.instance_id inst then b.file_path ∷ rest else rest
old_paths inst (suc n) (b ∷ bs) =
    let fewer = old_paths inst n bs in
    let rest = old_paths inst (suc n) bs in if same b.instance_id inst then fewer else rest

abbrev pub is_empty : List Text → Bool
is_empty [] = true
is_empty (p ∷ ps) = false

-- DB.DeleteOldestBackups, by whether the query and the deletion succeed; `none` is an error
unfoldable pub delete_oldest_backups :
    Bool → Bool → Text → ℕ → BackupState → Option (List Text) × BackupState
delete_oldest_backups queries deletes inst max_count st =
    let paths = old_paths inst max_count st.backups in
    if not queries
    then (none, st)
    else if is_empty paths
    then (some paths, st)
    else if deletes
    then (some paths, record st { backups = keep_newest inst max_count st.backups })
    else (none, st)

set_last_at : Text → ℕ → BackupState → Option BackupSettings → BackupState
set_last_at id now st none = st
set_last_at id now st (some i) = record st {
  instances = put st.instances id (record i { backup_last_at = some now });
}

-- DB.UpdateBackupLastAt, by whether it succeeds
unfoldable pub update_backup_last_at : Bool → Text → ℕ → BackupState → BackupState
unfolding set_last_at
update_backup_last_at ok id now st = if ok then set_last_at id now st (get st.instances id) else st

abbrev pub second : ℕ
second = 10 ^ 9

abbrev pub recent_backup : ℕ → Option ℕ → Bool
recent_backup now none = false
recent_backup now (some last) = ltb (now - last) (90 * second)

-- Whether tick starts a backup of an instance
unfoldable pub is_due : ℕ → Time → BackupSettings → Bool
is_due now t i =
    i.backup_enabled
    && not (same i.backup_cron [])
    && cron_matches i.backup_cron t
    && not (recent_backup now i.backup_last_at)

-- tick: the instances whose backup it starts
unfoldable pub tick : ℕ → Time → Dict BackupSettings → Dict BackupSettings
tick now t = keep (λ e. is_due now t e.1)

-- What the agent answers to BackupInstance
pub data BackupAnswer : Type 0 where
  rpc_failed backup_failed : BackupAnswer
  made : Text → ℕ → Text → BackupAnswer

-- Which statements behind the answer succeed: the insert, the update of the time, and the query and the
-- deletion of the old rows
pub record StoreAnswers : Type 0 where
  pub creates : Bool
  pub touches : Bool
  pub queries : Bool
  pub deletes : Bool

-- runBackup, once the agent has answered at `now`; an error of the database is only logged
unfoldable pub store_backup :
    StoreAnswers → ℕ → Text → BackupSettings → BackupAnswer → BackupState → BackupState
unfolding create_backup update_backup_last_at delete_oldest_backups
store_backup db now id inst rpc_failed st = st
store_backup db now id inst backup_failed st = st
store_backup db now id inst (made path size checksum) st =
    let st' =
      update_backup_last_at db.touches id now
        (create_backup db.creates id path size checksum (codes "scheduled") (codes "completed")
          st).1 in
    if ltb 0 inst.backup_max_count
    then (delete_oldest_backups db.queries db.deletes id inst.backup_max_count st').1
    else st'

backup_at :
    StoreAnswers
    → ℕ
    → Text
    → BackupSettings
    → BackupAnswer
    → BackupState
    → Option Text
    → BackupState
unfolding store_backup
backup_at db now id inst answer st none = st
backup_at db now id inst answer st (some address) = store_backup db now id inst answer st

backup_by :
    StoreAnswers
    → ℕ
    → Text
    → BackupSettings
    → BackupAnswer
    → Master
    → BackupState
    → Option Text
    → BackupState
unfolding backup_at
backup_by db now id inst answer m st none = st
backup_by db now id inst answer m st (some agent) =
    if not (is_agent_online agent m)
    then st
    else backup_at db now id inst answer st (get_agent_address agent m)

-- runBackup
unfoldable pub run_backup :
    StoreAnswers → ℕ → Text → BackupSettings → BackupAnswer → Master → BackupState → BackupState
unfolding backup_by
run_backup db now id inst answer m st =
    backup_by db now id inst answer m st (get_instance_owner id m)
