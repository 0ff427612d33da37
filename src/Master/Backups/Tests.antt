-- ===== src/Master/Backups/Tests.antt =====
-- Runs of the backup scheduler.
use craft_stack.Prelude.{
  ℕ, ◌*◌, ◌≡◌, ◌≢◌, refl, List, ◌&&◌, [], ◌∷◌, Text, codes, true, false, none, some, ltb, same,
  take, arith, if◌then◌else◌,
}
use craft_stack.Prelude.Dict.{get}
use craft_stack.Master.Cron.{Time}
use craft_stack.Master.Registry.{ConnectedAgent, Master, online, is_agent_online, get_agent_address}
use craft_stack.Master.Backups.{
  Backup, BackupSettings, BackupState, made, BackupAnswer, StoreAnswers, of_instance,
  delete_oldest_backups, run_backup, is_due, second, old_paths,
}
use craft_stack.Master.Backups.Retention.{
  delete_oldest_backups_lem, with_new, IsCut, run_backup-rows,
}
use craft_stack.Master.Backups.Due.{is_due-run_backup}

abbrev row : ℕ → Text → Backup
row n inst = record {
  id = n;
  instance_id = inst;
  file_path = n ∷ [];
  file_size = 1;
  checksum = [];
  trigger_type = codes "manual";
  status = codes "completed";
}

abbrev each_minute : BackupSettings
each_minute = record {
  backup_enabled = true;
  backup_cron = codes "* * * * *";
  backup_max_count = 2;
  backup_last_at = none;
}

abbrev three : BackupState
three = record {
  instances = (codes "i", each_minute) ∷ [];
  backups = row 4 (codes "i") ∷ row 3 (codes "j") ∷ row 2 (codes "i") ∷ row 1 (codes "i") ∷ [];
  next_id = 5;
}

abbrev agent : ConnectedAgent
agent = record {
  id = codes "a";
  name = codes "alpha";
  address = codes "h:1";
  last_seen = 0;
  status = online;
}

abbrev master : Master
master = record {
  agents = (codes "a", agent) ∷ [];
  instance_owners = (codes "i", codes "a") ∷ [];
  sync_agents = [];
  nodes = [];
  instances = [];
}

two_left : (delete_oldest_backups true true (codes "i") 2 three).0 ≡ some ((1 ∷ []) ∷ [])
unfolding delete_oldest_backups same old_paths
two_left = refl

delete_oldest_backups_lem_example :
    (true ≡ true → true ≡ true → (delete_oldest_backups true true (codes "i") 2 three).0 ≢ none)
    × ((delete_oldest_backups true true (codes "i") 2 three).0 ≡ none
        → (delete_oldest_backups true true (codes "i") 2 three).1 ≡ three)
    × ((paths : List Text)
        → (delete_oldest_backups true true (codes "i") 2 three).0 ≡ some paths
        → IsCut (codes "i") 2 three paths (delete_oldest_backups true true (codes "i") 2 three).1)
delete_oldest_backups_lem_example = delete_oldest_backups_lem true true (codes "i") 2 three

-- The time of the backup cannot be stored.
abbrev database : StoreAnswers
database = record { creates = true; touches = false; queries = true; deletes = true }

abbrev answer : BackupAnswer
answer = made (codes "p") 7 (codes "c")

run_backup-rows_example :
    (of_instance
        (codes "i")
        (run_backup database 9 (codes "i") each_minute answer master three).backups
      ≡ (if ltb 0 each_minute.backup_max_count && (database.queries && database.deletes)
          then take each_minute.backup_max_count
              (with_new database 9 (codes "i") (codes "p") 7 (codes "c") three)
          else with_new database 9 (codes "i") (codes "p") 7 (codes "c") three))
    × ((other : Text)
        → other ≢ codes "i"
        → of_instance other
            (run_backup database 9 (codes "i") each_minute answer master three).backups
          ≡ of_instance other three.backups)
unfolding is_agent_online get_agent_address get same
run_backup-rows_example =
    run_backup-rows database 9 (codes "i") (codes "p") 7 (codes "c") three each_minute master
      (codes "a") (codes "h:1") refl refl refl

abbrev any_minute : Time
any_minute = record { minute = 0; hour = 0; dom = 1; month = 1; dow = 0 }

-- Everything but the insert succeeds.
abbrev no_insert : StoreAnswers
no_insert = record { creates = false; touches = true; queries = true; deletes = true }

is_due-run_backup_example :
    (i : BackupSettings) × (get
        (run_backup no_insert 9 (codes "i") each_minute answer master three).instances
        (codes "i")
      ≡ some i)
    × (is_due (60 * second) any_minute i ≡ false)
unfolding is_agent_online get_agent_address get same
is_due-run_backup_example =
    is_due-run_backup no_insert 9 (60 * second) any_minute (codes "i") (codes "p") 7 (codes "c")
      each_minute each_minute master three (codes "a") (codes "h:1") refl refl refl refl refl
      (omega arith)
