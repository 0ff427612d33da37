-- ===== src/Master/SyncMappings/Tests.antt =====
-- Runs of the mappings of file synchronisation.
use craft_stack.Prelude.{ℕ, ◌≡◌, ◌≢◌, refl, List, [], ◌∷◌, Text, codes, true, false, same, arith}
use craft_stack.GoText.{split, trim_space}
use craft_stack.GoText.Laws.{join}
use craft_stack.Master.SyncMappings.{
  SyncMapping, BulkAnswers, SyncTarget, SyncTables, target_list, exclude_list, parts_of,
  list_sync_targets, bulk_set_sync_targets,
}
use craft_stack.Master.SyncMappings.Lists.{IsName, target_list-join}
use craft_stack.Master.SyncMappings.Targets.{numbered, bulk_set_sync_targets_lem}

abbrev plugins : SyncMapping
plugins = record {
  id = 1;
  name = codes "plugins";
  src = codes "/cache";
  dest = codes ".";
  targets = codes " , ";
  exclude = codes "*.log, *.tmp";
  enabled = true;
  source_agent_id = [];
  source_instance_id = [];
  source_path = [];
}

-- Blanks and commas alone are everyone.
everyone_of_blanks : target_list plugins ≡ codes "*" ∷ []
unfolding target_list split trim_space same parts_of
everyone_of_blanks = refl

two_patterns : exclude_list plugins ≡ codes "*.log" ∷ codes "*.tmp" ∷ []
unfolding exclude_list split trim_space same parts_of
two_patterns = refl

alpha-IsName : IsName (codes "a")
alpha-IsName = record { nonempty = λ e. cc; no_comma = (omega arith, tt); solid = (refl, tt) }

beta-IsName : IsName (codes "b2")
beta-IsName = record {
  nonempty = λ e. cc;
  no_comma = (omega arith, (omega arith, tt));
  solid = (refl, (refl, tt));
}

target_list-join_example :
    (target_list (record plugins { targets = join (codes "a" ∷ codes "b2" ∷ []) b',' })
      ≡ codes "a" ∷ codes "b2" ∷ [])
    × (exclude_list (record plugins { exclude = join (codes "a" ∷ codes "b2" ∷ []) b',' })
        ≡ codes "a" ∷ codes "b2" ∷ [])
target_list-join_example =
    target_list-join plugins (codes "a") (codes "b2" ∷ []) (alpha-IsName, (beta-IsName, tt))

abbrev target : ℕ → Text → SyncTarget
target mapping agent = record {
  id = 0;
  mapping_id = mapping;
  agent_id = agent;
  instance_id = codes "i";
  dest_path = [];
  enabled = true;
}

abbrev tables : SyncTables
tables = record {
  mappings = plugins ∷ [];
  targets =
      record (target 1 (codes "a")) { id = 1 } ∷ record (target 2 (codes "b")) { id = 2 } ∷ [];
  next_mapping = 3;
  next_target = 3;
}

abbrev all_well : BulkAnswers
all_well = record { begins = true; deletes = true; inserts = λ n. true; commits = true }

abbrev new_targets : List SyncTarget
new_targets = target 1 (codes "c") ∷ []

bulk_set_sync_targets_lem_example :
    (all_well.begins ≡ true
      → all_well.deletes ≡ true
      → all_well.commits ≡ true
      → ((n : ℕ) → all_well.inserts n ≡ true)
      → (bulk_set_sync_targets all_well 1 new_targets tables).0 ≡ true)
    × ((bulk_set_sync_targets all_well 1 new_targets tables).0 ≡ false
        → (bulk_set_sync_targets all_well 1 new_targets tables).1 ≡ tables)
    × ((bulk_set_sync_targets all_well 1 new_targets tables).0 ≡ true
        → (list_sync_targets 1 (bulk_set_sync_targets all_well 1 new_targets tables).1
            ≡ numbered 1 3 new_targets)
          × ((other : ℕ)
              → other ≢ 1
              → list_sync_targets other (bulk_set_sync_targets all_well 1 new_targets tables).1
                ≡ list_sync_targets other tables))
bulk_set_sync_targets_lem_example = bulk_set_sync_targets_lem all_well 1 new_targets tables
