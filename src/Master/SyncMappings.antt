-- ===== src/Master/SyncMappings.antt =====
-- internal/master/store/sync_mapping.go: the mappings of the file synchronisation and their targets.
-- The rows stand in the order of their ids, as a new id is larger than every earlier one. The answer of
-- the database driver to a write is an argument, and a transaction that fails is rolled back. Reads do
-- not fail. The time columns are left out.
pub mod Lists
pub mod Targets
mod Tests
use craft_stack.Prelude.{
  ℕ, ◌+◌, List, [], ◌∷◌, ◌++◌, Text, codes, Bool, true, false, not, ◌&&◌, ◌||◌, Option, none, some,
  ◌==◌, same, keep, map, if◌then◌else◌,
}
use craft_stack.GoText.{split, trim_space}

pub record SyncMapping : Type 0 where
  pub id : ℕ
  pub name : Text
  pub src : Text
  pub dest : Text
  pub targets : Text
  pub exclude : Text
  pub enabled : Bool
  pub source_agent_id : Text
  pub source_instance_id : Text
  pub source_path : Text

pub record SyncTarget : Type 0 where
  pub id : ℕ
  pub mapping_id : ℕ
  pub agent_id : Text
  pub instance_id : Text
  pub dest_path : Text
  pub enabled : Bool

pub record SyncTables : Type 0 where
  pub mappings : List SyncMapping
  pub targets : List SyncTarget
  pub next_mapping : ℕ
  pub next_target : ℕ

-- IsAgentSource
unfoldable pub is_agent_source : SyncMapping → Bool
is_agent_source m = not (same m.source_agent_id []) && not (same m.source_instance_id [])

-- The loop of TargetList and ExcludeList over the parts
unfoldable pub parts_of : List Text → List Text
parts_of [] = []
parts_of (p ∷ ps) =
    let rest = parts_of ps in if same (trim_space p) [] then rest else trim_space p ∷ rest

abbrev everyone : List Text
everyone = codes "*" ∷ []

or_everyone : List Text → List Text
or_everyone [] = everyone
or_everyone (t ∷ ts) = t ∷ ts

-- TargetList
unfoldable pub target_list : SyncMapping → List Text
unfolding or_everyone
target_list m =
    if same m.targets [] || same m.targets (codes "*")
    then everyone
    else or_everyone (parts_of (split m.targets b','))

-- ExcludeList
unfoldable pub exclude_list : SyncMapping → List Text
exclude_list m = if same m.exclude [] then [] else parts_of (split m.exclude b',')

-- DB.CreateSyncMapping, with the id that it gives
unfoldable pub create_sync_mapping : Bool → SyncMapping → SyncTables → Option ℕ × SyncTables
create_sync_mapping ok m t =
    if ok
    then (
      some t.next_mapping,
      record t {
        mappings = t.mappings ++ record m { id = t.next_mapping } ∷ [];
        next_mapping = t.next_mapping + 1;
      },
    )
    else (none, t)

-- DB.DeleteSyncMapping, and its targets (ON DELETE CASCADE)
unfoldable pub delete_sync_mapping : Bool → ℕ → SyncTables → Bool × SyncTables
delete_sync_mapping ok id t =
    if ok
    then (
      true,
      record t {
        mappings = keep (λ m. not (m.id == id)) t.mappings;
        targets = keep (λ s. not (s.mapping_id == id)) t.targets;
      },
    )
    else (false, t)

-- DB.UpdateSyncMapping
unfoldable pub update_sync_mapping : Bool → SyncMapping → SyncTables → Bool × SyncTables
update_sync_mapping ok m t =
    if ok
    then (true, record t { mappings = map (λ n. if n.id == m.id then m else n) t.mappings })
    else (false, t)

-- DB.ListEnabledSyncMappings
unfoldable pub list_enabled_sync_mappings : SyncTables → List SyncMapping
list_enabled_sync_mappings t = keep (λ m. m.enabled) t.mappings

-- DB.CreateSyncTarget
unfoldable pub create_sync_target : Bool → SyncTarget → SyncTables → Option ℕ × SyncTables
create_sync_target ok s t =
    if ok
    then (
      some t.next_target,
      record t {
        targets = t.targets ++ record s { id = t.next_target } ∷ [];
        next_target = t.next_target + 1;
      },
    )
    else (none, t)

-- DB.UpdateSyncTarget
unfoldable pub update_sync_target : Bool → SyncTarget → SyncTables → Bool × SyncTables
update_sync_target ok s t =
    if ok
    then (
      true,
      record t {
        targets =
            map
              (λ r.
                if r.id == s.id
                then record r { dest_path = s.dest_path; enabled = s.enabled }
                else r)
              t.targets;
      },
    )
    else (false, t)

-- DB.DeleteSyncTarget
unfoldable pub delete_sync_target : Bool → ℕ → SyncTables → Bool × SyncTables
delete_sync_target ok id t =
    if ok then (true, record t { targets = keep (λ s. not (s.id == id)) t.targets }) else (false, t)

-- DB.ListSyncTargets
unfoldable pub list_sync_targets : ℕ → SyncTables → List SyncTarget
list_sync_targets mapping t = keep (λ s. s.mapping_id == mapping) t.targets

-- DB.ListEnabledSyncTargets
unfoldable pub list_enabled_sync_targets : ℕ → SyncTables → List SyncTarget
list_enabled_sync_targets mapping t = keep (λ s. s.mapping_id == mapping && s.enabled) t.targets

-- A target as BulkSetSyncTargets inserts it
unfoldable pub placed : ℕ → ℕ → SyncTarget → SyncTarget
placed mapping id s = record s {
  id = id;
  mapping_id = mapping;
  dest_path = if same s.dest_path [] then codes "." else s.dest_path;
}

-- The answers of the database to BulkSetSyncTargets; an insert by the id that it would give
pub record BulkAnswers : Type 0 where
  pub begins : Bool
  pub deletes : Bool
  pub inserts : ℕ → Bool
  pub commits : Bool

unfoldable pub insert_all : (ℕ → Bool) → ℕ → List SyncTarget → SyncTables → Option SyncTables
unfolding placed
insert_all inserts mapping [] t = some t
insert_all inserts mapping (s ∷ ss) t =
    let rest = insert_all inserts mapping ss (record t {
      targets = t.targets ++ placed mapping t.next_target s ∷ [];
      next_target = t.next_target + 1;
    }) in
    if inserts t.next_target then rest else none

-- The commit, or the deferred rollback to the tables `t`
unfoldable pub committed : Bool → SyncTables → Option SyncTables → Bool × SyncTables
committed commits t none = (false, t)
committed commits t (some t') = if commits then (true, t') else (false, t)

-- DB.BulkSetSyncTargets
unfoldable pub bulk_set_sync_targets :
    BulkAnswers → ℕ → List SyncTarget → SyncTables → Bool × SyncTables
unfolding insert_all committed
bulk_set_sync_targets ans mapping ss t =
    if ans.begins && ans.deletes
    then committed ans.commits t (
        insert_all ans.inserts mapping ss
          (record t { targets = keep (λ s. not (s.mapping_id == mapping)) t.targets }))
    else (false, t)
