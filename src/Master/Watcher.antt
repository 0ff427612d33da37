-- ===== src/Master/Watcher.antt =====
-- internal/master/watcher/watcher.go: the watched directories, and the debouncing of their events.
-- The goroutines that a timer starts are part of the state: a timer that has gone off waits for the
-- mutex in `started`, and then for room in the channel in `blocked`. What the disk and fsnotify answer
-- is an argument. Time stamps and the log are left out.
pub mod Runs
pub mod Live
pub mod Reached
pub mod Settled
mod Tests
use craft_stack.Prelude.{
  ℕ, zero, suc, ◌+◌, List, [], ◌∷◌, ◌++◌, Text, codes, Bool, true, false, not, ◌&&◌, ◌||◌, ◌==◌,
  Option, none, some, same, any, keep, take, length, if◌then◌else◌,
}
use craft_stack.Prelude.Dict.{Dict, get, put, remove}
use craft_stack.GoPath.{abs, rel, base}
use craft_stack.GoPath.Glob.{match_path}

pub data EventType : Type 0 where
  event_create event_update event_delete : EventType

pub record FileEvent : Type 0 where
  pub path : Text
  pub rel_path : Text
  pub event_type : EventType
  pub mapping_name : Text
  pub dest : Text
  pub targets : List Text

-- common.SyncMapping
pub record MappingConfig : Type 0 where
  pub name : Text
  pub src : Text
  pub dest : Text
  pub targets : List Text
  pub exclude : List Text

-- A time.AfterFunc that emits a path
pub record Timer : Type 0 where
  pub id : ℕ
  pub path : Text

pub record PendingEvent : Type 0 where
  pub event : FileEvent
  pub timer : Timer

-- The fields of Watcher, then its timers, the goroutines of `emit`, and what the channel carried:
-- `taken` has every event that the reader of Events has received.
pub record Watcher : Type 0 where
  pub mappings : List MappingConfig
  pub src_map : Dict ℕ
  pub watched : List Text
  pub pending : Dict PendingEvent
  pub next_timer : ℕ
  pub armed : List Timer
  pub started : List Text
  pub blocked : List FileEvent
  pub event_ch : List FileEvent
  pub taken : List FileEvent

-- fsnotify.Event: the bits of its Op
pub record FsEvent : Type 0 where
  pub name : Text
  pub create : Bool
  pub write : Bool
  pub remove : Bool
  pub rename : Bool

abbrev pub channel_size : ℕ
channel_size = 100

-- New
abbrev pub new : Watcher
new = record {
  mappings = [];
  src_map = [];
  watched = [];
  pending = [];
  next_timer = 0;
  armed = [];
  started = [];
  blocked = [];
  event_ch = [];
  taken = [];
}

-- What LoadMappings meets on the disk: whether a directory can be made, the directories in it with
-- itself first, as filepath.Walk visits them, and whether fsnotify takes a path
pub record Disk : Type 0 where
  pub make_dir : Text → Bool
  pub directories : Text → List Text
  pub can_watch : Text → Bool

-- The walk stops at the first path that cannot be watched.
unfoldable pub watch_all : (Text → Bool) → List Text → List Text → List Text
watch_all can [] watched = watched
watch_all can (d ∷ ds) watched =
    let rest = watch_all can ds (watched ++ d ∷ []) in if can d then rest else watched

-- The loop of LoadMappings, from the i-th mapping on
unfoldable pub load_from : Text → Disk → ℕ → List MappingConfig → Watcher → Watcher
unfolding watch_all
load_from cwd disk i [] w = w
load_from cwd disk i (m ∷ ms) w = load_from cwd disk (suc i) ms (record w {
  src_map = put w.src_map (abs cwd m.src) i;
  watched =
      if disk.make_dir (abs cwd m.src)
      then watch_all disk.can_watch (disk.directories (abs cwd m.src)) w.watched
      else w.watched;
})

-- LoadMappings
unfoldable pub load_mappings : Text → Disk → List MappingConfig → Watcher → Watcher
unfolding load_from
load_mappings cwd disk ms w =
    load_from cwd disk 0 ms (record w { mappings = ms; src_map = []; watched = [] })

-- resolveMapping: the index of the first source directory that a path is in, and the rest of the path
unfoldable pub resolve_mapping : Dict ℕ → Text → Option (ℕ × Text)
resolve_mapping [] path = none
resolve_mapping ((dir, i) ∷ m) path =
    let rest = resolve_mapping m path in
    if same (take 2 (rel dir path)) (codes "..") then rest else some (i, rel dir path)

-- w.mappings[i]; out of range is a panic
unfoldable pub mapping_at : List MappingConfig → ℕ → Option MappingConfig
mapping_at [] i = none
mapping_at (m ∷ ms) zero = some m
mapping_at (m ∷ ms) (suc i) = mapping_at ms i

-- The loop over the patterns of a mapping
unfoldable pub is_excluded : List Text → Text → Bool
is_excluded patterns path = any (λ p. match_path p path || match_path p (base path)) patterns

-- The switch of handleEvent
unfoldable pub event_type_of : FsEvent → Option EventType
event_type_of e =
    if e.create
    then some event_create
    else if e.write
    then some event_update
    else if e.remove
    then some event_delete
    else if e.rename
    then some event_delete
    else none

-- timer.Stop, which does nothing to a timer that has gone off
unfoldable pub stop_timer : Timer → List Timer → List Timer
stop_timer t ts = keep (λ u. not (t.id == u.id && same t.path u.path)) ts

abbrev pub stop_pending : Option PendingEvent → List Timer → List Timer
stop_pending none ts = ts
stop_pending (some pe) ts = stop_timer pe.timer ts

-- os.Stat of the path of an event: no directory, or one that fsnotify takes or refuses
pub data Found : Type 0 where
  no_directory : Found
  directory : Bool → Found

-- The last part of handleEvent: the event of a path replaces an earlier one, and its timer as well.
unfoldable pub debounce : FileEvent → Watcher → Watcher
unfolding stop_timer
debounce e w = record w {
  pending =
      put w.pending e.path
        (record { event = e; timer = record { id = w.next_timer; path = e.path } });
  armed =
      stop_pending (get w.pending e.path) w.armed
      ++ record { id = w.next_timer; path = e.path } ∷ [];
  next_timer = w.next_timer + 1;
}

abbrev pub file_event : MappingConfig → Text → FsEvent → EventType → FileEvent
file_event m rest e t = record {
  path = e.name;
  rel_path = rest;
  event_type = t;
  mapping_name = m.name;
  dest = m.dest;
  targets = m.targets;
}

on_create : FileEvent → Found → Watcher → Watcher
unfolding debounce
on_create e no_directory w = debounce e w
on_create e (directory can) w = if can then record w { watched = w.watched ++ e.path ∷ [] } else w

on_type : MappingConfig → Text → FsEvent → Found → Option EventType → Watcher → Watcher
unfolding debounce on_create
on_type m rest e found none w = w
on_type m rest e found (some event_create) w = on_create (file_event m rest e event_create) found w
on_type m rest e found (some t) w = debounce (file_event m rest e t) w

in_mapping : Text → FsEvent → Found → Option MappingConfig → Watcher → Option Watcher
unfolding on_type
in_mapping rest e found none w = none
in_mapping rest e found (some m) w =
    some (if is_excluded m.exclude rest then w else on_type m rest e found (event_type_of e) w)

in_source : FsEvent → Found → Option (ℕ × Text) → Watcher → Option Watcher
unfolding in_mapping
in_source e found none w = some w
in_source e found (some (i, rest)) w = in_mapping rest e found (mapping_at w.mappings i) w

-- handleEvent, given what its path is now; `none` is a panic
unfoldable pub handle_event : Text → FsEvent → Found → Watcher → Option Watcher
unfolding in_source
handle_event cwd e found w = in_source e found (resolve_mapping w.src_map (abs cwd e.name)) w

abbrev pub emit_found : Text → Option PendingEvent → Watcher → Watcher
emit_found path none w = w
emit_found path (some pe) w = record w {
  pending = remove w.pending path;
  blocked = w.blocked ++ pe.event ∷ [];
}

-- emit, up to the send
unfoldable pub emit : Text → Watcher → Watcher
emit path w = emit_found path (get w.pending path) w
