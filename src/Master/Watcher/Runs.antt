-- ===== src/Master/Watcher/Runs.antt =====
-- internal/master/watcher/watcher.go: what can happen next to a watcher, and the states it reaches.
use craft_stack.Prelude.{ℕ, ◌+◌, ◌<◌, ◌≡◌, List, [], ◌∷◌, ◌++◌, Text, some, length}
use craft_stack.Master.Watcher.{
  FileEvent, MappingConfig, Timer, Watcher, FsEvent, Disk, Found, channel_size, new, load_mappings,
  handle_event, emit,
}

-- What the goroutines do on their own: a timer goes off, emit takes the mutex, an event gets into the
-- channel, the reader takes one.
pub data Internal (w : Watcher) (u : Watcher) : Type 0 where
  fire :
      (before after : List Timer) (t : Timer)
      → w.armed ≡ before ++ t ∷ after
      → u ≡ record w { armed = before ++ after; started = w.started ++ t.path ∷ [] }
      → Internal w u
  take_mutex :
      (before after : List Text) (p : Text)
      → w.started ≡ before ++ p ∷ after
      → u ≡ emit p (record w { started = before ++ after })
      → Internal w u
  send :
      (before after : List FileEvent) (e : FileEvent)
      → w.blocked ≡ before ++ e ∷ after
      → length w.event_ch < channel_size
      → u ≡ record w { blocked = before ++ after; event_ch = w.event_ch ++ e ∷ [] }
      → Internal w u
  take_one :
      (e : FileEvent) (rest : List FileEvent)
      → w.event_ch ≡ e ∷ rest
      → u ≡ record w { event_ch = rest; taken = w.taken ++ e ∷ [] }
      → Internal w u

-- What comes from outside: an event of the file system, and new mappings.
pub data External (w : Watcher) (u : Watcher) : Type 0 where
  notify : (cwd : Text) (e : FsEvent) (f : Found) → handle_event cwd e f w ≡ some u → External w u
  load :
      (cwd : Text) (d : Disk) (ms : List MappingConfig)
      → u ≡ load_mappings cwd d ms w
      → External w u

-- The states of a watcher since New.
pub data IsReached : Watcher → Type 0 where
  begin : IsReached new
  inside : {w u : Watcher} → IsReached w → Internal w u → IsReached u
  outside : {w u : Watcher} → IsReached w → External w u → IsReached u

-- A number of steps of the goroutines, and no others
pub data Quiet (w : Watcher) : ℕ → Watcher → Type 0 where
  still : Quiet w 0 w
  step : {n : ℕ} {u v : Watcher} → Quiet w n u → Internal u v → Quiet w (n + 1) v
