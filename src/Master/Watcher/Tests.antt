-- ===== src/Master/Watcher/Tests.antt =====
-- A run of a watcher over one directory, in which a file is written twice.
use craft_stack.Prelude.{
  ℕ, ◌+◌, ◌≤◌, ◌≡◌, refl, sym, [], ◌∷◌, Text, codes, true, false, some, none, same, arith,
}
use craft_stack.Prelude.Among.{Among}
use craft_stack.Prelude.Dict.{get, put, remove}
use craft_stack.GoText.{has_prefix, contains_byte, split}
use craft_stack.GoPath.{abs, rel, clean, elements, rel_elements, with_slashes, base}
use craft_stack.GoPath.Glob.{match_path, items, chunks_of, match_chunks, match_chunk, seek}
use craft_stack.Master.Watcher.{
  event_update, FileEvent, MappingConfig, Timer, Watcher, FsEvent, no_directory, Disk, new,
  load_mappings, load_from, watch_all, handle_event, resolve_mapping, mapping_at, is_excluded,
  event_type_of, debounce, stop_timer, emit, in_source, in_mapping, on_type,
}
use craft_stack.Master.Watcher.Runs.{
  fire, take_mutex, send, take_one, notify, load, IsReached, begin, outside, Quiet, still, step,
}
use craft_stack.Master.Watcher.Settled.{IsIdle, Quiet-delivers, Quiet-settles}

abbrev plugins : MappingConfig
plugins = record {
  name = codes "m";
  src = codes "/d";
  dest = codes "p";
  targets = codes "*" ∷ [];
  exclude = codes "*.tmp" ∷ [];
}

abbrev good_disk : Disk
good_disk = record { make_dir = λ _. true; directories = λ d. d ∷ []; can_watch = λ _. true }

abbrev written : Text → FsEvent
written p = record { name = p; create = false; write = true; remove = false; rename = false }

abbrev a_event : FileEvent
a_event = record {
  path = codes "/d/a";
  rel_path = codes "a";
  event_type = event_update;
  mapping_name = codes "m";
  dest = codes "p";
  targets = codes "*" ∷ [];
}

abbrev timer : ℕ → Timer
timer n = record { id = n; path = codes "/d/a" }

abbrev waiting : ℕ → Watcher
waiting n = record new {
  mappings = plugins ∷ [];
  src_map = (codes "/d", 0) ∷ [];
  watched = codes "/d" ∷ [];
  pending = (codes "/d/a", record { event = a_event; timer = timer n }) ∷ [];
  next_timer = n + 1;
  armed = timer n ∷ [];
}

abbrev loaded : Watcher
loaded = record new {
  mappings = plugins ∷ [];
  src_map = (codes "/d", 0) ∷ [];
  watched = codes "/d" ∷ [];
}

loads : load_mappings (codes "/") good_disk (plugins ∷ []) new ≡ loaded
unfolding load_mappings load_from watch_all put abs clean split same has_prefix
loads = refl

first_write :
    handle_event (codes "/") (written (codes "/d/a")) no_directory loaded ≡ some (waiting 0)
unfolding handle_event resolve_mapping in_source in_mapping on_type debounce stop_timer get put abs
    rel clean elements rel_elements with_slashes split same has_prefix is_excluded base match_path
    items chunks_of match_chunks seek match_chunk event_type_of mapping_at contains_byte
first_write = refl

second_write :
    handle_event (codes "/") (written (codes "/d/a")) no_directory (waiting 0) ≡ some (waiting 1)
unfolding handle_event resolve_mapping in_source in_mapping on_type debounce stop_timer get put abs
    rel clean elements rel_elements with_slashes split same has_prefix is_excluded base match_path
    items chunks_of match_chunks seek match_chunk event_type_of mapping_at contains_byte
second_write = refl

passed_over :
    handle_event (codes "/") (written (codes "/d/x/a.tmp")) no_directory loaded ≡ some loaded
unfolding handle_event resolve_mapping in_source in_mapping on_type debounce stop_timer get put abs
    rel clean elements rel_elements with_slashes split same has_prefix is_excluded base match_path
    items chunks_of match_chunks seek match_chunk event_type_of mapping_at contains_byte
passed_over = refl

waiting-IsReached : IsReached (waiting 1)
waiting-IsReached =
    outside
      (outside (outside begin (load (codes "/") good_disk (plugins ∷ []) (sym loads)))
        (notify (codes "/") (written (codes "/d/a")) no_directory first_write))
      (notify (codes "/") (written (codes "/d/a")) no_directory second_write)

abbrev rested : Watcher
rested = record loaded { next_timer = 2; taken = a_event ∷ [] }

runs : Quiet (waiting 1) 4 rested
unfolding emit get same remove
runs =
    step
      (step
        (step (step still (fire [] [] (timer 1) refl refl))
          (take_mutex [] [] (codes "/d/a") refl refl))
        (send [] [] a_event refl (omega arith) refl))
      (take_one a_event [] refl refl)

Quiet-delivers_example : Among a_event rested.taken × (get rested.pending (codes "/d/a") ≡ none)
unfolding get same
Quiet-delivers_example =
    Quiet-delivers (waiting 1) rested 4 waiting-IsReached runs (refl, refl, refl, refl)
      (codes "/d/a") (record { event = a_event; timer = timer 1 }) refl

Quiet-settles_example :
    (m : ℕ) × (v : Watcher) × Quiet (waiting 1) m v × IsIdle v × (4 ≤ m) × (m ≤ 4)
Quiet-settles_example = Quiet-settles (waiting 1) rested 4 runs
