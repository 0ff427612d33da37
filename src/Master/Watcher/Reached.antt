-- ===== src/Master/Watcher/Reached.antt =====
-- internal/master/watcher/watcher.go: what holds in every state of a watcher.
use craft_stack.Prelude.{
  ℕ, zero, suc, ◌+◌, ◌<◌, ◌≤◌, ◌≡◌, ◌≢◌, refl, sym, ap, List, [], ◌∷◌, Text, true, false, Option,
  none, some, inl, inr, length, Bool-cases, take, same, codes, arith,
}
use mathlib.Core.Path.{subst}
use mathlib.Core.Option.{some_inj}
use craft_stack.GoPath.{rel}
use craft_stack.Prelude.Dict.{Dict, get, get-empty, AllValues, AllValues-put}
use craft_stack.Master.Watcher.{
  EventType, event_create, event_update, event_delete, MappingConfig, PendingEvent, Watcher,
  FsEvent, Disk, Found, no_directory, directory, new, mapping_at, load_mappings, load_from,
  handle_event, emit, emit_found, debounce, on_create, on_type, in_mapping, in_source,
  resolve_mapping, is_excluded, event_type_of,
}
use craft_stack.Master.Watcher.Runs.{
  Internal, fire, take_mutex, send, take_one, External, notify, load, IsReached, begin, inside,
  outside,
}
use craft_stack.Master.Watcher.Live.{IsLive, IsLive-fire, IsLive-emit, IsLive-debounce}

-- The index of every source directory is one of the mappings'.
abbrev pub IsIndexed : Watcher → Type 0
IsIndexed w = AllValues (λ i. i < length w.mappings) w.src_map

pub record IsSound (w : Watcher) : Type 0 where
  pub live : IsLive w
  pub indexed : IsIndexed w

load_from-IsSound :
    (cwd : Text) (disk : Disk) (ms : List MappingConfig) (i : ℕ) (w : Watcher)
    → i + length ms ≤ length w.mappings
    → IsSound w
    → IsSound (load_from cwd disk i ms w)
unfolding load_from
load_from-IsSound cwd disk [] i w h s = s
load_from-IsSound cwd disk (m ∷ ms) i w h s =
    load_from-IsSound cwd disk ms (suc i) _ (omega arith) (record {
      live = s.live;
      indexed = AllValues-put (λ j. j < length w.mappings) w.src_map _ i s.indexed (omega arith);
    })

on_type-IsSound :
    (m : MappingConfig) (rest : Text) (e : FsEvent) (f : Found) (t : Option EventType) (w : Watcher)
    → IsSound w
    → IsSound (on_type m rest e f t w)
unfolding on_type on_create debounce
on_type-IsSound m rest e f none w s = s
on_type-IsSound m rest e (directory true) (some event_create) w s = record {
  live = s.live;
  indexed = s.indexed;
}
on_type-IsSound m rest e (directory false) (some event_create) w s = s
on_type-IsSound m rest e no_directory (some event_create) w s = record {
  live = IsLive-debounce w s.live _;
  indexed = s.indexed;
}
on_type-IsSound m rest e f (some event_update) w s = record {
  live = IsLive-debounce w s.live _;
  indexed = s.indexed;
}
on_type-IsSound m rest e f (some event_delete) w s = record {
  live = IsLive-debounce w s.live _;
  indexed = s.indexed;
}

in_mapping-IsSound :
    (rest : Text) (e : FsEvent) (f : Found) (o : Option MappingConfig) (w u : Watcher)
    → in_mapping rest e f o w ≡ some u
    → IsSound w
    → IsSound u
unfolding in_mapping
in_mapping-IsSound rest e f none w u r s = absurd (cc r)
in_mapping-IsSound rest e f (some m) w u r s = elim (Bool-cases (is_excluded m.exclude rest)) [
  | inl t ↦ subst IsSound (some_inj.0 (rw t at r)) s
  | inr n ↦
      subst IsSound (some_inj.0 (rw n at r)) (on_type-IsSound m rest e f (event_type_of e) w s)
]

in_source-IsSound :
    (e : FsEvent) (f : Found) (o : Option (ℕ × Text)) (w u : Watcher)
    → in_source e f o w ≡ some u
    → IsSound w
    → IsSound u
unfolding in_source
in_source-IsSound e f none w u r s = subst IsSound (some_inj.0 r) s
in_source-IsSound e f (some (i, rest)) w u r s =
    in_mapping-IsSound rest e f (mapping_at w.mappings i) w u r s

External-IsSound : {w u : Watcher} → External w u → IsSound w → IsSound u
unfolding handle_event load_mappings
External-IsSound {w} {u} (notify cwd e f r) s =
    in_source-IsSound e f (resolve_mapping w.src_map _) w u r s
External-IsSound {w} {u} (load cwd d ms r) s = subst IsSound (sym r) (
    load_from-IsSound cwd d ms 0 (record w { mappings = ms; src_map = []; watched = [] })
      (omega arith) (record { live = s.live; indexed = tt }))

mapping_at-defined : (ms : List MappingConfig) (i : ℕ) → i < length ms → mapping_at ms i ≢ none
unfolding mapping_at
mapping_at-defined [] i h e = omega arith
mapping_at-defined (m ∷ ms) zero h e = cc e
mapping_at-defined (m ∷ ms) (suc i) h e = mapping_at-defined ms i (omega arith) e

resolve_mapping-IsIndexed :
    (n : ℕ) (m : Dict ℕ) (path : Text) (i : ℕ) (rest : Text)
    → AllValues (λ j. j < n) m
    → resolve_mapping m path ≡ some (i, rest)
    → i < n
unfolding resolve_mapping
resolve_mapping-IsIndexed n [] path i rest a e = absurd (cc e)
resolve_mapping-IsIndexed n ((dir, j) ∷ m) path i rest (h, a) e =
    elim (Bool-cases (same (take 2 (rel dir path)) (codes ".."))) [
      | inl t ↦ resolve_mapping-IsIndexed n m path i rest a (rw t at e)
      | inr f ↦ subst (λ k. k < n) (ap (λ x. x.0) (some_inj.0 (rw f at e))) h
    ]

in_mapping-panic :
    (rest : Text) (e : FsEvent) (f : Found) (o : Option MappingConfig) (w : Watcher)
    → in_mapping rest e f o w ≡ none
    → o ≡ none
unfolding in_mapping
in_mapping-panic rest e f none w r = refl
in_mapping-panic rest e f (some m) w r = absurd (cc r)

in_source-defined :
    (e : FsEvent) (f : Found) (o : Option (ℕ × Text)) (w : Watcher)
    → ((i : ℕ) (rest : Text) → o ≡ some (i, rest) → i < length w.mappings)
    → in_source e f o w ≢ none
unfolding in_source
in_source-defined e f none w h r = cc r
in_source-defined e f (some (i, rest)) w h r =
    mapping_at-defined w.mappings i (h i rest refl) (in_mapping-panic rest e f _ w r)

pub handle_event-defined :
    (cwd : Text) (e : FsEvent) (f : Found) (w : Watcher) → IsSound w → handle_event cwd e f w ≢ none
unfolding handle_event
handle_event-defined cwd e f w s =
    in_source-defined e f (resolve_mapping w.src_map _) w
      (λ i rest r. resolve_mapping-IsIndexed (length w.mappings) w.src_map _ i rest s.indexed r)

emit-IsIndexed :
    (p : Text) (w : Watcher) (o : Option PendingEvent) → IsIndexed w → IsIndexed (emit_found p o w)
emit-IsIndexed p w none s = s
emit-IsIndexed p w (some pe) s = s

pub Internal-IsSound : {w u : Watcher} → Internal w u → IsSound w → IsSound u
unfolding emit
Internal-IsSound {w} (fire before after t e r) s =
    subst IsSound (sym r)
      (record { live = IsLive-fire w s.live before after t e; indexed = s.indexed })
Internal-IsSound {w} (take_mutex before after p e r) s = subst IsSound (sym r) (record {
  live = IsLive-emit w s.live before after p e;
  indexed = emit-IsIndexed p _ (get w.pending p) s.indexed;
})
Internal-IsSound {w} (send before after e h l r) s =
    subst IsSound (sym r) (record { live = s.live; indexed = s.indexed })
Internal-IsSound {w} (take_one e rest h r) s =
    subst IsSound (sym r) (record { live = s.live; indexed = s.indexed })

new-IsSound : IsSound new
new-IsSound = record {
  live = λ p pe g. absurd (cc (g, get-empty {V = PendingEvent} p));
  indexed = tt;
}

pub IsReached-IsSound : {w : Watcher} → IsReached w → IsSound w
IsReached-IsSound begin = new-IsSound
IsReached-IsSound (inside r i) = Internal-IsSound i (IsReached-IsSound r)
IsReached-IsSound (outside r x) = External-IsSound x (IsReached-IsSound r)
