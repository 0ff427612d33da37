-- ===== src/Master/LogBuffer/History.antt =====
-- What GetLogHistory returns after any run of BroadcastLog calls.
use craft_stack.Prelude.{
  ℕ, ◌≤◌, ◌≡◌, refl, sym, ap, ◌∙◌, List, [], ◌∷◌, ◌++◌, Text, Option, none, some, arith, length,
  length-append, append_assoc, append-nil, Bool-cases, inl, inr, same, same_iff, if◌then◌else◌,
}
use craft_stack.Prelude.Dict.{get, put, get-put, get-empty}
use craft_stack.Master.LogBuffer.{
  LogRingBuffer, LogState, log_buffer_size, log_broadcast_cap, or_new, try_send, broadcast_log,
  buffered, get_log_history,
}
use craft_stack.Master.LogBuffer.Recent.{
  recent, Shows, new-Shows, added, added-Shows, add_in_range, Shows-lines,
}

-- One call of BroadcastLog: the clock, the instance and the line.
pub record Message : Type 0 where
  pub now : ℕ
  pub instance_id : Text
  pub line : Text

abbrev pub new_log_state : LogState
new_log_state = record { log_buffers = []; log_broadcast = [] }

pub broadcast_all : LogState → List Message → Option LogState
broadcast_all s [] = some s
broadcast_all s (m ∷ ms) = elim (broadcast_log s m.now m.instance_id m.line) [
  | none ↦ none
  | some s' ↦ broadcast_all s' ms
]

-- The lines of one instance, in order.
pub lines_for : Text → List Message → List Text
lines_for k [] = []
lines_for k (m ∷ ms) = if same m.instance_id k then m.line ∷ lines_for k ms else lines_for k ms

abbrev BufferShows : List Text → Option LogRingBuffer → Type 0
BufferShows hist none = hist ≡ []
BufferShows hist (some rb) = Shows log_buffer_size hist rb

record Tracks (hist : Text → List Text) (s : LogState) : Type 0 where
  buffers : (k : Text) → BufferShows (hist k) (get s.log_buffers k)
  bounded : length s.log_broadcast ≤ log_broadcast_cap

or_new-Shows :
    (hist : List Text) (o : Option LogRingBuffer)
    → BufferShows hist o
    → Shows log_buffer_size hist (or_new o)
or_new-Shows hist none e = rw e (new-Shows log_buffer_size (omega arith))
or_new-Shows hist (some rb) s = s

abbrev extend : (Text → List Text) → Message → Text → List Text
extend hist m k = if same m.instance_id k then hist k ++ m.line ∷ [] else hist k

abbrev after : LogState → Message → LogState
after s m = record {
  log_buffers =
      put s.log_buffers m.instance_id (added (or_new (get s.log_buffers m.instance_id)) m.line);
  log_broadcast =
      try_send s.log_broadcast
        (record { instance_id = m.instance_id; line = m.line; timestamp = m.now });
}

broadcast-eq-after :
    (hist : Text → List Text) (s : LogState) (m : Message)
    → Tracks hist s
    → broadcast_log s m.now m.instance_id m.line ≡ some (after s m)
unfolding broadcast_log
broadcast-eq-after hist s m t = rw (
    add_in_range (or_new (get s.log_buffers m.instance_id)) m.line
      (or_new-Shows (hist m.instance_id) _ (t.buffers m.instance_id)).valid)

after-buffers :
    (hist : Text → List Text) (s : LogState) (m : Message)
    → Tracks hist s
    → (k : Text) → BufferShows (extend hist m k) (get (after s m).log_buffers k)
after-buffers hist s m t k = rw get-put (elim (Bool-cases (same m.instance_id k)) [
  | inl e ↦ rw e (
      rw (sym ((same_iff m.instance_id k).0 e)) (
        added-Shows log_buffer_size (hist m.instance_id) _ m.line
          (or_new-Shows (hist m.instance_id) _ (t.buffers m.instance_id))))
  | inr e ↦ rw e (t.buffers k)
])

after-Tracks :
    (hist : Text → List Text) (s : LogState) (m : Message)
    → Tracks hist s
    → Tracks (extend hist m) (after s m)
unfolding try_send
after-Tracks hist s m t = record {
  buffers = after-buffers hist s m t;
  bounded = ground (
    arith,
    t.bounded,
    length-append {0} s.log_broadcast
        (record { instance_id = m.instance_id; line = m.line; timestamp = m.now } ∷ []),
  );
}

extend-lines :
    (hist : Text → List Text) (m : Message) (ms : List Message) (k : Text)
    → extend hist m k ++ lines_for k ms ≡ hist k ++ lines_for k (m ∷ ms)
unfolding lines_for
extend-lines hist m ms k = ground (arith, append_assoc (hist k) (m.line ∷ []) (lines_for k ms))

history-Tracks :
    (hist : Text → List Text) (s : LogState) (k : Text)
    → Tracks hist s
    → get_log_history s k ≡ some (recent log_buffer_size (hist k))
unfolding get_log_history
history-Tracks hist s k t = go (get s.log_buffers k) (t.buffers k)
  where
    go :
        (o : Option LogRingBuffer)
        → BufferShows (hist k) o
        → buffered o ≡ some (recent log_buffer_size (hist k))
    go none e = rw e
    go (some rb) h = Shows-lines log_buffer_size (hist k) rb h

broadcast_all-Tracks :
    (ms : List Message) (hist : Text → List Text) (s : LogState)
    → Tracks hist s
    → (s' : LogState) × (broadcast_all s ms ≡ some s')
      × (length s'.log_broadcast ≤ log_broadcast_cap)
      × ((k : Text)
          → get_log_history s' k ≡ some (recent log_buffer_size (hist k ++ lines_for k ms)))
unfolding broadcast_all lines_for
broadcast_all-Tracks [] hist s t = (
  s,
  refl,
  t.bounded,
  λ k.
      history-Tracks hist s k t
      ∙ ap (λ l. some (recent log_buffer_size l)) (sym (append-nil (hist k))),
)
broadcast_all-Tracks (m ∷ ms) hist s t =
    let (s', e, b, h) =
      broadcast_all-Tracks ms (extend hist m) (after s m) (after-Tracks hist s m t) in
    (
      s',
      rw (broadcast-eq-after hist s m t, broadcast_all) e,
      b,
      λ k. h k ∙ ap (λ l. some (recent log_buffer_size l)) (extend-lines hist m ms k),
    )

-- From a new server, after any sequence of BroadcastLog calls, none of which panics, the history of
-- every instance is the last 500 lines that were broadcast for it, in order, whether or not the
-- channel to the web clients was full; and that channel never holds more than 1000 messages.
pub history-broadcast_all :
    (ms : List Message)
    → (s : LogState) × (broadcast_all new_log_state ms ≡ some s)
      × (length s.log_broadcast ≤ log_broadcast_cap)
      × ((k : Text) → get_log_history s k ≡ some (recent log_buffer_size (lines_for k ms)))
history-broadcast_all ms =
    broadcast_all-Tracks ms (λ _. []) new_log_state
      (record { buffers = λ k. rw get-empty refl; bounded = omega arith })
