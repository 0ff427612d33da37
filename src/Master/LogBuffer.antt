-- ===== src/Master/LogBuffer.antt =====
-- internal/master/log_buffer.go: the ring buffer of log lines, and the log part of the server.
-- `none` is a panic of the Go runtime (an index or a slice bound out of range).
mod Recent
pub mod History
mod Tests
use craft_stack.Prelude.{
  ℕ, ◌+◌, List, ◌++◌, Text, Bool, true, false, Option, none, some, ltb, leb, length, set, take,
  drop, replicate, if◌then◌else◌,
}
use mathlib.Core.List.{[], ◌∷◌}
use craft_stack.Prelude.Dict.{Dict, get, put}

pub record LogRingBuffer : Type 0 where
  pub lines : List Text
  pub pos : ℕ
  pub full : Bool
  pub size : ℕ

-- NewLogRingBuffer
unfoldable pub new_log_ring_buffer : ℕ → LogRingBuffer
new_log_ring_buffer size = record { lines = replicate size []; pos = 0; full = false; size = size }

-- The advance of `pos` in Add
pub advance : LogRingBuffer → LogRingBuffer
advance rb = if leb rb.size rb.pos then record rb { pos = 0; full = true } else rb

-- Add
unfoldable pub add : LogRingBuffer → Text → Option LogRingBuffer
unfolding advance
add rb line =
    if ltb rb.pos (length rb.lines)
    then some (advance (record rb { lines = set rb.lines rb.pos line; pos = rb.pos + 1 }))
    else none

-- Lines
unfoldable pub lines : LogRingBuffer → Option (List Text)
lines rb =
    if leb rb.pos (length rb.lines)
    then some
        (if rb.full then drop rb.pos rb.lines ++ take rb.pos rb.lines else take rb.pos rb.lines)
    else none

pub record LogBroadcast : Type 0 where
  pub instance_id : Text
  pub line : Text
  pub timestamp : ℕ

-- The fields of GRPCServer that carry logs. `log_broadcast` holds what the channel has in it.
pub record LogState : Type 0 where
  pub log_buffers : Dict LogRingBuffer
  pub log_broadcast : List LogBroadcast

abbrev pub log_buffer_size : ℕ
log_buffer_size = 500

abbrev pub log_broadcast_cap : ℕ
log_broadcast_cap = 1000

abbrev or_new : Option LogRingBuffer → LogRingBuffer
or_new none = new_log_ring_buffer log_buffer_size
or_new (some buf) = buf

-- The non-blocking send of BroadcastLog: a full channel drops the line.
try_send : List LogBroadcast → LogBroadcast → List LogBroadcast
try_send ch m = if ltb (length ch) log_broadcast_cap then ch ++ m ∷ [] else ch

store_line : LogState → ℕ → Text → Text → Option LogRingBuffer → Option LogState
store_line s now instance_id line none = none
store_line s now instance_id line (some buf) = some (record {
  log_buffers = put s.log_buffers instance_id buf;
  log_broadcast =
      try_send s.log_broadcast (record { instance_id = instance_id; line = line; timestamp = now });
})

-- BroadcastLog
pub broadcast_log : LogState → ℕ → Text → Text → Option LogState
unfolding store_line try_send
broadcast_log s now instance_id line =
    store_line s now instance_id line (add (or_new (get s.log_buffers instance_id)) line)

buffered : Option LogRingBuffer → Option (List Text)
buffered none = some []
buffered (some buf) = lines buf

-- GetLogHistory
pub get_log_history : LogState → Text → Option (List Text)
unfolding buffered
get_log_history s instance_id = buffered (get s.log_buffers instance_id)
