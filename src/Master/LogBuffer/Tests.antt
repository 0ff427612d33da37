-- ===== src/Master/LogBuffer/Tests.antt =====
-- Runs of the ring buffer and of the log history.
use craft_stack.Prelude.{◌≤◌, ◌≡◌, refl, List, [], ◌∷◌, Text, codes, true, some, arith, length}
use craft_stack.Master.LogBuffer.{
  LogRingBuffer, LogState, new_log_ring_buffer, add, lines, log_buffer_size, log_broadcast_cap,
  get_log_history,
}
use craft_stack.Master.LogBuffer.Recent.{recent, add_all, lines-add_all}
use craft_stack.Master.LogBuffer.History.{
  Message, new_log_state, broadcast_all, lines_for, history-broadcast_all,
}

abbrev three_lines : List Text
three_lines = codes "a" ∷ codes "b" ∷ codes "c" ∷ []

wraps :
    add_all (new_log_ring_buffer 2) three_lines
    ≡ some (record { lines = codes "c" ∷ codes "b" ∷ []; pos = 1; full = true; size = 2 })
unfolding add_all add new_log_ring_buffer
wraps = refl

lines-add_all_example :
    (rb : LogRingBuffer) × (add_all (new_log_ring_buffer 2) three_lines ≡ some rb)
    × (lines rb ≡ some (recent 2 three_lines))
lines-add_all_example = lines-add_all 2 three_lines (omega arith)

abbrev two_servers : List Message
two_servers =
    record { now = 1; instance_id = codes "lobby"; line = codes "up" }
    ∷ record { now = 2; instance_id = codes "survival"; line = codes "boot" }
    ∷ record { now = 3; instance_id = codes "lobby"; line = codes "join" }
    ∷ []

history-broadcast_all_example :
    (s : LogState) × (broadcast_all new_log_state two_servers ≡ some s)
    × (length s.log_broadcast ≤ log_broadcast_cap)
    × ((k : Text) → get_log_history s k ≡ some (recent log_buffer_size (lines_for k two_servers)))
history-broadcast_all_example = history-broadcast_all two_servers
