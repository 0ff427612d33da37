-- ===== src/Agent/AutoRestart.antt =====
-- internal/agent/auto_restart.go: one instance in one tick of autoRestartLoop. Times are in
-- nanoseconds; a Duration is 64 bits wide and wraps. A negative one, in `time.Since(last) < backoff`
-- and in `time.After`, acts as 0, and 0 stands for it here. RestartDelaySec is not negative.
pub mod Bounds
mod Tests
use craft_stack.Prelude.{
  ℕ, zero, suc, ◌+◌, ◌-◌, ◌*◌, ◌^◌, ◌%◌, List, [], ◌∷◌, Text, Bool, true, false, not, ◌&&◌, ◌||◌,
  Option, none, some, ◌==◌, ltb, leb, if◌then◌else◌,
}
use craft_stack.Prelude.Dict.{Dict, get, put}
use craft_stack.Agent.DockerProcess.{State, stopped, starting, running, stopping, crashed}

abbrev pub max_crash_count : ℕ
max_crash_count = 5

abbrev pub second : ℕ
second = 10 ^ 9

-- The two maps that the loop keeps.
pub record Loop : Type 0 where
  pub crash_counts : Dict ℕ
  pub last_attempt : Dict ℕ

-- The settings of the instance that the loop reads.
pub record InstanceDef : Type 0 where
  pub auto_restart : Bool
  pub restart_delay_sec : ℕ

-- m[k] of a map to numbers: 0 where there is no entry
abbrev pub count_of : Option ℕ → ℕ
count_of none = 0
count_of (some n) = n

signed : ℕ → ℕ
signed n = if leb (2 ^ 63) n then 0 else n

cap : ℕ → ℕ
cap n = if ltb (5 * 60 * second) n then 5 * 60 * second else n

-- The backoff: the delay times 2 to the count, five minutes at most.
unfoldable pub backoff_for : ℕ → ℕ → ℕ
unfolding signed cap
backoff_for delay count = cap (signed ((delay * second * 2 ^ count) % 2 ^ 64))

too_soon : ℕ → ℕ → Option ℕ → Bool
too_soon now backoff none = false
too_soon now backoff (some last) = ltb (now - last) backoff

-- What a tick does with one instance: the new maps, and the delay after which it starts the
-- instance, if it does.
abbrev pub Ticked : Type 0
Ticked = Loop × Option ℕ

attempt : Text → ℕ → ℕ → ℕ → Loop → Ticked
unfolding too_soon
attempt id now count backoff l =
    if too_soon now backoff (get l.last_attempt id) then (l, none) else (
      record {
        crash_counts = put l.crash_counts id (count + 1);
        last_attempt = put l.last_attempt id now;
      },
      some backoff,
    )

crashed_tick : Text → ℕ → ℕ → ℕ → Loop → Ticked
unfolding attempt
crashed_tick id now delay count l =
    if leb max_crash_count count
    then (if count == max_crash_count
        then (record l { crash_counts = put l.crash_counts id (count + 1) }, none)
        else (l, none))
    else attempt id now count (backoff_for delay count) l

abbrev on_state : State → Text → ℕ → ℕ → Loop → Ticked
on_state crashed id now delay l = crashed_tick id now delay (count_of (get l.crash_counts id)) l
on_state running id now delay l = (record l { crash_counts = put l.crash_counts id 0 }, none)
on_state _ id now delay l = (l, none)

-- The body of the loop over the instances
unfoldable pub tick_instance : Text → ℕ → Option InstanceDef → State → Loop → Ticked
unfolding crashed_tick
tick_instance id now none state l = (l, none)
tick_instance id now (some def) state l =
    if not def.auto_restart then (l, none) else on_state state id now def.restart_delay_sec l
