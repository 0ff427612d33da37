-- ===== src/Agent/AutoRestart/Bounds.antt =====
-- How often and how soon the loop restarts an instance.
use craft_stack.Prelude.{
  ℕ, ◌+◌, ◌-◌, ◌*◌, ◌≤◌, ◌<◌, ◌≡◌, ◌≢◌, List, [], ◌∷◌, Text, Bool, true, false, Option, none, some,
  arith,
}
use craft_stack.Prelude.Dict.{get, get-put_self}
use craft_stack.Agent.DockerProcess.{State, running, crashed}
use craft_stack.Agent.AutoRestart.{
  max_crash_count, second, Loop, InstanceDef, count_of, backoff_for, tick_instance,
}

-- One look at the instance: the time, its settings and its state.
pub record Look : Type 0 where
  pub now : ℕ
  pub def : Option InstanceDef
  pub state : State

-- The starts that a run of ticks makes for one instance.
unfoldable pub starts : Text → List Look → Loop → ℕ
starts id [] l = 0
starts id (o ∷ os) l =
    let (l', started) = tick_instance id o.now o.def o.state l in
    (elim started [ none ↦ 0 | some _ ↦ 1 ]) + starts id os l'

unfoldable pub never_running : List Look → Bool
never_running [] = true
never_running (o ∷ os) = elim o.state [ running ↦ false | _ ↦ never_running os ]

abbrev pub count_in : Text → Loop → ℕ
count_in id l = count_of (get l.crash_counts id)

-- A tick without the state running adds a start to the count, and the count was below the limit.
tick-count :
    (id : Text) (now : ℕ) (def : Option InstanceDef) (state : State) (l : Loop)
    → state ≢ running
    → (elim (tick_instance id now def state l).1 [ none ↦ 0 | some _ ↦ 1 ])
        + (max_crash_count - count_in id (tick_instance id now def state l).0)
      ≤ max_crash_count - count_in id l
unfolding tick_instance
tick-count id now none state l n = ground arith
tick-count id now (some def) state l n =
    ground (arith, get-put_self l.crash_counts id (count_in id l + 1))

-- The backoff is five minutes at most.
backoff-le : (delay count : ℕ) → backoff_for delay count ≤ 300 * second
unfolding backoff_for
backoff-le delay count = ground arith

-- Over any ticks in which the instance is never seen running, whatever its settings and times, the
-- loop starts it at most five times, less the failures that it has already counted.
pub starts-le :
    (id : Text) (os : List Look) (l : Loop)
    → never_running os ≡ true
    → starts id os l ≤ max_crash_count - count_in id l
unfolding starts never_running
starts-le id [] l h = omega arith
starts-le id (o ∷ os) l h = ground (
  arith,
  tick-count id o.now o.def o.state l,
  starts-le id os (tick_instance id o.now o.def o.state l).0,
)

abbrev pub Waited : ℕ → Option ℕ → ℕ → Type 0
Waited now none backoff = Unit
Waited now (some last) backoff = backoff ≤ now - last

-- A tick starts an instance only if it is crashed, restarts are on and fewer than five were counted;
-- the delay is the backoff for that count, five minutes at most; at least as long has passed since
-- the last attempt; and the tick counts one more failure and notes the time.
pub tick-starts :
    (id : Text) (now backoff : ℕ) (def : InstanceDef) (state : State) (l : Loop)
    → (tick_instance id now (some def) state l).1 ≡ some backoff
    → (state ≡ crashed)
      × (def.auto_restart ≡ true)
      × (count_in id l < max_crash_count)
      × (backoff ≡ backoff_for def.restart_delay_sec (count_in id l))
      × (backoff ≤ 300 * second)
      × Waited now (get l.last_attempt id) backoff
      × (count_in id (tick_instance id now (some def) state l).0 ≡ count_in id l + 1)
      × (get (tick_instance id now (some def) state l).0.last_attempt id ≡ some now)
unfolding tick_instance
tick-starts id now backoff def state l e = ground (
  arith,
  backoff-le def.restart_delay_sec (count_in id l),
  get-put_self l.crash_counts id (count_in id l + 1),
  get-put_self l.last_attempt id now,
)
