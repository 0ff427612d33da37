-- ===== src/Agent/AutoRestart/Tests.antt =====
-- Runs of the restart loop.
use craft_stack.Prelude.{
  ◌+◌, ◌-◌, ◌*◌, ◌≤◌, ◌<◌, ◌≡◌, refl, [], ◌∷◌, codes, true, some, replicate, same,
}
use craft_stack.Prelude.Dict.{get, put}
use craft_stack.Agent.DockerProcess.{crashed}
use craft_stack.Agent.AutoRestart.{
  max_crash_count, second, Loop, InstanceDef, backoff_for, tick_instance,
}
use craft_stack.Agent.AutoRestart.Bounds.{
  Look, starts, never_running, count_in, Waited, starts-le, tick-starts,
}

abbrev fresh : Loop
fresh = record { crash_counts = []; last_attempt = [] }

abbrev ten_seconds : InstanceDef
ten_seconds = record { auto_restart = true; restart_delay_sec = 10 }

abbrev look : Look
look = record { now = 600 * second; def = some ten_seconds; state = crashed }

-- The first look starts the instance; the second is too soon.
one_start : starts (codes "a") (look ∷ look ∷ []) fresh ≡ 1
unfolding starts tick_instance get put same backoff_for
one_start = refl

starts-le_example :
    starts (codes "a") (replicate 9 look) fresh ≤ max_crash_count - count_in (codes "a") fresh
unfolding never_running
starts-le_example = starts-le (codes "a") (replicate 9 look) fresh refl

tick-starts_example :
    (crashed ≡ crashed)
    × (ten_seconds.auto_restart ≡ true)
    × (count_in (codes "a") fresh < max_crash_count)
    × (10 * second ≡ backoff_for ten_seconds.restart_delay_sec (count_in (codes "a") fresh))
    × (10 * second ≤ 300 * second)
    × Waited (600 * second) (get fresh.last_attempt (codes "a")) (10 * second)
    × (count_in
          (codes "a")
          (tick_instance (codes "a") (600 * second) (some ten_seconds) crashed fresh).0
        ≡ count_in (codes "a") fresh + 1)
    × (get
          (tick_instance (codes "a") (600 * second) (some ten_seconds) crashed fresh).0.last_attempt
          (codes "a")
        ≡ some (600 * second))
unfolding tick_instance get backoff_for
tick-starts_example =
    tick-starts (codes "a") (600 * second) (10 * second) ten_seconds crashed fresh refl
