-- ===== src/Agent/DockerProcess/Exits.antt =====
-- The channels that an exit closes.
use mathlib.Core.Path.{subst}
use craft_stack.Prelude.{
  ℕ, ◌+◌, ◌-◌, ◌≤◌, ◌<◌, ◌≡◌, inl, inr, refl, List, [], ◌∷◌, Bool, false, some, ◌==◌, any, arith,
  sym, ◌∙◌, Bool-cases, ◌||◌, All,
}
use craft_stack.Agent.DockerProcess.{
  State, stopped, starting, running, stopping, DockerProcess, new_docker, is_running, is_starting,
  start_container, start_failed, stop_failed, exited, timed_out, await_stop, start, started,
  wait_for_exit, kill, stop, StartAnswer, StopAnswer, attach,
}

abbrev pub is_closed : ℕ → List ℕ → Bool
is_closed c = any (λ k. k == c)

-- At most one watcher, and its channels are open; no channel was closed twice.
pub record IsQuiet (d : DockerProcess) : Type 0 where
  pub one_watcher : d.watchers ≤ 1
  pub watched_open :
      d.watchers ≡ 1 → (c : ℕ) × (d.stop_ch ≡ some c) × (is_closed c d.closed ≡ false)
  pub closed_old : All (λ c. c < d.next_ch) d.closed
  pub current_old : (c : ℕ) → d.stop_ch ≡ some c → c < d.next_ch
  pub calm : d.panicked ≡ false

is_closed-fresh : (n : ℕ) (cs : List ℕ) → All (λ c. c < n) cs → is_closed n cs ≡ false
is_closed-fresh n [] h = refl
is_closed-fresh n (c ∷ cs) (l, h) = ground (arith, is_closed-fresh n cs h)

All-lt_suc : (n : ℕ) (cs : List ℕ) → All (λ c. c < n) cs → All (λ c. c < n + 1) cs
All-lt_suc n [] h = tt
All-lt_suc n (c ∷ cs) (l, h) = (omega arith, All-lt_suc n cs h)

state-IsQuiet :
    (state : State) (pid : ℕ) (d : DockerProcess)
    → IsQuiet d
    → IsQuiet (record d { state = state; pid = pid })
state-IsQuiet state pid d q = record {
  one_watcher = q.one_watcher;
  watched_open = q.watched_open;
  closed_old = q.closed_old;
  current_old = q.current_old;
  calm = q.calm;
}

attach-IsQuiet :
    (now pid : ℕ) (d : DockerProcess) → IsQuiet d → d.watchers ≡ 0 → IsQuiet (attach now pid d)
unfolding attach
attach-IsQuiet now pid d q w = record {
  one_watcher = omega arith;
  watched_open = λ _. (d.next_ch, refl, is_closed-fresh d.next_ch d.closed q.closed_old);
  closed_old = All-lt_suc d.next_ch d.closed q.closed_old;
  current_old = λ c e. ground arith;
  calm = q.calm;
}

-- What an exit leaves, where the current channels are open.
exit_fields :
    (code c : ℕ) (d : DockerProcess)
    → d.stop_ch ≡ some c
    → is_closed c d.closed ≡ false
    → ((wait_for_exit code d).closed ≡ c ∷ d.closed)
      × ((wait_for_exit code d).next_ch ≡ d.next_ch)
      × ((wait_for_exit code d).stop_ch ≡ d.stop_ch)
      × ((wait_for_exit code d).panicked ≡ d.panicked)
      × ((wait_for_exit code d).watchers ≡ d.watchers - 1)
unfolding wait_for_exit
exit_fields code c d e o = ground arith

exit-IsQuiet :
    (code : ℕ) (d : DockerProcess) → IsQuiet d → d.watchers ≡ 1 → IsQuiet (wait_for_exit code d)
exit-IsQuiet code d q w =
    let (c, e, o) = q.watched_open w in
    let (closed, next_ch, stop_ch, panicked, watchers) = exit_fields code c d e o in
    record {
      one_watcher = omega (arith, watchers);
      watched_open = λ h. absurd (omega (arith, watchers));
      closed_old = rw closed (
          subst (λ n. All (λ k. k < n) (c ∷ d.closed)) (sym next_ch)
            (q.current_old c e, q.closed_old));
      current_old = λ k h. rw next_ch (q.current_old k (sym stop_ch ∙ h));
      calm = panicked ∙ q.calm;
    }

start-IsQuiet :
    (now : ℕ) (answer : StartAnswer) (d : DockerProcess)
    → IsQuiet d
    → d.watchers ≡ 0
    → IsQuiet (start now answer d).1
unfolding start
start-IsQuiet now answer d q w = elim (Bool-cases (is_running d.state || is_starting d.state)) [
  | inl e ↦ rw e q
  | inr e ↦ rw e (go answer)
]
  where
    starting_up : IsQuiet (record d { state = starting })
    starting_up = state-IsQuiet starting d.pid d q

    go :
        (answer : StartAnswer)
        → IsQuiet (start_container now answer (record d { state = starting })).1
    go (started pid) =
        unfold attach in attach-IsQuiet now pid (record d { state = starting }) starting_up w
    go start_failed = state-IsQuiet stopped d.pid d q

kill-IsQuiet : (d : DockerProcess) → IsQuiet d → IsQuiet (kill d).1
unfolding kill
kill-IsQuiet d q = state-IsQuiet stopped 0 d q

-- Stop that ends by a kill, or by the exit of the one watcher.
stop-IsQuiet :
    (answer : StopAnswer) (d : DockerProcess)
    → IsQuiet d
    → (d.state ≡ running → d.watchers ≡ 1)
    → IsQuiet (stop answer d).1
unfolding stop
stop-IsQuiet answer d q w = elim (Bool-cases (is_running d.state)) [
  | inl e ↦ rw e (go (w (ground arith)) answer)
  | inr e ↦ rw e q
]
  where
    go :
        d.watchers ≡ 1
        → (answer : StopAnswer) → IsQuiet (await_stop answer (record d { state = stopping })).1
    go one stop_failed = state-IsQuiet stopped 0 d q
    go one (exited code) =
        unfold wait_for_exit in
        exit-IsQuiet code (record d { state = stopping }) (state-IsQuiet stopping d.pid d q) one
    go one timed_out = state-IsQuiet stopped 0 d q

-- Steps in which Start waits until the last watcher is gone.
pub data CalmStep : DockerProcess → DockerProcess → Type 0 where
  starts :
      (d : DockerProcess) (now : ℕ) (answer : StartAnswer)
      → d.watchers ≡ 0
      → CalmStep d (start now answer d).1
  stops :
      (d : DockerProcess) (answer : StopAnswer)
      → (d.state ≡ running → d.watchers ≡ 1)
      → CalmStep d (stop answer d).1
  kills : (d : DockerProcess) → CalmStep d (kill d).1
  exits : (d : DockerProcess) (code : ℕ) → d.watchers ≡ 1 → CalmStep d (wait_for_exit code d)

pub data CalmReach (d : DockerProcess) : DockerProcess → Type 0 where
  here : CalmReach d d
  next : {e f : DockerProcess} → CalmReach d e → CalmStep e f → CalmReach d f

CalmStep-IsQuiet : {d e : DockerProcess} → CalmStep d e → IsQuiet d → IsQuiet e
CalmStep-IsQuiet (starts d now answer w) q = start-IsQuiet now answer d q w
CalmStep-IsQuiet (stops d answer w) q = stop-IsQuiet answer d q w
CalmStep-IsQuiet (kills d) q = kill-IsQuiet d q
CalmStep-IsQuiet (exits d code w) q = exit-IsQuiet code d q w

-- If no Start runs while an earlier watcher is still there, then no channel is closed twice and
-- there is one watcher at most.
pub CalmReach-IsQuiet : {d : DockerProcess} → CalmReach new_docker d → IsQuiet d
unfolding new_docker
CalmReach-IsQuiet here = record {
  one_watcher = omega arith;
  watched_open = λ h. absurd (omega arith);
  closed_old = tt;
  current_old = λ c e. cc;
  calm = refl;
}
CalmReach-IsQuiet (next r s) = CalmStep-IsQuiet s (CalmReach-IsQuiet r)
