-- ===== src/Agent/DockerProcess.antt =====
-- internal/agent/process/docker.go: the life cycle of one container, and ControlInstance of
-- internal/agent/instance_manager.go. The answers of the docker command are arguments. `logCh` and
-- `stopCh` are made together and closed together: one number stands for the pair.
pub mod Lifecycle
pub mod Exits
mod Tests
use craft_stack.Prelude.{
  ℕ, zero, suc, ◌+◌, ◌-◌, List, [], ◌∷◌, Text, codes, Bool, true, false, not, ◌&&◌, ◌||◌, Option,
  none, some, ◌==◌, same, any, if◌then◌else◌,
}
use craft_stack.Prelude.Dict.{Dict, get, put}

pub data State : Type 0 where
  stopped starting running stopping crashed : State

abbrev pub is_running : State → Bool
is_running running = true
is_running _ = false

abbrev pub is_starting : State → Bool
is_starting starting = true
is_starting _ = false

abbrev pub is_stopping : State → Bool
is_stopping stopping = true
is_stopping _ = false

-- `stop_ch` is the channel pair in use, `closed` the pairs that were closed, `watchers` the
-- goroutines in waitForExit, and `panicked` whether one of them closed a closed channel.
pub record DockerProcess : Type 0 where
  pub state : State
  pub pid : ℕ
  pub start_at : ℕ
  pub stop_ch : Option ℕ
  pub next_ch : ℕ
  pub closed : List ℕ
  pub watchers : ℕ
  pub panicked : Bool

-- NewDocker
unfoldable pub new_docker : DockerProcess
new_docker = record {
  state = stopped;
  pid = 0;
  start_at = 0;
  stop_ch = none;
  next_ch = 0;
  closed = [];
  watchers = 0;
  panicked = false;
}

-- Uptime
unfoldable pub uptime : ℕ → DockerProcess → ℕ
uptime now d = if is_running d.state then now - d.start_at else 0

-- The answer of `docker start`, with the PID that fetchPID finds.
pub data StartAnswer : Type 0 where
  started : ℕ → StartAnswer
  start_failed : StartAnswer

-- The part of Start, and of RefreshState, that takes a running container over.
unfoldable pub attach : ℕ → ℕ → DockerProcess → DockerProcess
attach now pid d = record d {
  state = running;
  pid = pid;
  start_at = now;
  stop_ch = some d.next_ch;
  next_ch = d.next_ch + 1;
  watchers = d.watchers + 1;
}

-- `nil` is true
abbrev pub Outcome : Type 0
Outcome = Bool × DockerProcess

start_container : ℕ → StartAnswer → DockerProcess → Outcome
start_container now (started pid) d = (true, attach now pid d)
start_container now start_failed d = (false, record d { state = stopped })

-- Start
unfoldable pub start : ℕ → StartAnswer → DockerProcess → Outcome
unfolding start_container attach
start now answer d =
    if is_running d.state || is_starting d.state
    then (false, d)
    else start_container now answer (record d { state = starting })

close_channel : Option ℕ → DockerProcess → DockerProcess
close_channel none d = d
close_channel (some c) d =
    if any (λ k. k == c) d.closed
    then record d { panicked = true }
    else record d { closed = c ∷ d.closed }

-- waitForExit, from the return of `docker wait`; an answer that cannot be read counts as 0
unfoldable pub wait_for_exit : ℕ → DockerProcess → DockerProcess
unfolding close_channel
wait_for_exit exit_code d = close_channel d.stop_ch (record d {
  state = if not (exit_code == 0) && not (is_stopping d.state) then crashed else stopped;
  pid = 0;
  watchers = d.watchers - 1;
})

-- Kill; whether `docker kill` fails makes no difference
unfoldable pub kill : DockerProcess → Outcome
kill d = (true, record d { state = stopped; pid = 0 })

-- What comes of `docker stop` and of the wait of 35 seconds after it.
pub data StopAnswer : Type 0 where
  stop_failed : StopAnswer
  exited : ℕ → StopAnswer
  timed_out : StopAnswer

await_stop : StopAnswer → DockerProcess → Outcome
unfolding wait_for_exit kill
await_stop stop_failed d = kill d
await_stop (exited code) d = (true, wait_for_exit code d)
await_stop timed_out d = kill d

-- Stop
unfoldable pub stop : StopAnswer → DockerProcess → Outcome
unfolding await_stop
stop answer d =
    if not (is_running d.state)
    then (false, d)
    else await_stop answer (record d { state = stopping })

after_stop : Outcome → DockerProcess
after_stop (true, d) = d
after_stop (false, d) = (kill d).1

-- Restart
unfoldable pub restart : ℕ → StopAnswer → StartAnswer → DockerProcess → Outcome
unfolding after_stop stop start
restart now stop_answer start_answer d =
    start now start_answer (if is_running d.state then after_stop (stop stop_answer d) else d)

-- The answer of `docker inspect` in RefreshState.
pub data InspectAnswer : Type 0 where
  inspect_failed : InspectAnswer
  status : Text → ℕ → InspectAnswer

-- RefreshState
unfoldable pub refresh_state : ℕ → InspectAnswer → DockerProcess → DockerProcess
unfolding attach
refresh_state now inspect_failed d = record d { state = stopped }
refresh_state now (status text pid) d =
    if same text (codes "running") then attach now pid d else record d { state = stopped }

-- The guard of SendCommand.
unfoldable pub accepts_command : DockerProcess → Bool
accepts_command d = is_running d.state || is_stopping d.state

-- The answers that one call of ControlInstance may need.
pub record Answers : Type 0 where
  pub now : ℕ
  pub on_start : StartAnswer
  pub on_stop : StopAnswer

unfoldable pub dispatch : Text → Answers → DockerProcess → Outcome
unfolding start stop restart kill
dispatch action a d =
    if same action (codes "start")
    then start a.now a.on_start d
    else if same action (codes "stop")
    then stop a.on_stop d
    else if same action (codes "restart")
    then restart a.now a.on_stop a.on_start d
    else if same action (codes "kill")
    then kill d
    else (false, d)

abbrev controlled : Text → Dict DockerProcess → Outcome → Bool × Dict DockerProcess
controlled id instances (ok, d) = (ok, put instances id d)

control :
    Text → Text → Answers → Dict DockerProcess → Option DockerProcess → Bool × Dict DockerProcess
control id action a instances none = (false, instances)
control id action a instances (some d) = controlled id instances (dispatch action a d)

-- Agent.ControlInstance
unfoldable pub control_instance :
    Text → Text → Answers → Dict DockerProcess → Bool × Dict DockerProcess
unfolding control
control_instance id action a instances = control id action a instances (get instances id)
