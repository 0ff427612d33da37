-- ===== src/Agent/DockerProcess/Lifecycle.antt =====
-- What holds of a container between whole operations and exits.
use craft_stack.Prelude.{ℕ, ◌<◌, ◌≡◌, ◌≢◌, Text, arith}
use craft_stack.Agent.DockerProcess.{
  starting, running, stopping, crashed, DockerProcess, new_docker, start, wait_for_exit, kill, stop,
  restart, Answers, dispatch, attach,
}

-- A PID is known only of a running container, a running container is watched, and no operation is
-- under way.
pub record IsCoherent (d : DockerProcess) : Type 0 where
  pub pid_running : d.pid ≢ 0 → d.state ≡ running
  pub watched : d.state ≡ running → 0 < d.watchers
  pub not_starting : d.state ≢ starting
  pub not_stopping : d.state ≢ stopping

-- What may happen to a container: a control action, or the exit that a watcher waits for.
pub data Step : DockerProcess → DockerProcess → Type 0 where
  acts : (d : DockerProcess) (action : Text) (a : Answers) → Step d (dispatch action a d).1
  exits : (d : DockerProcess) (code : ℕ) → 0 < d.watchers → Step d (wait_for_exit code d)

pub data Reach (d : DockerProcess) : DockerProcess → Type 0 where
  here : Reach d d
  next : {e f : DockerProcess} → Reach d e → Step e f → Reach d f

start-IsCoherent :
    (a : Answers) (d : DockerProcess) → IsCoherent d → IsCoherent (start a.now a.on_start d).1
unfolding start
start-IsCoherent a d i = ground arith

exit-IsCoherent : (code : ℕ) (d : DockerProcess) → IsCoherent (wait_for_exit code d)
unfolding wait_for_exit
exit-IsCoherent code d = ground arith

kill-IsCoherent : (d : DockerProcess) → IsCoherent (kill d).1
unfolding kill
kill-IsCoherent d = ground arith

stop-IsCoherent : (a : Answers) (d : DockerProcess) → IsCoherent d → IsCoherent (stop a.on_stop d).1
unfolding stop
stop-IsCoherent a d i = ground arith

restart-IsCoherent :
    (a : Answers) (d : DockerProcess)
    → IsCoherent d
    → IsCoherent (restart a.now a.on_stop a.on_start d).1
unfolding restart
restart-IsCoherent a d i = ground arith

dispatch-IsCoherent :
    (action : Text) (a : Answers) (d : DockerProcess)
    → IsCoherent d
    → IsCoherent (dispatch action a d).1
unfolding dispatch
dispatch-IsCoherent action a d i = ground (
  arith,
  start-IsCoherent a d i,
  stop-IsCoherent a d i,
  restart-IsCoherent a d i,
  kill-IsCoherent d,
)

Step-IsCoherent : {d e : DockerProcess} → Step d e → IsCoherent d → IsCoherent e
Step-IsCoherent (acts d action a) i = dispatch-IsCoherent action a d i
Step-IsCoherent (exits d code w) i = exit-IsCoherent code d

-- From a new process, through any control actions, whatever docker answers, and any exits: a PID
-- other than 0 is shown only while the state is running, a running container has a goroutine that
-- waits for its exit, and between operations the state is stopped, running or crashed.
pub Reach-IsCoherent : {d : DockerProcess} → Reach new_docker d → IsCoherent d
unfolding new_docker
Reach-IsCoherent here = ground arith
Reach-IsCoherent (next r s) = Step-IsCoherent s (Reach-IsCoherent r)

-- A control action never ends in the state crashed, unless the container was crashed and the action
-- left it alone.
pub dispatch-crashed :
    (action : Text) (a : Answers) (d : DockerProcess)
    → (dispatch action a d).1.state ≡ crashed
    → (dispatch action a d).1 ≡ d
unfolding dispatch start stop restart kill wait_for_exit attach
dispatch-crashed action a d e = ground arith
