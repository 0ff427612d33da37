-- ===== src/Agent/DockerProcess/Tests.antt =====
-- Runs of a container: started, killed, started again before the first exit is seen.
use craft_stack.Prelude.{◌≡◌, refl, codes, same}
use craft_stack.Agent.DockerProcess.{
  running, crashed, DockerProcess, new_docker, started, start, wait_for_exit, timed_out, stop,
  Answers, dispatch,
}
use craft_stack.Agent.DockerProcess.Lifecycle.{
  IsCoherent, acts, Reach, Reach-IsCoherent, dispatch-crashed,
}
use craft_stack.Agent.DockerProcess.Exits.{
  IsQuiet, starts, stops, exits, CalmReach, CalmReach-IsQuiet,
}

abbrev answers : Answers
answers = record { now = 9; on_start = started 42; on_stop = timed_out }

abbrev up : DockerProcess
up = (dispatch (codes "start") answers new_docker).1

up_and_watched : (up.state ≡ running) × (up.pid ≡ 42) × (up.watchers ≡ 1)
unfolding dispatch new_docker same start
up_and_watched = (refl, refl, refl)

Reach-IsCoherent_example : IsCoherent (dispatch (codes "restart") answers up).1
Reach-IsCoherent_example = Reach-IsCoherent (
    Reach.next (Reach.next Reach.here (acts new_docker (codes "start") answers))
      (acts up (codes "restart") answers))

abbrev down : DockerProcess
down = (wait_for_exit 1 up)

down_by_crash : down.state ≡ crashed
unfolding dispatch new_docker same start wait_for_exit
down_by_crash = refl

-- A stop of a crashed container is refused and leaves it as it was.
dispatch-crashed_example : (dispatch (codes "stop") answers down).1 ≡ down
unfolding dispatch new_docker same start wait_for_exit stop
dispatch-crashed_example = dispatch-crashed (codes "stop") answers down refl

abbrev begun : DockerProcess
begun = (start 9 (started 42) new_docker).1

CalmReach-IsQuiet_example :
    IsQuiet (start 20 (started 43) (wait_for_exit 0 (stop timed_out begun).1)).1
unfolding start new_docker stop wait_for_exit
CalmReach-IsQuiet_example = CalmReach-IsQuiet (
    CalmReach.next
      (CalmReach.next
        (CalmReach.next (CalmReach.next CalmReach.here (starts new_docker 9 (started 42) refl))
          (stops begun timed_out (λ _. refl)))
        (exits (stop timed_out begun).1 0 refl))
      (starts (wait_for_exit 0 (stop timed_out begun).1) 20 (started 43) refl))
