-- ===== src/Examples/TransitionRuns.antt =====
-- Concrete runs of the transition tables of packages/control-plane.
use swarm_intelligence_engin.Prelude.{refl, arith}
use swarm_intelligence_engin.Machine.{Run, RunAvoiding, here, next}
use swarm_intelligence_engin.Control.Lanes.{mainline, archived, is_valid_lane_transition}
use swarm_intelligence_engin.Control.Workers.{registered, idle, stuck, killed, is_valid_transition}
use swarm_intelligence_engin.Control.Workers.Service.{InService, left_for_good}

retired : Run is_valid_lane_transition mainline archived
unfolding is_valid_lane_transition
retired = next here refl

put_down : Run is_valid_transition stuck killed
unfolding is_valid_transition
put_down = next here refl

stuck_out : ¬ InService stuck
stuck_out h = ground arith

left_for_good_example : ¬ InService killed
left_for_good_example = left_for_good stuck killed stuck_out put_down

waiting : RunAvoiding is_valid_transition idle registered registered
waiting = here (λ e. cc)
