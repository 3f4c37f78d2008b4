-- ===== src/Reload/Tests.antt =====
-- The reload loop's theorems after a concrete run.
use falco_operator.Common.{suc, true, false, ◌≡◌, refl}
use falco_operator.Reload.{
  Coordinator, LoopStep, Step, Steps, new_reload_coordinator, notify_write, take_pending, arm_retry,
  is_stopped, will_reload,
}
use falco_operator.Reload.Progress.{LoopSteps, no_write_missed, reload_possible}

-- A write, a reload that does not find Falco, and the timer armed.
abbrev c1 : Coordinator
c1 = notify_write new_reload_coordinator

abbrev c2 : Coordinator
c2 = take_pending c1

abbrev c3 : Coordinator
c3 = arm_retry c2

run : Steps new_reload_coordinator c3
unfolding notify_write take_pending
run =
    Steps.more new_reload_coordinator c2 c3
      (Steps.more new_reload_coordinator c1 c2
        (Steps.more new_reload_coordinator new_reload_coordinator c1
          (Steps.done new_reload_coordinator) (Step.write new_reload_coordinator))
        (Step.loop c1 c2 (LoopStep.select_pending c1 refl refl)))
      (Step.loop c2 c3 (LoopStep.find_fails c2 refl))

still_dirty : c3.dirty ≡ true
unfolding notify_write take_pending arm_retry
still_dirty = refl

running : is_stopped c3.phase ≡ false
unfolding notify_write take_pending arm_retry
running = refl

no_write_missed_example : will_reload c3 ≡ true
no_write_missed_example = no_write_missed c3 run still_dirty running

reload_possible_example :
    (e : Coordinator) × LoopSteps c3 e × (e.dirty ≡ false) × (e.signals ≡ suc c3.signals)
reload_possible_example = reload_possible c3 run still_dirty running
