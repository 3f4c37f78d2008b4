-- ===== src/Reload/Progress.antt =====
-- What the loop owes to a write that no signal followed yet.
use falco_operator.Common.{suc, true, false, ◌||◌, ◌≡◌, inl, inr, refl, arith, Bool-cases}
use falco_operator.Reload.{
  Phase, Coordinator, LoopStep, Step, Steps, new_reload_coordinator, notify_write, take_pending,
  take_retry, arm_retry, found_pid, send_signal, end_wait, stop, is_stopped, will_reload,
}

-- A write that no signal followed has a reload to come, unless the loop has returned; the timer is
-- armed only while the loop selects.
pub record IsCovered (c : Coordinator) : Type 0 where
  pub covered : c.dirty ≡ true → is_stopped c.phase ≡ false → will_reload c ≡ true
  pub timer : c.retry ≡ true → c.phase ≡ Phase.selecting

Step-IsCovered : (a b : Coordinator) → Step a b → IsCovered a → IsCovered b
unfolding notify_write take_pending take_retry arm_retry found_pid send_signal end_wait stop
Step-IsCovered a _ (Step.write _) h = record { covered = λ d s. ground arith; timer = h.timer }
Step-IsCovered a _ (Step.loop _ _ (LoopStep.select_pending _ p q)) h = record {
  covered = λ d s. refl;
  timer = λ r. ground arith;
}
Step-IsCovered a _ (Step.loop _ _ (LoopStep.select_retry _ p q)) h = record {
  covered = λ d s. refl;
  timer = λ r. ground arith;
}
Step-IsCovered a _ (Step.loop _ _ (LoopStep.select_done _ p)) h = record {
  covered = λ d s. ground arith;
  timer = λ r. ground arith;
}
Step-IsCovered a _ (Step.loop _ _ (LoopStep.find_fails _ p)) h = record {
  covered = λ d s. ground arith;
  timer = λ r. refl;
}
Step-IsCovered a _ (Step.loop _ _ (LoopStep.find_succeeds _ p)) h = record {
  covered = λ d s. refl;
  timer = λ r. ground (arith, r, p, h.timer r);
}
Step-IsCovered a _ (Step.loop _ _ (LoopStep.kill_fails _ p)) h = record {
  covered = λ d s. ground arith;
  timer = λ r. refl;
}
Step-IsCovered a _ (Step.loop _ _ (LoopStep.kill_succeeds _ p)) h = record {
  covered = λ d s. ground arith;
  timer = λ r. ground (arith, r, p, h.timer r);
}
Step-IsCovered a _ (Step.loop _ _ (LoopStep.wait_ends _ p)) h = record {
  covered = λ d s. ground (arith, h.covered d);
  timer = λ r. refl;
}
Step-IsCovered a _ (Step.loop _ _ (LoopStep.wait_done _ p)) h = record {
  covered = λ d s. ground arith;
  timer = λ r. ground arith;
}

pub Steps-IsCovered : (a b : Coordinator) → Steps a b → IsCovered a → IsCovered b
Steps-IsCovered a _ (Steps.done _) h = h
Steps-IsCovered a _ (Steps.more _ b c s t) h = Step-IsCovered b c t (Steps-IsCovered a b s h)

-- After any sequence of steps from the start, while the loop has not returned: if a write has
-- landed that no signal followed yet, then a reload is under way, a write is pending or the retry
-- timer is armed.
pub no_write_missed :
    (c : Coordinator)
    → Steps new_reload_coordinator c
    → c.dirty ≡ true
    → is_stopped c.phase ≡ false
    → will_reload c ≡ true
no_write_missed c s =
    (Steps-IsCovered new_reload_coordinator c s
      (record { covered = λ d n. ground arith; timer = λ r. ground arith })).covered

-- Steps of the loop alone: no write comes in between.
pub data LoopSteps : Coordinator → Coordinator → Type 0 where
  done : (c : Coordinator) → LoopSteps c c
  more : (a b c : Coordinator) → LoopSteps a b → LoopStep b c → LoopSteps a c

from_killing :
    (c : Coordinator)
    → c.phase ≡ Phase.killing
    → (e : Coordinator) × LoopSteps c e × (e.dirty ≡ false) × (e.signals ≡ suc c.signals)
unfolding send_signal
from_killing c p = (
  send_signal c,
  LoopSteps.more c c (send_signal c) (LoopSteps.done c) (LoopStep.kill_succeeds c p),
  refl,
  refl,
)

prepend : (a b c : Coordinator) → LoopStep a b → LoopSteps b c → LoopSteps a c
prepend a b _ t (LoopSteps.done _) = LoopSteps.more a a b (LoopSteps.done a) t
prepend a b _ t (LoopSteps.more _ m c s u) = LoopSteps.more a m c (prepend a b m t s) u

from_finding :
    (c : Coordinator)
    → c.phase ≡ Phase.finding
    → (e : Coordinator) × LoopSteps c e × (e.dirty ≡ false) × (e.signals ≡ suc c.signals)
unfolding found_pid
from_finding c p =
    let (e, s, d, n) = from_killing (found_pid c) refl in
    (e, prepend c (found_pid c) e (LoopStep.find_succeeds c p) s, d, n)

from_selecting :
    (c : Coordinator)
    → c.phase ≡ Phase.selecting
    → (c.pending || c.retry) ≡ true
    → (e : Coordinator) × LoopSteps c e × (e.dirty ≡ false) × (e.signals ≡ suc c.signals)
unfolding take_pending take_retry
from_selecting c p q = elim (Bool-cases c.pending) [
  | inl a ↦
      let (e, s, d, n) = from_finding (take_pending c) refl in
      (e, prepend c (take_pending c) e (LoopStep.select_pending c p a) s, d, n)
  | inr a ↦
      let (e, s, d, n) = from_finding (take_retry c) refl in
      (e, prepend c (take_retry c) e (LoopStep.select_retry c p (ground (arith, a, q))) s, d, n)
]

from_phase :
    (f : Phase) (c : Coordinator)
    → c.phase ≡ f
    → is_stopped f ≡ false
    → IsCovered c
    → c.dirty ≡ true
    → (e : Coordinator) × LoopSteps c e × (e.dirty ≡ false) × (e.signals ≡ suc c.signals)
unfolding end_wait
from_phase Phase.selecting c p n h d = from_selecting c p (ground (arith, p, d, n, h.covered d))
from_phase Phase.finding c p n h d = from_finding c p
from_phase Phase.killing c p n h d = from_killing c p
from_phase Phase.waiting c p n h d =
    let (e, s, k, m) = from_selecting (end_wait c) refl (ground (arith, p, d, n, h.covered d)) in
    (e, prepend c (end_wait c) e (LoopStep.wait_ends c p) s, k, m)
from_phase Phase.stopped c p n h d = ground (arith, n)

-- From every state that the loop can reach, has not returned in, and in which a write has landed
-- that no signal followed, the loop's own steps alone, without another write, can end with no such
-- write and exactly one more signal.
pub reload_possible :
    (c : Coordinator)
    → Steps new_reload_coordinator c
    → c.dirty ≡ true
    → is_stopped c.phase ≡ false
    → (e : Coordinator) × LoopSteps c e × (e.dirty ≡ false) × (e.signals ≡ suc c.signals)
reload_possible c s d n =
    from_phase c.phase c refl n
      (Steps-IsCovered new_reload_coordinator c s
        (record { covered = λ x y. ground arith; timer = λ r. ground arith }))
      d
