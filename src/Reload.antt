-- ===== src/Reload.antt =====
-- internal/pkg/nodeartifacts/reloadcoordinator.go: the loop that signals Falco after writes, as a
-- step relation. A step is a write that a caller notifies, or one arm of the loop.
pub mod Progress
pub mod Tests
use falco_operator.Common.{ℕ, suc, Bool, true, false, ◌||◌, ◌≡◌}

-- Where the loop stands: at its `select`, before `FindPID`, before the kill, waiting for Falco, or
-- returned.
pub data Phase : Type 0 where
  selecting finding killing waiting stopped : Phase

-- `pending` is the channel of capacity 1, `retry` the armed timer. `dirty` is what the loop is for:
-- a write has landed that no signal followed yet.
pub record Coordinator : Type 0 where
  pub phase : Phase
  pub pending : Bool
  pub retry : Bool
  pub dirty : Bool
  pub signals : ℕ

abbrev pub new_reload_coordinator : Coordinator
new_reload_coordinator = record {
  phase = Phase.selecting;
  pending = false;
  retry = false;
  dirty = false;
  signals = 0;
}

-- A write has landed and `NotifyWrite` fills the channel, or finds it full.
unfoldable pub notify_write : Coordinator → Coordinator
notify_write c = record c { pending = true; dirty = true }

-- `case <-rc.pending`, with `stopRetry`
unfoldable pub take_pending : Coordinator → Coordinator
take_pending c = record c { phase = Phase.finding; pending = false; retry = false }

-- `case <-retryC`
unfoldable pub take_retry : Coordinator → Coordinator
take_retry c = record c { phase = Phase.finding; retry = false }

-- A failed `FindPID` or kill arms the timer.
unfoldable pub arm_retry : Coordinator → Coordinator
arm_retry c = record c { phase = Phase.selecting; retry = true }

unfoldable pub found_pid : Coordinator → Coordinator
found_pid c = record c { phase = Phase.killing }

unfoldable pub send_signal : Coordinator → Coordinator
send_signal c = record c { phase = Phase.waiting; dirty = false; signals = suc c.signals }

-- Falco is ready, or the wait timed out.
unfoldable pub end_wait : Coordinator → Coordinator
end_wait c = record c { phase = Phase.selecting }

unfoldable pub stop : Coordinator → Coordinator
stop c = record c { phase = Phase.stopped; retry = false }

-- One arm of the loop: what it does by itself, and how the system answers it.
pub data LoopStep : Coordinator → Coordinator → Type 0 where
  select_pending :
      (c : Coordinator) → c.phase ≡ Phase.selecting → c.pending ≡ true → LoopStep c (take_pending c)
  select_retry :
      (c : Coordinator) → c.phase ≡ Phase.selecting → c.retry ≡ true → LoopStep c (take_retry c)
  select_done : (c : Coordinator) → c.phase ≡ Phase.selecting → LoopStep c (stop c)
  find_fails : (c : Coordinator) → c.phase ≡ Phase.finding → LoopStep c (arm_retry c)
  find_succeeds : (c : Coordinator) → c.phase ≡ Phase.finding → LoopStep c (found_pid c)
  kill_fails : (c : Coordinator) → c.phase ≡ Phase.killing → LoopStep c (arm_retry c)
  kill_succeeds : (c : Coordinator) → c.phase ≡ Phase.killing → LoopStep c (send_signal c)
  wait_ends : (c : Coordinator) → c.phase ≡ Phase.waiting → LoopStep c (end_wait c)
  wait_done : (c : Coordinator) → c.phase ≡ Phase.waiting → LoopStep c (stop c)

pub data Step : Coordinator → Coordinator → Type 0 where
  write : (c : Coordinator) → Step c (notify_write c)
  loop : (a b : Coordinator) → LoopStep a b → Step a b

pub data Steps : Coordinator → Coordinator → Type 0 where
  done : (c : Coordinator) → Steps c c
  more : (a b c : Coordinator) → Steps a b → Step b c → Steps a c

abbrev pub is_trying : Phase → Bool
is_trying Phase.selecting = false
is_trying Phase.finding = true
is_trying Phase.killing = true
is_trying Phase.waiting = false
is_trying Phase.stopped = false

abbrev pub is_stopped : Phase → Bool
is_stopped Phase.selecting = false
is_stopped Phase.finding = false
is_stopped Phase.killing = false
is_stopped Phase.waiting = false
is_stopped Phase.stopped = true

-- A reload is under way or asked for.
abbrev pub will_reload : Coordinator → Bool
will_reload c = is_trying c.phase || (c.pending || c.retry)
