-- ===== src/UiQueue.antt =====
-- The UI event queue, internal/shell/uiqueue/queue.go. The queue's mutex makes each method one
-- step, so a run of the program is a sequence of steps; the buffered channel of capacity one is
-- the flag `signal`. A progress screen and a result are copied and never read by the queue, so
-- their types are parameters.
pub mod Delivery
use effexor_win_doctor.Prelude.{
  Bool, true, false, Option, none, some, List, [], ◌∷◌, ◌++◌, if◌then◌else◌,
}

pub record Queue (P R : Type 0) : Type 0 where
  pub latest_progress : Option P
  pub terminal : Option R
  pub terminal_set : Bool
  pub signal : Bool

module _ {P R : Type 0} where
  new : Queue P R
  new = record { latest_progress = none; terminal = none; terminal_set = false; signal = false }

  nudge : Queue P R → Queue P R
  nudge q = record q { signal = true }

  -- the receive from the channel does not wait
  reset : Queue P R → Queue P R
  reset q = record { latest_progress = none; terminal = none; terminal_set = false; signal = false }

  push_progress : Queue P R → P → Queue P R × Bool
  unfolding nudge
  push_progress q p =
      if q.terminal_set then (q, false) else (nudge (record q { latest_progress = some p }), true)

  store_terminal : Queue P R → R → Queue P R
  store_terminal q r =
      if q.terminal_set
      then q
      else record q { terminal = some r; terminal_set = true; latest_progress = none }

  push_terminal : Queue P R → R → Queue P R
  unfolding nudge store_terminal
  push_terminal q r = nudge (store_terminal q r)

  has_terminal : Queue P R → Bool
  has_terminal q = q.terminal_set

  -- What is pending is returned and cleared; `terminal_set` stays.
  drain : Queue P R → Queue P R × Option P × Option R
  drain q = (record q { latest_progress = none; terminal = none }, q.latest_progress, q.terminal)

  -- The UI thread takes the signal off the channel that `WaitC` returns.
  receive : Queue P R → Queue P R
  receive q = record q { signal = false }
