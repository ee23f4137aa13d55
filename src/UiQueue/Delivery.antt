-- ===== src/UiQueue/Delivery.antt =====
-- What the UI thread is handed over a run of queue.go, whatever the order of the steps.
use effexor_win_doctor.Prelude.{
  ◌≡◌, refl, ◌∙◌, Bool, true, false, Option, none, some, List, [], ◌∷◌, ◌++◌, arith, is_some, ◌||◌,
  if◌then◌else◌, append-nil,
}
use effexor_win_doctor.UiQueue.{Queue, new, reset, push_progress, push_terminal, drain, receive}

-- One locked call of a worker or of the UI thread, or the UI thread's receive.
pub data Op (P R : Type 0) : Type 0 where
  progress : P → Op P R
  terminal : R → Op P R
  drained : Op P R
  received : Op P R
  restarted : Op P R

-- A run: the queue, whether the UI thread has a signal that it has not answered by a drain yet,
-- and what it was handed since the last reset.
pub record Run (P R : Type 0) : Type 0 where
  pub queue : Queue P R
  pub awake : Bool
  pub shown : List P
  pub finished : List R

abbrev pub pending {ℓ} : {A : Type ℓ} → Option A → List A
pending none = []
pending (some a) = a ∷ []

append-eq-nil {ℓ} : {A : Type ℓ} (xs ys : List A) → xs ++ ys ≡ [] → xs ≡ []
append-eq-nil [] ys h = refl
append-eq-nil (x ∷ xs) ys h = cc

module _ {P R : Type 0} where
  unfoldable pub start : Run P R
  unfolding new
  start = record { queue = new; awake = false; shown = []; finished = [] }

  unfoldable pub step : Run P R → Op P R → Run P R
  unfolding push_progress push_terminal drain receive reset
  step s (progress p) = record s { queue = (push_progress s.queue p).0 }
  step s (terminal r) = record s { queue = push_terminal s.queue r }
  step s drained =
      let (q, p, r) = drain s.queue in
      record {
        queue = q;
        awake = false;
        shown = s.shown ++ pending p;
        finished = s.finished ++ pending r;
      }
  step s received = record s {
    queue = receive s.queue;
    awake = if s.queue.signal then true else s.awake;
  }
  step s restarted = record { queue = reset s.queue; awake = s.awake; shown = []; finished = [] }

  unfoldable pub run : Run P R → List (Op P R) → Run P R
  run s [] = s
  run s (o ∷ os) = run (step s o) os

  -- The first result pushed since the last reset.
  abbrev pub first_step : Option R → Op P R → Option R
  first_step none (terminal r) = some r
  first_step (some r) (terminal r') = some r
  first_step f restarted = none
  first_step f _ = f

  pub first_pushed : Option R → List (Op P R) → Option R
  first_pushed f [] = f
  first_pushed f (o ∷ os) = first_pushed (first_step f o) os

  -- What holds between two steps.
  pub record Inv (s : Run P R) (first : Option R) : Type 0 where
    pub set_iff : s.queue.terminal_set ≡ is_some first
    pub accounted : s.finished ++ pending s.queue.terminal ≡ pending first
    pub quiet : s.queue.terminal_set ≡ true → s.queue.latest_progress ≡ none
    pub woken :
        is_some s.queue.latest_progress || is_some s.queue.terminal ≡ true
        → s.queue.signal || s.awake ≡ true

  start-Inv : Inv start none
  unfolding start
  start-Inv = ground arith

  step-Inv : (s : Run P R) (f : Option R) (o : Op P R) → Inv s f → Inv (step s o) (first_step f o)
  unfolding step
  step-Inv s none (progress p) h = ground arith
  step-Inv s (some r) (progress p) h = ground arith
  step-Inv s none (terminal r) h =
      ground (arith, append-eq-nil s.finished (pending s.queue.terminal) h.accounted)
  step-Inv s (some r') (terminal r) h = ground arith
  step-Inv s none drained h = ground (arith, append-nil (s.finished ++ pending s.queue.terminal))
  step-Inv s (some r) drained h =
      ground (arith, append-nil (s.finished ++ pending s.queue.terminal))
  step-Inv s none received h = ground arith
  step-Inv s (some r) received h = ground arith
  step-Inv s none restarted h = ground arith
  step-Inv s (some r) restarted h = ground arith

  run-Inv :
      (s : Run P R) (f : Option R) (os : List (Op P R))
      → Inv s f
      → Inv (run s os) (first_pushed f os)
  unfolding run first_pushed
  run-Inv s f [] h = h
  run-Inv s f (o ∷ os) h = run-Inv (step s o) (first_step f o) os (step-Inv s f o h)

  -- After any calls in any order, what was handed over since the last reset, with what is still
  -- pending, is the first result pushed since then: it is neither lost nor replaced nor doubled.
  pub terminal_exactly_once :
      (os : List (Op P R))
      → (run start os).finished ++ pending (run start os).queue.terminal
        ≡ pending (first_pushed none os)
  terminal_exactly_once os = (run-Inv start none os start-Inv).accounted

  -- After any calls, pending work always has a signal in the channel, or the UI thread has taken
  -- one and not drained yet: no wakeup is lost.
  pub pending_has_wakeup :
      (os : List (Op P R))
      → is_some (run start os).queue.latest_progress || is_some (run start os).queue.terminal ≡ true
      → (run start os).queue.signal || (run start os).awake ≡ true
  pending_has_wakeup os = (run-Inv start none os start-Inv).woken

  -- `restarted` does not stand in the run.
  abbrev pub NoReset : List (Op P R) → Type 0
  NoReset [] = Unit
  NoReset (restarted ∷ os) = ⊥
  NoReset (o ∷ os) = NoReset os

  step_after_terminal :
      (s : Run P R) (o : Op P R) (os : List (Op P R))
      → NoReset (o ∷ os)
      → s.queue.terminal_set ≡ true
      → s.queue.latest_progress ≡ none
      → ((step s o).queue.terminal_set ≡ true)
        × ((step s o).queue.latest_progress ≡ none)
        × ((step s o).shown ≡ s.shown)
        × NoReset os
  unfolding step
  step_after_terminal s (progress p) os n t q = (ground arith, ground arith, ground arith, n)
  step_after_terminal s (terminal r) os n t q = (ground arith, ground arith, ground arith, n)
  step_after_terminal s drained os n t q =
      (ground arith, ground arith, ground (arith, append-nil s.shown), n)
  step_after_terminal s received os n t q = (ground arith, ground arith, ground arith, n)
  step_after_terminal s restarted os n t q = elim n [ ]

  shown_after_terminal :
      (s : Run P R) (os : List (Op P R))
      → NoReset os
      → s.queue.terminal_set ≡ true
      → s.queue.latest_progress ≡ none
      → (run s os).shown ≡ s.shown
  unfolding run
  shown_after_terminal s [] n t q = refl
  shown_after_terminal s (o ∷ os) n t q =
      let (t', q', e, n') = step_after_terminal s o os n t q in
      shown_after_terminal (step s o) os n' t' q' ∙ e

  push_terminal_sets :
      (s : Run P R) (f : Option R) (r : R)
      → Inv s f
      → ((step s (terminal r)).queue.terminal_set ≡ true)
        × ((step s (terminal r)).queue.latest_progress ≡ none)
        × ((step s (terminal r)).shown ≡ s.shown)
  unfolding step
  push_terminal_sets s f r h = ground arith

  -- From any reachable queue, once a result is pushed no progress reaches the UI thread until a
  -- reset, whatever is pushed and drained in between.
  pub no_progress_after_terminal :
      (before after : List (Op P R)) (r : R)
      → NoReset after
      → (run (step (run start before) (terminal r)) after).shown ≡ (run start before).shown
  no_progress_after_terminal before after r n =
      let s = run start before in
      let (t, q, e) =
        push_terminal_sets s (first_pushed none before) r (run-Inv start none before start-Inv) in
      shown_after_terminal (step s (terminal r)) after n t q ∙ e
