-- ===== src/Event/EventLoop/Progress.antt =====
-- event/EventLoop.cpp, `Loop`: what the loop's thread gets done by its own steps.
use mathlib.Core.List.{append-nil}
use knpnl.Prelude.{
  ℕ, zero, suc, ◌≡◌, ◌≢◌, ◌⊎◌, inl, inr, refl, ◌∙◌, Bool, true, false, List, [], ◌∷◌, arith,
  Bool-cases,
}
use knpnl.Event.EventLoop.{
  Phase, testing, polling, handling, running, stopped, EventLoop, test_quit, poll_returned,
  take_tasks, run_task, end_round, Step, tests, polled, takes, runs, rounds, loop_step, advance,
  Reach, next,
}
use knpnl.Event.EventLoop.Wakeup.{Inv, Reach-Inv, Step-Inv}

-- No caller is in the middle of a call.
pub record Quiet (q : Bool) (l : EventLoop) : Type 0 where
  pub inv : Inv l
  pub no_check : l.checking ≡ 0
  pub no_wake : l.waking ≡ 0
  pub quit_is : l.quit ≡ q

pub own-Quiet :
    {q : Bool} {l m : EventLoop}
    → Step l m
    → m.checking ≡ l.checking
    → m.waking ≡ l.waking
    → m.quit ≡ l.quit
    → Quiet q l
    → Quiet q m
own-Quiet s c w e v = record {
  inv = Step-Inv s v.inv;
  no_check = c ∙ v.no_check;
  no_wake = w ∙ v.no_wake;
  quit_is = e ∙ v.quit_is;
}

pub at_testing : (l : EventLoop) → l.phase ≡ testing → loop_step l ≡ test_quit l
unfolding loop_step
at_testing l e = rw e refl

pub at_polling : (l : EventLoop) → l.phase ≡ polling → l.edge ≡ true → loop_step l ≡ poll_returned l
unfolding loop_step
at_polling l e f = rw (e, f) refl

pub at_handling : (l : EventLoop) → l.phase ≡ handling → loop_step l ≡ take_tasks l
unfolding loop_step
at_handling l e = rw e refl

at_batch :
    (l : EventLoop) (t : ℕ) (b : List ℕ)
    → l.phase ≡ running
    → l.batch ≡ t ∷ b
    → loop_step l ≡ run_task l t b
unfolding loop_step
at_batch l t b e f = rw (e, f) refl

at_end : (l : EventLoop) → l.phase ≡ running → l.batch ≡ [] → loop_step l ≡ end_round l
unfolding loop_step
at_end l e f = rw (e, f) refl

at_rest :
    (l : EventLoop)
    → (l.phase ≡ stopped) ⊎ ((l.phase ≡ polling) × (l.edge ≡ false))
    → loop_step l ≡ l
unfolding loop_step
at_rest l (inl e) = rw e refl
at_rest l (inr (e, f)) = rw (e, f) refl

loop_step-Reach : (l : EventLoop) → Reach l → Reach (loop_step l)
loop_step-Reach l r = by_phase l.phase l.batch refl refl
  where
    by_phase : (p : Phase) (b : List ℕ) → l.phase ≡ p → l.batch ≡ b → Reach (loop_step l)
    by_phase testing b e f = rw (at_testing l e) (next r (tests e))
    by_phase polling b e f = elim (Bool-cases l.edge) [
      | inl h ↦ rw (at_polling l e h) (next r (polled e))
      | inr h ↦ rw (at_rest l (inr (e, h))) r
    ]
    by_phase handling b e f = rw (at_handling l e) (next r (takes e))
    by_phase running [] e f = rw (at_end l e f) (next r (rounds e f))
    by_phase running (t ∷ b) e f = rw (at_batch l t b e f) (next r (runs t b e f))
    by_phase stopped b e f = rw (at_rest l (inl e)) r

pub advance-Reach : (n : ℕ) (l : EventLoop) → Reach l → Reach (advance n l)
unfolding advance
advance-Reach zero l r = r
advance-Reach (suc n) l r = advance-Reach n (loop_step l) (loop_step-Reach l r)

-- The loop's thread alone gets to such a state.
abbrev pub Eventually : (EventLoop → Type 0) → EventLoop → Type 0
Eventually P l = (n : ℕ) × P (advance n l)

module _ (P : EventLoop → Type 0) where
  pub now : (l : EventLoop) → P l → Eventually P l
  unfolding advance
  now l h = (0, h)

  pub after : (l m : EventLoop) → loop_step l ≡ m → Eventually P m → Eventually P l
  unfolding advance
  after l m e (n, h) = (suc n, rw e h)

  -- Through the batch.
  pub through_batch :
      (q : Bool) (b : List ℕ) (l : EventLoop)
      → Quiet q l
      → l.phase ≡ running
      → l.batch ≡ b
      → ((m : EventLoop)
          → Quiet q m
          → m.phase ≡ testing
          → m.tasks ≡ l.tasks
          → m.asked ≡ l.asked
          → Eventually P m)
      → Eventually P l
  unfolding run_task end_round
  through_batch q [] l v e f k =
      after l (end_round l) (at_end l e f)
        (k (end_round l) (own-Quiet (rounds e f) refl refl refl v) refl refl refl)
  through_batch q (t ∷ b) l v e f k =
      after l (run_task l t b) (at_batch l t b e f)
        (through_batch q b (run_task l t b) (own-Quiet (runs t b e f) refl refl refl v) e refl k)

-- Every task that was queued has been run.
abbrev pub AllRun : List ℕ → EventLoop → Type 0
AllRun a l = l.done ≡ a

all_run : (l : EventLoop) → Inv l → l.phase ≢ running → l.tasks ≡ [] → l.done ≡ l.asked
all_run l v e f = ground (arith, append-nil l.done)

-- Behind the swap of `doTask`: when the batch is done, so is everything.
from_running_last :
    (a : List ℕ) (l : EventLoop)
    → Quiet false l
    → l.asked ≡ a
    → l.phase ≡ running
    → l.tasks ≡ []
    → Eventually (AllRun a) l
from_running_last a l v o e f =
    through_batch (AllRun a) false l.batch l v e refl
      (λ m w g t h. now (AllRun a) m (all_run m w.inv (ground arith) (t ∙ f) ∙ (h ∙ o)))

from_handling :
    (a : List ℕ) (l : EventLoop)
    → Quiet false l
    → l.asked ≡ a
    → l.phase ≡ handling
    → Eventually (AllRun a) l
unfolding take_tasks
from_handling a l v o e =
    after (AllRun a) l (take_tasks l) (at_handling l e)
      (from_running_last a (take_tasks l) (own-Quiet (takes e) refl refl refl v) o refl refl)

from_polling :
    (a : List ℕ) (l : EventLoop)
    → Quiet false l
    → l.asked ≡ a
    → l.phase ≡ polling
    → Eventually (AllRun a) l
unfolding poll_returned
from_polling a l v o e = go l.tasks refl
  where
    go : (ts : List ℕ) → l.tasks ≡ ts → Eventually (AllRun a) l
    go [] f = now (AllRun a) l (all_run l v.inv (ground arith) f ∙ o)
    go (t ∷ ts) f =
        after (AllRun a) l (poll_returned l) (at_polling l e (ground arith))
          (from_handling a (poll_returned l) (own-Quiet (polled e) refl refl refl v) o refl)

from_testing :
    (a : List ℕ) (l : EventLoop)
    → Quiet false l
    → l.asked ≡ a
    → l.phase ≡ testing
    → Eventually (AllRun a) l
unfolding test_quit
from_testing a l v o e =
    after (AllRun a) l (record l { phase = polling }) (at_testing l e ∙ rw v.quit_is refl)
      (from_polling a (record l { phase = polling })
        (record {
          inv = ground arith;
          no_check = v.no_check;
          no_wake = v.no_wake;
          quit_is = v.quit_is;
        })
        o refl)

from_running :
    (a : List ℕ) (l : EventLoop)
    → Quiet false l
    → l.asked ≡ a
    → l.phase ≡ running
    → Eventually (AllRun a) l
from_running a l v o e =
    through_batch (AllRun a) false l.batch l v e refl (λ m w g t h. from_testing a m w (h ∙ o) g)

-- In each reachable state in which no caller is between its push (or its `mQuit = true`) and its
-- write, and no quit was asked for: a number of steps of the loop's thread alone leads to a
-- state, reachable too, in which exactly the tasks that were queued have been run, in order. A
-- wait in `poll` without an event is a step that changes nothing.
pub tasks_get_run :
    {l : EventLoop}
    → Reach l
    → l.checking ≡ 0
    → l.waking ≡ 0
    → l.quit ≡ false
    → (n : ℕ) × Reach (advance n l) × ((advance n l).done ≡ l.asked)
tasks_get_run {l} r c w e =
    let (n, h) =
      by_phase l.phase refl
        (record { inv = Reach-Inv r; no_check = c; no_wake = w; quit_is = e }) in
    (n, advance-Reach n l r, h)
  where
    by_phase : (p : Phase) → l.phase ≡ p → Quiet false l → Eventually (AllRun l.asked) l
    by_phase testing e v = from_testing l.asked l v refl e
    by_phase polling e v = from_polling l.asked l v refl e
    by_phase handling e v = from_handling l.asked l v refl e
    by_phase running e v = from_running l.asked l v refl e
    by_phase stopped e v = absurd (ground arith)
