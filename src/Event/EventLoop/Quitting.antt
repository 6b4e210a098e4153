-- ===== src/Event/EventLoop/Quitting.antt =====
-- event/EventLoop.cpp, `Loop`: what becomes of it once a quit was asked for.
use knpnl.Prelude.{ℕ, ◌≡◌, refl, ◌∙◌, true, arith}
use knpnl.Event.EventLoop.{
  Phase, testing, polling, handling, running, stopped, EventLoop, test_quit, poll_returned,
  take_tasks, polled, takes, advance, Reach,
}
use knpnl.Event.EventLoop.Wakeup.{Reach-Inv}
use knpnl.Event.EventLoop.Progress.{
  Quiet, own-Quiet, at_testing, at_polling, at_handling, advance-Reach, Eventually, now, after,
  through_batch,
}

-- The loop has ended.
abbrev pub HasStopped : EventLoop → Type 0
HasStopped l = l.phase ≡ stopped

stops_testing : (l : EventLoop) → Quiet true l → l.phase ≡ testing → Eventually HasStopped l
unfolding test_quit
stops_testing l v e =
    after HasStopped l (record l { phase = stopped }) (at_testing l e ∙ rw v.quit_is refl)
      (now HasStopped (record l { phase = stopped }) refl)

stops_running : (l : EventLoop) → Quiet true l → l.phase ≡ running → Eventually HasStopped l
stops_running l v e =
    through_batch HasStopped true l.batch l v e refl (λ m w g t h. stops_testing m w g)

stops_handling : (l : EventLoop) → Quiet true l → l.phase ≡ handling → Eventually HasStopped l
unfolding take_tasks
stops_handling l v e =
    after HasStopped l (take_tasks l) (at_handling l e)
      (stops_running (take_tasks l) (own-Quiet (takes e) refl refl refl v) refl)

stops_polling : (l : EventLoop) → Quiet true l → l.phase ≡ polling → Eventually HasStopped l
unfolding poll_returned
stops_polling l v e =
    after HasStopped l (poll_returned l) (at_polling l e (ground arith))
      (stops_handling (poll_returned l) (own-Quiet (polled e) refl refl refl v) refl)

-- In each reachable state in which no caller is between its push (or its `mQuit = true`) and its
-- write, and a quit was asked for: a number of steps of the loop's thread alone leads to a state,
-- reachable too, in which `Loop` has returned.
pub quit_ends_loop :
    {l : EventLoop}
    → Reach l
    → l.checking ≡ 0
    → l.waking ≡ 0
    → l.quit ≡ true
    → (n : ℕ) × Reach (advance n l) × ((advance n l).phase ≡ stopped)
quit_ends_loop {l} r c w e =
    let (n, h) =
      by_phase l.phase refl
        (record { inv = Reach-Inv r; no_check = c; no_wake = w; quit_is = e }) in
    (n, advance-Reach n l r, h)
  where
    by_phase : (p : Phase) → l.phase ≡ p → Quiet true l → Eventually HasStopped l
    by_phase testing e v = stops_testing l v e
    by_phase polling e v = stops_polling l v e
    by_phase handling e v = stops_handling l v e
    by_phase running e v = stops_running l v e
    by_phase stopped e v = now HasStopped l e
