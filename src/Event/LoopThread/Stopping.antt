-- ===== src/Event/LoopThread/Stopping.antt =====
-- event/LoopThread.cpp: `Stop`, over the steps of the thread's loop.
use knpnl.Prelude.{
  ℕ, ◌≡◌, ◌≢◌, refl, none, sym, subst, true, false, some, arith, inl, inr, Bool-cases,
}
use knpnl.Event.EventLoop.{
  Phase, stopped, EventLoop, set_quit, check_wakeup, wakeup, advance, quits, checks, wakes, Reach,
  next,
}
use knpnl.Event.EventLoop.Quitting.{quit_ends_loop}
use knpnl.Event.LoopThread.{LoopThread, quit, join, stop, destroy, pointed, unless_ended}

-- What the call leaves: a state that the loop may reach, with no caller in it, and the quit seen to.
record Told (l : EventLoop) : Type 0 where
  is_reached : Reach l
  no_check : l.checking ≡ 0
  no_wake : l.waking ≡ 0
  is_told : l.quit ≡ true

quit_unwoken : (l : EventLoop) → l.is_wakeup ≡ true → quit l ≡ check_wakeup (set_quit l)
unfolding quit
quit_unwoken l e = ground arith

quit_woken : (l : EventLoop) → l.is_wakeup ≡ false → quit l ≡ wakeup (check_wakeup (set_quit l))
unfolding quit
quit_woken l e = ground arith

asked-Reach : (l : EventLoop) → Reach l → Reach (check_wakeup (set_quit l))
unfolding set_quit
asked-Reach l r = next (next r quits) (checks (omega arith))

woken-Reach :
    (l : EventLoop) → l.is_wakeup ≡ false → Reach l → Reach (wakeup (check_wakeup (set_quit l)))
unfolding set_quit check_wakeup
woken-Reach l e r = next (asked-Reach l r) (wakes (ground arith))

asked-Told :
    (l : EventLoop)
    → l.is_wakeup ≡ true
    → Reach l
    → l.checking ≡ 0
    → l.waking ≡ 0
    → Told (check_wakeup (set_quit l))
unfolding set_quit check_wakeup
asked-Told l e r c w = record {
  is_reached = asked-Reach l r;
  no_check = ground arith;
  no_wake = ground arith;
  is_told = ground arith;
}

woken-Told :
    (l : EventLoop)
    → l.is_wakeup ≡ false
    → Reach l
    → l.checking ≡ 0
    → l.waking ≡ 0
    → Told (wakeup (check_wakeup (set_quit l)))
unfolding set_quit check_wakeup wakeup
woken-Told l e r c w = record {
  is_reached = woken-Reach l e r;
  no_check = ground arith;
  no_wake = ground arith;
  is_told = ground arith;
}

quit-Told : (l : EventLoop) → Reach l → l.checking ≡ 0 → l.waking ≡ 0 → Told (quit l)
quit-Told l r c w = elim (Bool-cases l.is_wakeup) [
  | inl e ↦ subst Told (sym (quit_unwoken l e)) (asked-Told l e r c w)
  | inr e ↦ subst Told (sym (quit_woken l e)) (woken-Told l e r c w)
]

join-stopped :
    (t : LoopThread) (l : EventLoop) (p : Phase)
    → p ≡ stopped
    → join t l p ≡ some (record t { loop = some l; is_stop = true })
unfolding join
join-stopped t l p e = rw e refl

-- `mLoop` of a loop that has not ended.
unless_ended-other : (l : EventLoop) (p : Phase) → p ≢ stopped → unless_ended l p ≡ some l
unfolding unless_ended
unless_ended-other l p h = ground arith

pointed-running :
    (t : LoopThread) (l : EventLoop) → t.loop ≡ some l → l.phase ≢ stopped → pointed t ≡ some l
unfolding pointed
pointed-running t l h p = rw (pointed, h) (unless_ended-other l l.phase p)

-- The thread has ended, and its loop with it.
pub record Ended (t : LoopThread) : Type 0 where
  pub loop : EventLoop
  pub known : t.loop ≡ some loop
  pub over : loop.phase ≡ stopped

-- Nothing is behind the pointer then.
pub destroy-Ended : (t : LoopThread) → Ended t → destroy t ≡ none
unfolding destroy pointed unless_ended
destroy-Ended t e = rw (destroy, pointed, e.known) (rw e.over refl)

-- `Stop` of a thread whose loop is built and has not ended, and is in a reachable state in which
-- no caller is between its push (or its `mQuit = true`) and its write: after a number of steps of
-- the thread alone its `join` has returned, `mStop` is set, and the loop has ended.
pub stop_returns :
    (t : LoopThread) (l : EventLoop)
    → t.loop ≡ some l
    → l.phase ≢ stopped
    → Reach l
    → l.checking ≡ 0
    → l.waking ≡ 0
    → (n : ℕ) × (t' : LoopThread) × (stop n t ≡ some t') × (t'.is_stop ≡ true) × Ended t'
unfolding stop
stop_returns t l h p r c w =
    let told = quit-Told l r c w in
    let (n, q, e) = quit_ends_loop told.is_reached told.no_check told.no_wake told.is_told in
    (
      n,
      record t { loop = some (advance n (quit l)); is_stop = true },
      rw (stop, pointed-running t l h p)
          (join-stopped t (advance n (quit l)) (advance n (quit l)).phase e),
      refl,
      record { loop = advance n (quit l); known = refl; over = e },
    )
