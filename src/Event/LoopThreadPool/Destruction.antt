-- ===== src/Event/LoopThreadPool/Destruction.antt =====
-- What `~LoopThreadPool` comes to.
use knpnl.Prelude.{ℕ, ◌≡◌, ◌≢◌, refl, none, some, List, [], ◌∷◌, map, arith}
use knpnl.Event.EventLoop.{EventLoop, Reach, stopped}
use knpnl.Event.LoopThread.{LoopThread, stop, destroy}
use knpnl.Event.LoopThread.Stopping.{stop_returns, destroy-Ended}
use knpnl.Event.LoopThreadPool.{stop_after, stop_all, destroy_all}

-- The thread has built its loop, which has not ended, with no caller before its write.
pub record IsBuilt (t : LoopThread) : Type 0 where
  pub loop : EventLoop
  pub known : t.loop ≡ some loop
  pub runs : loop.phase ≢ stopped
  pub reached : Reach loop
  pub no_check : loop.checking ≡ 0
  pub no_wake : loop.waking ≡ 0

abbrev pub AllBuilt : List LoopThread → Type 0
AllBuilt [] = Unit
AllBuilt (t ∷ ts) = IsBuilt t × AllBuilt ts

stop_all-next :
    (n : ℕ) (t t' : LoopThread) (run : List (ℕ × LoopThread)) (ts : List LoopThread)
    → stop n t ≡ some t'
    → stop_all run ≡ some ts
    → stop_all ((n, t) ∷ run) ≡ some (t' ∷ ts)
unfolding stop_all stop_after
stop_all-next n t t' run ts e es = ground arith

destroy_all-first :
    (t : LoopThread) (ts : List LoopThread) → destroy t ≡ none → destroy_all (t ∷ ts) ≡ none
unfolding destroy_all
destroy_all-first t ts e = ground arith

-- Each `Stop` returns when its thread makes enough steps.
stop_all_returns :
    (ts : List LoopThread)
    → AllBuilt ts
    → (run : List (ℕ × LoopThread)) × (ts' : List LoopThread) × (map (λ r. r.1) run ≡ ts)
      × (stop_all run ≡ some ts')
unfolding stop_all
stop_all_returns [] b = ([], [], refl, refl)
stop_all_returns (t ∷ ts) (b, bs) =
    let (n, t', e, d, x) = stop_returns t b.loop b.known b.runs b.reached b.no_check b.no_wake in
    let (run, ts', same, es) = stop_all_returns ts bs in
    ((n, t) ∷ run, t' ∷ ts', rw same refl, stop_all-next n t t' run ts' e es)

-- The end of a pool of one or more threads whose loops are built and have not ended, where each
-- loop is in a reachable state in which no caller is between its push (or its `mQuit = true`) and
-- its write: each `Stop` of `~LoopThreadPool` returns after a number of steps of its thread, but
-- the destruction of `mLoopList` behind them calls `Quit` through a pointer to a loop that has
-- ended.
pub stop_all-destroy_all :
    (t : LoopThread) (ts : List LoopThread)
    → AllBuilt (t ∷ ts)
    → (run : List (ℕ × LoopThread)) × (ts' : List LoopThread) × (map (λ r. r.1) run ≡ t ∷ ts)
      × (stop_all run ≡ some ts')
      × (destroy_all ts' ≡ none)
stop_all-destroy_all t ts (b, bs) =
    let (n, t', e, d, x) = stop_returns t b.loop b.known b.runs b.reached b.no_check b.no_wake in
    let (run, ts', same, es) = stop_all_returns ts bs in
    (
      (n, t) ∷ run,
      t' ∷ ts',
      rw same refl,
      stop_all-next n t t' run ts' e es,
      destroy_all-first t' ts' (destroy-Ended t' x),
    )
