-- ===== src/Event/TimerQueue/Pending.antt =====
-- The turn of an expired timer: it is set for another time and put back, or deleted.
use knpnl.Prelude.{
  ℕ, ◌<◌, ◌≡◌, ◌≢◌, refl, Option, none, some, List, ◌∷◌, Bool-cases, inl, inr, arith,
}
use knpnl.Event.TimerQueue.{
  place, Timer, TimerQueue, TimerEntry, update, renew, restart, uintptr_max,
}
use knpnl.Event.TimerQueue.Order.{sorted, proper, Each, Each-weaken, Each-both, tail-Each}
use knpnl.Event.TimerQueue.Valid.{OfTimer, Waiting, Entered, Sound}
use knpnl.Event.TimerQueue.Changes.{Apart, place-Sound, kept_ids}

module _ {q : TimerQueue} {ts a : ℕ} {ex : List TimerEntry} (v : Sound q ((ts, a) ∷ ex))
    (w : Waiting q.heap q.id_map ts a) (rest : Each (Waiting q.heap q.id_map) ex) where
  open v use {recorded, entered, own_ids}

  behind : Apart a ex
  behind =
      tail-Each ts a (λ u b x d e. ground (arith, w.on_heap, w.its_time, x.on_heap, x.its_time))
        v.pending_ordered rest

  -- Only the cell of the timer changes.
  module _ (x : Option Timer) where
    abbrev reheaped : TimerQueue
    reheaped = record q { heap = update q.heap a x }

    reheaped-OfTimer : (u b : ℕ) → OfTimer q.heap q.id_map u b → OfTimer reheaped.heap q.id_map u b
    reheaped-OfTimer u b o = record {
      timer = o.timer;
      on_heap = ground (arith, o.on_heap, o.mapped, w.on_heap, w.unmapped);
      its_time = o.its_time;
      mapped = o.mapped;
    }

    reheaped-Waiting :
        (u b : ℕ) → Waiting q.heap q.id_map u b × (b ≢ a) → Waiting reheaped.heap q.id_map u b
    reheaped-Waiting u b (o, ne) = record {
      timer = o.timer;
      on_heap = ground (arith, o.on_heap);
      its_time = o.its_time;
      unmapped = o.unmapped;
    }

    reheaped-Entered : (k b : ℕ) → q.id_map k ≡ some b → Entered reheaped k b
    reheaped-Entered k b e =
        let o = entered k b e in
        record {
          timer = o.timer;
          on_heap = ground (arith, o.on_heap, o.its_id, w.on_heap, w.unmapped);
          its_id = o.its_id;
          in_set = o.in_set;
        }

    reheaped-Sound :
        ((b c : ℕ) (y z : Timer)
          → update q.heap a x b ≡ some y
          → update q.heap a x c ≡ some z
          → y.timer_id ≡ z.timer_id
          → b ≡ c)
        → Sound reheaped ex
    unfolding sorted proper
    reheaped-Sound own = record {
      ordered = v.ordered;
      addresses = v.addresses;
      recorded = Each-weaken reheaped-OfTimer recorded;
      same_size = v.same_size;
      entered = reheaped-Entered;
      own_ids = own;
      pending = Each-weaken reheaped-Waiting (Each-both rest behind);
      pending_ordered = ground (arith, v.pending_ordered);
      pending_addresses = ground (arith, v.pending_addresses);
    }

  its_address : a < uintptr_max
  unfolding proper
  its_address = ground (arith, v.pending_addresses)

  same_id : (now : ℕ) → (restart w.timer now).timer_id ≡ w.timer.timer_id
  same_id now = ground arith

  restarted-Sound :
      (now : ℕ) → Sound (place (reheaped (some (restart w.timer now))) a (restart w.timer now)) ex
  restarted-Sound now =
      let t' = restart w.timer now in
      place-Sound (reheaped-Sound (some t') (kept_ids v a w.timer w.on_heap t' (same_id now))) a t'
        (ground arith) (rw (same_id now) w.unmapped) its_address behind

  -- A timer that does not repeat is deleted; one that does is put back at its new time.
  pub renew-Sound : (now : ℕ) → (q' : TimerQueue) × (renew q a now ≡ some q') × Sound q' ex
  unfolding renew
  renew-Sound now = elim (Bool-cases w.timer.is_repeat) [
    | inl e ↦ (
      place (reheaped (some (restart w.timer now))) a (restart w.timer now),
      rw (renew, w.on_heap) (rw e refl),
      restarted-Sound now,
    )
    | inr e ↦ (
      reheaped none,
      rw (renew, w.on_heap) (rw e refl),
      reheaped-Sound none (λ b c y z i j s. grind (arith, own_ids b c y z)),
    )
  ]
