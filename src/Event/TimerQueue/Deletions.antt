-- ===== src/Event/TimerQueue/Deletions.antt =====
-- `deleteTimer` on a valid queue.
use knpnl.Prelude.{
  ℕ, ◌<◌, ◌≡◌, refl, ◌∙◌, Bool, true, false, Option, none, some, List, [], ◌∷◌, length, arith,
}
use knpnl.Event.TimerQueue.{
  taken_out, finish_delete, Timer, TimerQueue, TimerEntry, set_erase, is_head, delete_timer, rearm,
}
use knpnl.Event.TimerQueue.Order.{has_entry, length-set_erase}
use knpnl.Event.TimerQueue.Valid.{Sound, Armed}
use knpnl.Event.TimerQueue.Changes.{removed-Sound}
use knpnl.Event.TimerQueue.Operations.{set_erase-Armed, rearmed-Sound, check_sizes-Sound, Done}

delete_timer-eq :
    (q : TimerQueue) (a : ℕ) (t : Timer)
    → q.heap a ≡ some t
    → delete_timer q a ≡ finish_delete (is_head q.timer_set a) (taken_out q a t)
unfolding delete_timer
delete_timer-eq q a t h = rw (delete_timer, h) refl

-- A timer that was deleted cannot be deleted again.
delete_timer_freed : (q : TimerQueue) (a : ℕ) → q.heap a ≡ none → delete_timer q a ≡ none
unfolding delete_timer
delete_timer_freed q a h = rw (delete_timer, h) refl

only_entry :
    (u b : ℕ) (s : List TimerEntry)
    → has_entry (u, b) s ≡ true
    → length s ≡ 1
    → (is_head s b ≡ true) × (set_erase (u, b) s ≡ [])
unfolding has_entry set_erase
only_entry u b [] h k = ground arith
only_entry u b ((t, a) ∷ []) h k = ground arith
only_entry u b ((t, a) ∷ x ∷ s) h k = absurd (omega arith)

finish_delete-empty : (q : TimerQueue) → q.timer_set ≡ [] → finish_delete true q ≡ none
unfolding finish_delete
finish_delete-empty q h = ground arith

pub rearm_head :
    (q : TimerQueue) (e : TimerEntry) (s : List TimerEntry)
    → q.timer_set ≡ e ∷ s
    → rearm q ≡ some (record q { armed = some e.0 })
unfolding rearm
rearm_head q e s h = ground arith

-- The end of a deletion that leaves a timer.
finish_delete-some :
    {ex : List TimerEntry} (head : Bool) (q : TimerQueue)
    → Sound q ex
    → 0 < length q.timer_set
    → (o : Option ℕ) × (finish_delete head q ≡ some (record q { armed = o }))
      × (Armed q.armed q.timer_set → Armed o q.timer_set)
unfolding finish_delete
finish_delete-some false q v n = (q.armed, check_sizes-Sound q v, λ o. o)
finish_delete-some {ex} true q v n = first q.timer_set refl
  where
    first :
        (s : List TimerEntry)
        → q.timer_set ≡ s
        → (o : Option ℕ) × (finish_delete true q ≡ some (record q { armed = o }))
          × (Armed q.armed q.timer_set → Armed o q.timer_set)
    first [] e = absurd (ground arith)
    first (x ∷ s) e = (
      some x.0,
      rw (finish_delete, rearm_head q x s e) (check_sizes-Sound _ (rearmed-Sound (some x.0) v)),
      (λ o. rw e (omega arith)),
    )

-- `deleteTimer` of a timer in the map of a valid queue: for the only timer there is no defined
-- end; with two timers or more it returns, the queue stays valid and the id is unknown, a
-- descriptor that was not set too late is not set too late afterwards, and deleting the timer
-- again is a use of freed memory.
pub delete_timer-Done :
    {q : TimerQueue} {ex : List TimerEntry} (k a : ℕ)
    → Sound q ex
    → q.id_map k ≡ some a
    → (length q.timer_set ≡ 1 → delete_timer q a ≡ none)
      × (1 < length q.timer_set
          → (d : Done q ex (delete_timer q a)) × (d.after.id_map k ≡ none)
            × (delete_timer d.after a ≡ none))
unfolding taken_out
delete_timer-Done {q} {ex} k a v e =
    let n = v.entered k a e in
    let t = n.timer in
    let m : q.id_map t.timer_id ≡ some a = rw n.its_id e in
    (
      (λ l.
          let (head, empty) = only_entry t.expired a q.timer_set n.in_set l in
          delete_timer-eq q a t n.on_heap ∙ rw head (finish_delete-empty (taken_out q a t) empty)),
      (λ l.
          let left = removed-Sound v a t n.on_heap m in
          let (o, ran, armed) =
            finish_delete-some (is_head q.timer_set a) (taken_out q a t) left
              (ground (arith, length-set_erase t.expired a q.timer_set n.in_set)) in
          (
            record {
              after = record (taken_out q a t) { armed = o };
              returns = delete_timer-eq q a t n.on_heap ∙ ran;
              sound = rearmed-Sound o left;
              armed = λ x. armed (set_erase-Armed q.armed t.expired a q.timer_set x v.ordered);
            },
            ground (arith, n.its_id),
            delete_timer_freed _ a (ground arith),
          )),
    )
