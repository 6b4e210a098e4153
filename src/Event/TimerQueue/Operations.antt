-- ===== src/Event/TimerQueue/Operations.antt =====
-- `insert` and `resetTimer` on a valid queue.
use knpnl.Prelude.{
  ℕ, ◌<◌, ◌≡◌, refl, ◌∙◌, ◌||◌, inl, inr, Bool, true, false, Option, none, some, List, [], ◌∷◌,
  if◌then◌else◌, length, ◌==◌, Bool-cases, Option-cases, arith,
}
use knpnl.Event.TimerQueue.{
  place, enter, Timer, TimerQueue, TimerEntry, entry_ltb, set_insert, set_erase, is_head,
  check_sizes, armed_if_head, insert, reset_timer, moved, uintptr_max,
}
use knpnl.Event.TimerQueue.Order.{
  proper, has_entry, has_entry-set_insert_self, sorted, above, Each_head, Each-weaken,
}
use knpnl.Event.TimerQueue.Valid.{Entered, Sound, Armed}
use knpnl.Event.TimerQueue.Changes.{Apart, place-Sound, moved-Sound, moved_apart}

-- The descriptor after an entry was put in: it is set again if the entry is the first.
abbrev armed_after : Option ℕ → List TimerEntry → ℕ → ℕ → Option ℕ
armed_after o s a ts = if is_head s a then some ts else o

set_insert-Armed :
    (o : Option ℕ) (ts a : ℕ) (s : List TimerEntry)
    → Armed o s
    → Apart a s
    → Armed (armed_after o (set_insert (ts, a) s) a ts) (set_insert (ts, a) s)
unfolding set_insert
set_insert-Armed o ts a [] h n = ground arith
set_insert-Armed none ts a (x ∷ s) h n = absurd h
set_insert-Armed (some d) ts a ((u, b) ∷ s) h n = elim (Bool-cases (entry_ltb (ts, a) (u, b))) [
  | inl e ↦ rw e (ground arith)
  | inr e ↦
      (let ne = Each_head n in
        let later : entry_ltb (u, b) (ts, a) ≡ true = ground arith in
        rw e (rw later (ground arith)))
]

pub set_erase-Armed :
    (o : Option ℕ) (ts a : ℕ) (s : List TimerEntry)
    → Armed o s
    → sorted s ≡ true
    → Armed o (set_erase (ts, a) s)
unfolding set_erase sorted above
set_erase-Armed o ts a [] h k = h
set_erase-Armed none ts a (x ∷ s) h k = absurd h
set_erase-Armed (some d) ts a ((u, b) ∷ []) h k =
    elim (Bool-cases (entry_ltb (ts, a) (u, b) || entry_ltb (u, b) (ts, a))) [
      | inl e ↦ rw e h
      | inr e ↦ rw e tt
    ]
set_erase-Armed (some d) ts a ((u, b) ∷ (v, c) ∷ s) h k =
    elim (Bool-cases (entry_ltb (ts, a) (u, b) || entry_ltb (u, b) (ts, a))) [
      | inl e ↦ rw e h
      | inr e ↦ rw e (ground arith)
    ]

pub rearmed-Sound :
    {ex : List TimerEntry} (o : Option ℕ) {q : TimerQueue}
    → Sound q ex
    → Sound (record q { armed = o }) ex
rearmed-Sound o v = record {
  ordered = v.ordered;
  addresses = v.addresses;
  recorded = v.recorded;
  same_size = v.same_size;
  entered = λ k a e.
      let x = v.entered k a e in
      record { timer = x.timer; on_heap = x.on_heap; its_id = x.its_id; in_set = x.in_set };
  own_ids = v.own_ids;
  pending = v.pending;
  pending_ordered = v.pending_ordered;
  pending_addresses = v.pending_addresses;
}

-- `armed_if_head` changes the descriptor only.
armed_if_head-eq :
    (q : TimerQueue) (a ts : ℕ)
    → armed_if_head q a ts ≡ record q { armed = armed_after q.armed q.timer_set a ts }
armed_if_head-eq q a ts = elim (Bool-cases (is_head q.timer_set a)) [
  | inl e ↦ rw e refl
  | inr e ↦ rw e refl
]

armed_if_head-Sound :
    {ex : List TimerEntry} (q : TimerQueue) (a ts : ℕ)
    → Sound q ex
    → Sound (armed_if_head q a ts) ex
armed_if_head-Sound q a ts v = rw (armed_if_head-eq q a ts) (rearmed-Sound _ v)

pub check_sizes-Sound :
    {ex : List TimerEntry} (q : TimerQueue) → Sound q ex → check_sizes q ≡ some q
check_sizes-Sound q v =
    let e : (length q.timer_set == q.id_count) ≡ true = ground (arith, v.same_size) in rw e refl

-- A timer that is not in the map is at none of the addresses of the set.
unmapped-Apart :
    {q : TimerQueue} {ex : List TimerEntry} (v : Sound q ex) (a : ℕ) (t : Timer)
    → q.heap a ≡ some t
    → q.id_map t.timer_id ≡ none
    → Apart a q.timer_set
unmapped-Apart v a t h f = Each-weaken (λ u b o e. ground (arith, o.on_heap, o.mapped)) v.recorded

-- The result of an operation that returns: a valid queue, whose descriptor is not set too late if
-- it was not before.
pub record Done (q : TimerQueue) (ex : List TimerEntry) (o : Option TimerQueue) : Type 0 where
  pub after : TimerQueue
  pub returns : o ≡ some after
  pub sound : Sound after ex
  pub armed : Armed q.armed q.timer_set → Armed after.armed after.timer_set

armed_if_head-Armed :
    (q : TimerQueue) (a ts : ℕ)
    → Armed (armed_after q.armed q.timer_set a ts) q.timer_set
    → Armed (armed_if_head q a ts).armed (armed_if_head q a ts).timer_set
armed_if_head-Armed q a ts h = rw (armed_if_head-eq q a ts) h

insert-eq :
    (q : TimerQueue) (a : ℕ) (t : Timer)
    → q.heap a ≡ some t
    → q.id_map t.timer_id ≡ none
    → insert q a ≡ enter q a t
unfolding insert
insert-eq q a t h f = rw (insert, h) (rw f refl)

-- `insert` of an allocated timer with an id that is not in the map, at an address below
-- `UINTPTR_MAX` that is none of those waiting for their turn: it returns, the queue stays valid,
-- and if the descriptor was not set too late before, it is not afterwards.
pub insert-Done :
    {q : TimerQueue} {ex : List TimerEntry} (a : ℕ) (t : Timer)
    → Sound q ex
    → q.heap a ≡ some t
    → q.id_map t.timer_id ≡ none
    → a < uintptr_max
    → Apart a ex
    → Done q ex (insert q a)
unfolding enter
insert-Done {q} {ex} a t v h f small apart =
    let q' = armed_if_head (place q a t) a t.expired in
    let end = armed_if_head-Sound (place q a t) a t.expired (place-Sound v a t h f small apart) in
    record {
      after = q';
      returns = insert-eq q a t h f ∙ check_sizes-Sound q' end;
      sound = end;
      armed = λ o.
          armed_if_head-Armed (place q a t) a t.expired
            (set_insert-Armed q.armed t.expired a q.timer_set o (unmapped-Apart v a t h f));
    }

reset_timer-eq :
    (q : TimerQueue) (k a ts : ℕ) (t : Timer)
    → q.id_map k ≡ some a
    → q.heap a ≡ some t
    → check_sizes (moved q a t ts) ≡ some (moved q a t ts)
    → reset_timer q k ts ≡ some (armed_if_head (moved q a t ts) a ts, true)
unfolding reset_timer
reset_timer-eq q k a ts t m h c = rw (reset_timer, m) (rw h (rw c refl))

-- How `resetTimer` may come out.
pub data ResetOutcome (q : TimerQueue) (ex : List TimerEntry) (k ts : ℕ)
    (o : Option (TimerQueue × Bool)) : Type 0 where
  not_found : q.id_map k ≡ none → o ≡ some (q, false) → ResetOutcome q ex k ts o
  was_reset :
      (a : ℕ) (q' : TimerQueue)
      → q.id_map k ≡ some a
      → o ≡ some (q', true)
      → Sound q' ex
      → has_entry (ts, a) q'.timer_set ≡ true
      → (Armed q.armed q.timer_set → Armed q'.armed q'.timer_set)
      → ResetOutcome q ex k ts o

proper_address :
    (u b : ℕ) (s : List TimerEntry) → proper s ≡ true → has_entry (u, b) s ≡ true → b < uintptr_max
unfolding proper has_entry
proper_address u b [] h k = ground arith
proper_address u b ((t, a) ∷ s) h k = ground (arith, proper_address u b s)

reset_known :
    {q : TimerQueue} {ex : List TimerEntry} (k ts a : ℕ)
    → Sound q ex
    → q.id_map k ≡ some a
    → Entered q k a
    → ResetOutcome q ex k ts (reset_timer q k ts)
reset_known {q} k ts a v e n =
    let t = n.timer in
    let m : q.id_map t.timer_id ≡ some a = rw n.its_id e in
    let moved_sound =
      moved-Sound v a t n.on_heap m ts
        (proper_address t.expired a q.timer_set v.addresses n.in_set) in
    let q' = armed_if_head (moved q a t ts) a ts in
    was_reset a q' e
      (reset_timer-eq q k a ts t e n.on_heap (check_sizes-Sound (moved q a t ts) moved_sound))
      (armed_if_head-Sound (moved q a t ts) a ts moved_sound)
      (rw (armed_if_head-eq (moved q a t ts) a ts) (has_entry-set_insert_self ts a _))
      (λ o. armed_if_head-Armed (moved q a t ts) a ts (
        set_insert-Armed q.armed ts a (set_erase (t.expired, a) q.timer_set)
          (set_erase-Armed q.armed t.expired a q.timer_set o v.ordered)
          (moved_apart v a t n.on_heap m ts)))

-- `resetTimer` on a valid queue: an unknown id gives `false` and changes nothing; for a known one
-- it gives `true`, the set has the timer under its new time, the queue stays valid, and if the
-- descriptor was not set too late before, it is not afterwards.
pub reset_timer-ResetOutcome :
    {q : TimerQueue} {ex : List TimerEntry} (k ts : ℕ)
    → Sound q ex
    → ResetOutcome q ex k ts (reset_timer q k ts)
unfolding reset_timer
reset_timer-ResetOutcome {q} {ex} k ts v = elim (Option-cases (q.id_map k)) [
  | inl e ↦ not_found e (rw (reset_timer, e) refl)
  | inr (a, e) ↦ reset_known k ts a v e (v.entered k a e)
]
