-- ===== src/Event/TimerQueue/Changes.antt =====
-- The set, the map and the heap under an insertion, a deletion and a change of time.
use knpnl.Prelude.{
  ℕ, ◌<◌, ◌≡◌, ◌≢◌, refl, inl, inr, true, false, none, some, List, ◌==◌, Bool-cases, arith,
}
use knpnl.Event.TimerQueue.{
  Timer, TimerQueue, TimerEntry, set_erase, id_put, taken_out, place, update, moved, reset,
  uintptr_max,
}
use knpnl.Event.TimerQueue.Order.{
  has_entry, Differs, Each, sorted-set_insert, sorted-set_erase, proper-set_insert,
  proper-set_erase, has_entry-set_insert_self, has_entry-set_insert, has_entry-set_erase,
  length-set_insert, length-set_erase, has_entry-Each, set_insert-Each, Each-weaken, Each-both,
  set_erase-Each,
}
use knpnl.Event.TimerQueue.Valid.{OfTimer, Waiting, Entered, Sound}

-- The timer at that address is not one of those that are pending.
abbrev pub Apart : ℕ → List TimerEntry → Type 0
Apart a ex = Each (λ u b. b ≢ a) ex

module _ {q : TimerQueue} {ex : List TimerEntry} (v : Sound q ex) (a : ℕ) (t : Timer)
    (h : q.heap a ≡ some t) where
  open v use {ordered, addresses, recorded, same_size, entered, own_ids, pending}

  module _ (fresh : q.id_map t.timer_id ≡ none) where
    not_entered : has_entry (t.expired, a) q.timer_set ≡ false
    not_entered = elim (Bool-cases (has_entry (t.expired, a) q.timer_set)) [
      | inl e ↦ (let o = has_entry-Each t.expired a recorded e in ground (arith, o))
      | inr e ↦ e
    ]

    place-Entered : (k b : ℕ) → (place q a t).id_map k ≡ some b → Entered (place q a t) k b
    unfolding id_put
    place-Entered k b e = elim (Bool-cases (t.timer_id == k)) [
      | inl x ↦ record {
        timer = t;
        on_heap = ground arith;
        its_id = ground arith;
        in_set =
            let y : b ≡ a = ground arith in
            rw y (has_entry-set_insert_self t.expired a q.timer_set);
      }
      | inr x ↦
          let o = entered k b (ground arith) in
          record {
            timer = o.timer;
            on_heap = o.on_heap;
            its_id = o.its_id;
            in_set = has_entry-set_insert t.expired a o.timer.expired b q.timer_set o.in_set;
          }
    ]

    place-OfTimer :
        (u b : ℕ) → OfTimer q.heap q.id_map u b → OfTimer q.heap (place q a t).id_map u b
    unfolding id_put
    place-OfTimer u b o = record {
      timer = o.timer;
      on_heap = o.on_heap;
      its_time = o.its_time;
      mapped = grind (arith, o.mapped);
    }

    place-Waiting :
        (u b : ℕ) → Waiting q.heap q.id_map u b × (b ≢ a) → Waiting q.heap (place q a t).id_map u b
    unfolding id_put
    place-Waiting u b (w, ne) = record {
      timer = w.timer;
      on_heap = w.on_heap;
      its_time = w.its_time;
      unmapped = ground (arith, w.unmapped, own_ids b a w.timer t w.on_heap h);
    }

    pub place-Sound : a < uintptr_max → Apart a ex → Sound (place q a t) ex
    unfolding id_put
    place-Sound small apart = record {
      ordered = sorted-set_insert t.expired a q.timer_set ordered;
      addresses = proper-set_insert t.expired a q.timer_set small addresses;
      recorded =
          set_insert-Each t.expired a place-OfTimer
            (record { timer = t; on_heap = h; its_time = refl; mapped = ground arith }) recorded;
      same_size = rw fresh (ground (arith, length-set_insert t.expired a q.timer_set not_entered));
      entered = place-Entered;
      own_ids = own_ids;
      pending = Each-weaken place-Waiting (Each-both pending apart);
      pending_ordered = v.pending_ordered;
      pending_addresses = v.pending_addresses;
    }

  -- A timer of the same id takes the place of this one.
  was_there :
      (u : Timer) (same : u.timer_id ≡ t.timer_id) (b : ℕ) (x : Timer)
      → update q.heap a (some u) b ≡ some x
      → (z : Timer) × (q.heap b ≡ some z) × (z.timer_id ≡ x.timer_id)
  was_there u same b x i = elim (Bool-cases (a == b)) [
    | inl e ↦ (t, ground arith, ground arith)
    | inr e ↦ (x, ground arith, refl)
  ]

  pub kept_ids :
      (u : Timer) (same : u.timer_id ≡ t.timer_id) (b c : ℕ) (x y : Timer)
      → update q.heap a (some u) b ≡ some x
      → update q.heap a (some u) c ≡ some y
      → x.timer_id ≡ y.timer_id
      → b ≡ c
  kept_ids u same b c x y i j e =
      let (z, p, r) = was_there u same b x i in
      let (w, p', r') = was_there u same c y j in own_ids b c z w p p' (ground arith)

  module _ (m : q.id_map t.timer_id ≡ some a) where
    -- What another entry of the set is.
    other-ne : (u b : ℕ) → OfTimer q.heap q.id_map u b → Differs (t.expired, a) (u, b) → b ≢ a
    other-ne u b o d e = ground (arith, o.on_heap, o.its_time)

    pub its_entry : has_entry (t.expired, a) q.timer_set ≡ true
    its_entry = let e = entered t.timer_id a m in ground (arith, e.on_heap, e.in_set)

    Waiting-ne : (u b : ℕ) → Waiting q.heap q.id_map u b → b ≢ a
    Waiting-ne u b w e = ground (arith, w.on_heap, w.unmapped)

    abbrev removed : TimerQueue
    removed = taken_out q a t

    removed-OfTimer :
        (u b : ℕ)
        → OfTimer q.heap q.id_map u b
        → Differs (t.expired, a) (u, b)
        → OfTimer removed.heap removed.id_map u b
    unfolding taken_out
    removed-OfTimer u b o d =
        let ne = other-ne u b o d in
        record {
          timer = o.timer;
          on_heap = ground (arith, o.on_heap, ne);
          its_time = o.its_time;
          mapped = ground (arith, o.mapped, ne);
        }

    removed-Waiting :
        (u b : ℕ) → Waiting q.heap q.id_map u b → Waiting removed.heap removed.id_map u b
    unfolding taken_out
    removed-Waiting u b w =
        let ne = Waiting-ne u b w in
        record {
          timer = w.timer;
          on_heap = ground (arith, w.on_heap, ne);
          its_time = w.its_time;
          unmapped = ground (arith, w.unmapped);
        }

    removed-Entered : (k b : ℕ) → removed.id_map k ≡ some b → Entered removed k b
    unfolding taken_out
    removed-Entered k b e =
        let o = entered k b (ground arith) in
        let ne : b ≢ a = ground (arith, o.on_heap, o.its_id) in
        record {
          timer = o.timer;
          on_heap = ground (arith, o.on_heap, ne);
          its_id = o.its_id;
          in_set =
              has_entry-set_erase t.expired a o.timer.expired b q.timer_set (ground (arith, ne))
                o.in_set;
        }

    pub removed-Sound : Sound (taken_out q a t) ex
    unfolding taken_out
    removed-Sound = record {
      ordered = sorted-set_erase t.expired a q.timer_set ordered;
      addresses = proper-set_erase t.expired a q.timer_set addresses;
      recorded = set_erase-Each t.expired a removed-OfTimer ordered recorded;
      same_size = rw m (ground (arith, length-set_erase t.expired a q.timer_set its_entry));
      entered = removed-Entered;
      own_ids = λ b c x y i j e. grind (arith, own_ids b c x y);
      pending = Each-weaken removed-Waiting pending;
      pending_ordered = v.pending_ordered;
      pending_addresses = v.pending_addresses;
    }

    -- The time is changed in the timer and in the set.
    module _ (ts : ℕ) where
      pub moved_apart : Each (λ u b. b ≢ a) (set_erase (t.expired, a) q.timer_set)
      moved_apart = set_erase-Each t.expired a other-ne ordered recorded

      not_twice : has_entry (ts, a) (set_erase (t.expired, a) q.timer_set) ≡ false
      not_twice = elim (Bool-cases (has_entry (ts, a) (set_erase (t.expired, a) q.timer_set))) [
        | inl e ↦ absurd (has_entry-Each ts a moved_apart e refl)
        | inr e ↦ e
      ]

      moved-OfTimer :
          (u b : ℕ)
          → OfTimer q.heap q.id_map u b × (b ≢ a)
          → OfTimer (moved q a t ts).heap q.id_map u b
      moved-OfTimer u b (o, ne) = record {
        timer = o.timer;
        on_heap = ground (arith, o.on_heap);
        its_time = o.its_time;
        mapped = o.mapped;
      }

      moved-Waiting :
          (u b : ℕ) → Waiting q.heap q.id_map u b → Waiting (moved q a t ts).heap q.id_map u b
      moved-Waiting u b w =
          let ne = Waiting-ne u b w in
          record {
            timer = w.timer;
            on_heap = ground (arith, w.on_heap, ne);
            its_time = w.its_time;
            unmapped = w.unmapped;
          }

      moved-Entered : (k b : ℕ) → q.id_map k ≡ some b → Entered (moved q a t ts) k b
      moved-Entered k b e =
          let o = entered k b e in
          elim (Bool-cases (b == a)) [
            | inl x ↦ record {
              timer = reset t ts;
              on_heap = ground arith;
              its_id = ground (arith, o.on_heap, o.its_id);
              in_set =
                  let y : b ≡ a = ground arith in
                  rw y (has_entry-set_insert_self ts a (set_erase (t.expired, a) q.timer_set));
            }
            | inr x ↦ record {
              timer = o.timer;
              on_heap = ground (arith, o.on_heap);
              its_id = o.its_id;
              in_set =
                  has_entry-set_insert ts a o.timer.expired b (set_erase (t.expired, a) q.timer_set)
                    (has_entry-set_erase t.expired a o.timer.expired b q.timer_set (ground arith)
                      o.in_set);
            }
          ]

      pub moved-Sound : a < uintptr_max → Sound (moved q a t ts) ex
      moved-Sound small = record {
        ordered = sorted-set_insert ts a _ (sorted-set_erase t.expired a q.timer_set ordered);
        addresses =
            proper-set_insert ts a _ small (proper-set_erase t.expired a q.timer_set addresses);
        recorded =
            set_insert-Each ts a moved-OfTimer
              (record { timer = reset t ts; on_heap = ground arith; its_time = refl; mapped = m })
              (Each-both (set_erase-Each t.expired a (λ u b o d. o) ordered recorded) moved_apart);
        same_size = ground (
          arith,
          length-set_insert ts a (set_erase (t.expired, a) q.timer_set) not_twice,
          length-set_erase t.expired a q.timer_set its_entry,
        );
        entered = moved-Entered;
        own_ids = λ b c x y i j e. kept_ids (reset t ts) refl b c x y i j e;
        pending = Each-weaken moved-Waiting pending;
        pending_ordered = v.pending_ordered;
        pending_addresses = v.pending_addresses;
      }
