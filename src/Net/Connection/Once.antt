-- ===== src/Net/Connection/Once.antt =====
-- What each operation of a connection keeps: how often the close callback was called, and what its
-- channel's destructor will look at.
use knpnl.Prelude.{
  zero, suc, ◌≤◌, ◌≡◌, inl, inr, refl, subst, sym, ◌∙◌, Bool, true, false, not, Option, none, some,
  ℤ, pos, negsuc, Option-cases, arith,
}
use knpnl.Event.Poller.{Channel, Poller}
use knpnl.Event.Channel.{enable_write, disable_write, disable_all, remove}
use knpnl.Net.Connection.{
  ConnectionState, connecting, connected, closing, closed, Connection, on_channel, close_open,
  handle_close, sent_in_loop, written, destroy,
}

unfoldable pub is_open : ConnectionState → Bool
is_open connecting = true
is_open connected = true
is_open closing = false
is_open closed = false

unfoldable pub is_closed : ConnectionState → Bool
is_closed connecting = false
is_closed connected = false
is_closed closing = false
is_closed closed = true

-- The close callback was called at most once, and not while the connection is open; the channel is
-- the loop's until the connection is closed, and handles an event as `busy` says.
pub record Once (busy : Bool) {R W : Type 0} (c : Connection R W) : Type 0 where
  pub at_most : c.closes ≤ 1
  pub none_yet : is_open c.state ≡ true → c.closes ≡ 0
  pub in_loop : c.channel.is_in_loop ≡ not (is_closed c.state)
  pub handling : c.channel.is_handling ≡ busy

-- What the operation gives keeps this.
abbrev pub Keeps : Bool → {R W : Type 0} → (Connection R W → Option (Connection R W)) → Type 0
Keeps busy {R = R} {W = W} f = (c c' : Connection R W) → Once busy c → f c ≡ some c' → Once busy c'

-- A call on a channel that leaves these two flags of it alone.
abbrev Steady : (Channel → Poller → Option (Channel × Poller)) → Type 0
Steady f =
    (ch ch' : Channel) (p p' : Poller)
    → f ch p ≡ some (ch', p')
    → (ch'.is_in_loop ≡ ch.is_in_loop) × (ch'.is_handling ≡ ch.is_handling)

enable_write-Steady : Steady enable_write
unfolding enable_write
enable_write-Steady ch ch' p p' h = ground arith

disable_write-Steady : Steady disable_write
unfolding disable_write
disable_write-Steady ch ch' p p' h = ground arith

disable_all-Steady : Steady disable_all
unfolding disable_all
disable_all-Steady ch ch' p p' h = ground arith

module _ {A B : Type 0} where
  -- A chain of results that gives one has given one at its first step.
  pub bind-some :
      (x : Option A) (g : A → Option B) {b : B}
      → (elim x [ none ↦ none | some a ↦ g a ]) ≡ some b
      → (a : A) × (x ≡ some a) × (g a ≡ some b)
  bind-some none g h = ground arith
  bind-some (some a) g h = (a, refl, h)

-- Two connections that agree in what is kept.
pub record Alike {R W : Type 0} (c c' : Connection R W) : Type 0 where
  pub state : c'.state ≡ c.state
  pub closes : c'.closes ≡ c.closes
  pub in_loop : c'.channel.is_in_loop ≡ c.channel.is_in_loop
  pub handling : c'.channel.is_handling ≡ c.channel.is_handling

module _ {R W : Type 0} where
  on_channel-Alike :
      (f : Channel → Poller → Option (Channel × Poller)) (c c' : Connection R W)
      → Steady f
      → on_channel f c ≡ some c'
      → Alike c c'
  unfolding on_channel
  on_channel-Alike f c c' st h = elim (Option-cases (f c.channel c.poller)) [
    | inl e ↦ ground arith
    | inr (q, e) ↦
        (let m = st c.channel q.0 c.poller q.1 e in
          record {
            state = ground arith;
            closes = ground arith;
            in_loop = ground (arith, m.0);
            handling = ground (arith, m.1);
          })
  ]

  -- `handleClose` of an open connection.
  pub close_open-closes :
      (c c' : Connection R W)
      → close_open c ≡ some c'
      → ((c'.state ≡ closing) × (c'.closes ≡ suc c.closes))
        × (c'.channel.is_in_loop ≡ c.channel.is_in_loop)
        × (c'.channel.is_handling ≡ c.channel.is_handling)
  unfolding close_open
  close_open-closes c c' h =
      elim (Option-cases (on_channel disable_all (record c { state = closing }))) [
        | inl e ↦ ground arith
        | inr (d, e) ↦
            (let a =
                on_channel-Alike disable_all (record c { state = closing }) d disable_all-Steady
                  e in
              ground (arith, a.state, a.closes, a.in_loop, a.handling))
      ]

module _ {busy : Bool} {R W : Type 0} where
  pub same_result : {c d : Connection R W} → some d ≡ some c → Once busy d → Once busy c
  same_result h o = subst (Once busy) (ground arith) o

  pub Alike-Once : (c c' : Connection R W) → Alike c c' → Once busy c → Once busy c'
  Alike-Once c c' a o = record {
    at_most = ground (arith, o.at_most, a.closes);
    none_yet = ground (arith, o.none_yet, a.closes, a.state);
    in_loop = ground (arith, o.in_loop, a.in_loop, a.state);
    handling = a.handling ∙ o.handling;
  }

  pub same-Once :
      (c c' : Connection R W)
      → c'.state ≡ c.state
      → c'.closes ≡ c.closes
      → c'.channel.is_in_loop ≡ c.channel.is_in_loop
      → c'.channel.is_handling ≡ c.channel.is_handling
      → Once busy c
      → Once busy c'
  same-Once c c' s n l g o =
      Alike-Once c c' (record { state = s; closes = n; in_loop = l; handling = g }) o

  on_channel-Keeps :
      (f : Channel → Poller → Option (Channel × Poller))
      → Steady f
      → Keeps busy {R = R} {W = W} (on_channel f)
  on_channel-Keeps f st c c' o h = Alike-Once c c' (on_channel-Alike f c c' st h) o

  open-suc :
      (c c' : Connection R W)
      → Once busy c
      → is_open c.state ≡ true
      → close_open c ≡ some c'
      → Once busy c'
  unfolding is_open is_closed
  open-suc c c' o e h =
      let ((p, q), l, g) = close_open-closes c c' h in
      let n : is_closed c.state ≡ false = ground arith in
      record {
        at_most = ground (arith, o.none_yet e, q);
        none_yet = ground (arith, p);
        in_loop = ground (arith, o.in_loop, n, l, p);
        handling = g ∙ o.handling;
      }

  pub handle_close-Keeps : Keeps busy {R = R} {W = W} handle_close
  unfolding handle_close is_open
  handle_close-Keeps c c' o h = by_state c.state refl
    where
      by_state : (t : ConnectionState) → c.state ≡ t → Once busy c'
      by_state connecting e = open-suc c c' o (rw e refl) (sym (rw (handle_close, e) refl) ∙ h)
      by_state connected e = open-suc c c' o (rw e refl) (sym (rw (handle_close, e) refl) ∙ h)
      by_state closing e =
          let q : handle_close c ≡ some c = ground arith in same_result (sym q ∙ h) o
      by_state closed e =
          let q : handle_close c ≡ some c = ground arith in same_result (sym q ∙ h) o

  pub destroy-Keeps : Keeps busy {R = R} {W = W} destroy
  unfolding destroy on_channel is_open is_closed remove
  destroy-Keeps c c' o h =
      let p : (c'.state ≡ closed) × (c'.closes ≡ c.closes) = ground arith in
      let q : (c'.channel.is_in_loop ≡ false) × (c'.channel.is_handling ≡ c.channel.is_handling) =
        ground arith in
      record {
        at_most = ground (arith, o.at_most);
        none_yet = ground (arith, p.0);
        in_loop = ground (arith, q.0, p.0);
        handling = q.1 ∙ o.handling;
      }

  pub sent_in_loop-Keeps :
      (set : Bool) (n : ℤ) → Keeps busy {R = R} {W = W} (λ c. sent_in_loop set c n)
  unfolding sent_in_loop
  sent_in_loop-Keeps set (negsuc zero) c c' o h = handle_close-Keeps c c' o h
  sent_in_loop-Keeps set (negsuc (suc n)) c c' o h = same_result h o
  sent_in_loop-Keeps true (pos zero) c c' o h = same_result h (same-Once c _ refl refl refl refl o)
  sent_in_loop-Keeps false (pos zero) c c' o h = same_result h o
  sent_in_loop-Keeps set (pos (suc n)) c c' o h =
      on_channel-Keeps enable_write enable_write-Steady c c' o h

  pub written-Keeps : (set : Bool) (n : ℤ) → Keeps busy {R = R} {W = W} (λ c. written set c n)
  unfolding written
  written-Keeps set (negsuc zero) c c' o h = handle_close-Keeps c c' o h
  written-Keeps set (negsuc (suc n)) c c' o h = same_result h o
  written-Keeps true (pos zero) c c' o h =
      on_channel-Keeps disable_write disable_write-Steady _ c' (same-Once c _ refl refl refl refl o)
        h
  written-Keeps false (pos zero) c c' o h =
      on_channel-Keeps disable_write disable_write-Steady c c' o h
  written-Keeps set (pos (suc n)) c c' o h = same_result h o
