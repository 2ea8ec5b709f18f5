-- ===== src/X75/Window.antt =====
-- `x75_kick` as a whole (src/x75/x75_out.c).
use ras.Base.{
  ℕ, zero, suc, ◌+◌, ◌%◌, ◌<◌, ◌≡◌, ◌≢◌, refl, sym, subst, ap, ap₂, ◌∙◌, Bool, true, false, List,
  [], ◌∷◌, ◌++◌, length, take, drop, min, if◌then◌else◌, arith,
}
use ras.Osmo.{Osmo, Documented, HasMemory, Msgb, Queue}
use ras.X75.Types.{Event, X75Cb, modulus, modulus_of}
use ras.X75.Timer.{start_t1timer}
use ras.X75.Queues.{dequeue_write}
use ras.X75.Kick.{
  returns, kick_loop, kick_start, kick_end, kick_done, may_send, kick, set_ack_pending,
}
use ras.X75.Ring.{dist, dist-lt, eq_of_dist_zero}
use ras.X75.Sending.{iframes, flight, dequeue_write-flight, kick_loop-eq}

-- Both queues are counted rightly.
pub record Counted (c : X75Cb) : Type 0 where
  pub write_counted : c.write_queue_count ≡ length c.write_queue
  pub ack_counted : c.ack_queue_count ≡ length c.ack_queue

-- The sequence numbers lie below the modulus.
pub record InRange (c : X75Cb) : Type 0 where
  pub vs_lt : c.vs < modulus c
  pub vr_lt : c.vr < modulus c
  pub va_lt : c.va < modulus c

-- What `x75_kick` does behind its loop.
abbrev pub armed : ⦃o : Osmo⦄ → X75Cb → X75Cb
armed c = let c' = set_ack_pending false c in if c'.t1timer_running then c' else start_t1timer c'

-- How many places the window has left.
abbrev pub room : ⦃o : Osmo⦄ → X75Cb → ℕ
room c = dist (modulus c) (kick_start c) (kick_end c)

-- The link after a kick that may send.
abbrev pub kicked : ⦃o : Osmo⦄ → X75Cb → X75Cb
kicked c =
    let s = kick_start c in
    let d = room c in
    let w = c.write_queue in
    armed (
      flight c ((s + min (length w) d) % modulus c) (drop d w) (c.ack_queue ++ take d w)
        (c.events ++ iframes c s (take d w)))

pub kick_start-lt : ⦃o : Osmo⦄ (c : X75Cb) → InRange c → kick_start c < modulus c
kick_start-lt c r = ground arith

pub may_send_parts :
    ⦃o : Osmo⦄ (c : X75Cb)
    → may_send c ≡ true
    → (kick_start c ≢ kick_end c) × (c.write_queue_count ≢ 0) × (c.condition.peer_rx_busy ≡ false)
may_send_parts c h = ground arith

kick_end-lt : (e : Bool) (a w : ℕ) → (a + w) % modulus_of e < modulus_of e
kick_end-lt true a w = omega arith
kick_end-lt false a w = omega arith

suc_of_ne :
    (e : Bool) (a b : ℕ)
    → a < modulus_of e
    → b < modulus_of e
    → a ≢ b
    → (d : ℕ) × (dist (modulus_of e) a b ≡ suc d)
suc_of_ne e a b h k n = go (dist (modulus_of e) a b) refl
  where
    go : (x : ℕ) → dist (modulus_of e) a b ≡ x → (d : ℕ) × (dist (modulus_of e) a b ≡ suc d)
    go zero z = absurd (n (eq_of_dist_zero e a b h k z))
    go (suc d) z = (d, z)

module _ ⦃o : Osmo⦄ (doc : Documented o) (mem : HasMemory o) where
  kick_sends :
      (c : X75Cb) (s d : ℕ) (b : Msgb) (w : Queue)
      → c.callbacks.data_transmit ≡ true
      → kick_end c < modulus c
      → s < modulus c
      → dist (modulus c) s (kick_end c) ≡ suc d
      → (let (skb, taken) = dequeue_write (flight c s (b ∷ w) c.ack_queue c.events) in
          kick_loop (modulus c) (kick_end c) skb taken)
        ≡ returns (
            flight c
              ((s + min (suc (length w)) (suc d)) % modulus c)
              (drop d w)
              (c.ack_queue ++ (b ∷ take d w))
              (c.events ++ iframes c s (b ∷ take d w)))
  kick_sends c s d b w t k h e = rw (dequeue_write-flight doc c s b w c.ack_queue c.events) (
      kick_loop-eq doc mem (modulus c) d c (kick_end c) s b w c.ack_queue c.events t h k e
        (omega (arith, dist-lt c.mode.extended s (kick_end c)))
      ∙ ap
          (λ n. returns (
            flight c ((s + n) % modulus c) (drop d w) (c.ack_queue ++ (b ∷ take d w))
              (c.events ++ iframes c s (b ∷ take d w))))
          (omega arith))

  -- The link with its queues rightly counted, `w` the frames to be sent.
  kick-flight :
      (c : X75Cb) (v : ℕ) (w q : Queue) (ev : List Event)
      → let c' = flight c v w q ev in
        (d : ℕ)
        → room c' ≡ d
        → c.callbacks.data_transmit ≡ true
        → InRange c'
        → may_send c' ≡ true
        → kick c' ≡ returns (kicked c')
  unfolding kick
  kick-flight c v w q ev zero e t r go =
      let parts = may_send_parts (flight c v w q ev) go in
      absurd (
        parts.0 (
          eq_of_dist_zero c.mode.extended _ _ (kick_start-lt (flight c v w q ev) r)
            (kick_end-lt c.mode.extended c.va c.window) e))
  kick-flight c v [] q ev (suc d) e t r go =
      absurd ((may_send_parts (flight c v [] q ev) go).1 refl)
  kick-flight c v (b ∷ w) q ev (suc d) e t r go =
      let c' = flight c v (b ∷ w) q ev in
      let s = kick_start c' in
      rw (go, e)
        (ap kick_done (
          kick_sends c' s d b w t (kick_end-lt c.mode.extended c.va c.window) (kick_start-lt c' r)
            e))

  -- If the peer takes frames, the window is open and there is a frame to send, `x75_kick`
  -- returns: it has sent copies of the first frames of the queue, as many as there are and the
  -- window has room for, as I frames with consecutive numbers from the start of the window on
  -- and with the present V(R); it has moved those frames behind the frames that await
  -- acknowledgement, V(S) behind the last number sent, and started T1 if it was not running. This
  -- holds if both queues are rightly counted, the sequence numbers are below the modulus, the
  -- transmit callback is set, and buffers can be copied.
  pub kick-eq :
      (c : X75Cb)
      → Counted c
      → c.callbacks.data_transmit ≡ true
      → InRange c
      → may_send c ≡ true
      → kick c ≡ returns (kicked c)
  kick-eq c n t r go =
      let counted : flight c c.vs c.write_queue c.ack_queue c.events ≡ c =
        ap₂ (λ k m. record c { write_queue_count = k; ack_queue_count = m }) (sym n.write_counted)
          (sym n.ack_counted) in
      subst
        (λ s.
          room s ≡ room s
          → s.callbacks.data_transmit ≡ true
          → InRange s
          → may_send s ≡ true
          → kick s ≡ returns (kicked s))
        counted (λ e. kick-flight c c.vs c.write_queue c.ack_queue c.events _ refl) refl t r go
