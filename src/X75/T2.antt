-- ===== src/X75/T2.antt =====
-- `x75_start_t2timer` sets up `t1timer` with the function of T2 (src/x75/x75_timer.c). What that
-- does to T1.
use ras.Base.{
  ◌<◌, ◌≡◌, refl, ap, ◌∙◌, ◌⊎◌, inl, inr, Bool-cases, true, false, not, ◌||◌, some, [], ◌∷◌, ◌++◌,
  arith,
}
use ras.X75.Control.{Reads, decode-send_control_supervisory}
use ras.Osmo.{Osmo, Documented, HasMemory, Msgb, t2timer_expiry}
use ras.X75.Types.{Frame, X75Cb, Event, rr, response, modulus, frame_type}
use ras.X75.Timer.{start_t2timer}
use ras.X75.Send.{data_indication, send_control}
use ras.X75.Kick.{returns, timeout_response, set_ack_pending}
use ras.X75.Transfer.{in_sequence}
use ras.X75.Expiry.{t2_expires, expires}
use ras.X75.Core.{core, core-timeout_response}

-- What an expiry of T1 is for: to send again what is not acknowledged, to count that, and to run
-- the timer again. None of it happens between `c` and `d`.
pub record NothingRetried (c d : X75Cb) : Type 0 where
  pub same_core : core d ≡ core c
  pub same_count : d.n2count ≡ c.n2count
  pub same_timer : d.t1timer ≡ c.t1timer
  pub same_state : d.state ≡ c.state

-- Between `c` and `d` nothing is sent, or one frame, in which the other station reads an RR: a response
-- without a poll bit and without any octet behind the header.
abbrev pub SendsReadiness : ⦃o : Osmo⦄ → Frame → X75Cb → X75Cb → Type 0
SendsReadiness g c d =
    (d.events ≡ c.events)
    ⊎ ((buf : Msgb) × (f : Frame) × (d.events ≡ c.events ++ (Event.data_transmit buf ∷ []))
        × Reads c.mode buf g rr response false f)

module _ ⦃o : Osmo⦄ (doc : Documented o) where
  timeout_response_rest :
      (c : X75Cb)
      → let d = timeout_response c in
        (d.n2count ≡ c.n2count) × (d.t1timer ≡ c.t1timer) × (d.state ≡ c.state)
  unfolding timeout_response send_control
  timeout_response_rest c = ground arith

  pub t2_expires_rest : (c : X75Cb) → NothingRetried c (t2_expires c)
  unfolding t2_expires
  t2_expires_rest c =
      let noted = set_ack_pending false c in
      ground (arith, timeout_response_rest noted, core-timeout_response noted)

  in_sequence-t1timer :
      (b : Msgb) (f : Frame) (c : X75Cb)
      → f.pf ≡ false
      → c.condition.ack_pending ≡ false
      → (in_sequence b f c).t1timer.cb ≡ some t2timer_expiry
  unfolding in_sequence data_indication start_t2timer
  in_sequence-t1timer b f c p a = ground (arith, doc.setup c.t1timer (some t2timer_expiry))

  -- An expiry of T2 sends nothing or a single RR.
  t2_expires_sends :
      (mem : HasMemory o) (d : X75Cb) (g : Frame)
      → d.callbacks.data_transmit ≡ true
      → d.vr < modulus d
      → SendsReadiness g d (t2_expires d)
  unfolding t2_expires timeout_response frame_type
  t2_expires_sends mem d g h l =
      let noted = set_ack_pending false d in
      let (buf, f, sent, reads, nr) =
        decode-send_control_supervisory doc mem noted 0 false response g h (omega arith) l in
      elim (Bool-cases (o.osmo_timer_pending d.t2timer || not d.t2timer_running)) [
        | inl still ↦ rw still (inl refl)
        | inr over ↦ elim (Bool-cases d.condition.ack_pending) [
          | inl owed ↦ rw (over, owed, sent) (inr (buf, f, refl, reads))
          | inr nothing ↦ rw (over, nothing) (inl refl)
        ]
      ]

  -- After an I frame in sequence without a poll bit, on a link with no acknowledgement pending,
  -- `t1timer` is set up with the function of T2. As long as that is so, and the link can send, an
  -- expiry of T1 sends nothing, or a single RR without a poll bit and not an I frame; it moves none of the queues and sequence numbers, counts no retry, does not run
  -- the timer again and leaves the state.
  pub in_sequence_disarms_t1 :
      (mem : HasMemory o) (b : Msgb) (f g : Frame) (c d : X75Cb)
      → f.pf ≡ false
      → c.condition.ack_pending ≡ false
      → d.callbacks.data_transmit ≡ true
      → d.vr < modulus d
      → d.t1timer.cb ≡ (in_sequence b f c).t1timer.cb
      → (expires d.t1timer.cb d ≡ returns (t2_expires d))
        × NothingRetried d (t2_expires d)
        × SendsReadiness g d (t2_expires d)
  unfolding expires
  in_sequence_disarms_t1 mem b f g c d p a t l h = (
    ap (λ e. expires e d) (h ∙ in_sequence-t1timer b f c p a),
    t2_expires_rest d,
    t2_expires_sends mem d g t l,
  )
