-- ===== src/X75/Listening.antt =====
-- A station that only listens, and the I frames it hears (src/x75/x75_in.c).
use ras.Base.{
  ℕ, ◌+◌, ◌%◌, ◌<◌, ◌≡◌, sym, ap, ◌∙◌, Bool, true, false, not, some, List, [], ◌∷◌, ◌++◌, ◌==◌,
  ==_self, if◌then◌else◌, ◌▹◌, arith,
}
use ras.Osmo.{Osmo, Msgb}
use ras.X75.Types.{State, data_transfer, Mode, info, Event, Frame, X75Cb, modulus, modulus_of}
use ras.X75.Timer.{start_t2timer, stop_t1timer}
use ras.X75.Send.{call, data_indication}
use ras.X75.Queues.{frames_acked, validate_nr}
use ras.X75.Kick.{
  returns, may_send, kick, set_ack_pending, set_rejected, enquiry_response, check_iframes_acked,
}
use ras.X75.Transfer.{
  in_sequence, out_of_sequence, reject_frame, frmr_z, on_info, state_machine, state3_machine,
  state3_dispatch, input_decoded,
}
use ras.X75.Ring.{dist}
use ras.X75.Nr.{validate_nr_iff}
use ras.X75.Deliver.{delivered, delivered-append, given-data_indication}

-- The buffers that a station hands down, in their order.
abbrev pub on_line : List Event → List Msgb
on_line [] = []
on_line (Event.data_transmit b ∷ es) = b ∷ on_line es
on_line (Event.data_indication b ∷ es) = on_line es
on_line (Event.connect_confirmation r ∷ es) = on_line es
on_line (Event.connect_indication r ∷ es) = on_line es
on_line (Event.disconnect_confirmation r ∷ es) = on_line es
on_line (Event.disconnect_indication r ∷ es) = on_line es

-- What a station that only listens has of a link: nothing to be sent, and nothing to be acknowledged.
pub record Ear : Type 0 where
  pub state : State
  pub mode : Mode
  pub vs : ℕ
  pub va : ℕ
  pub vr : ℕ
  pub waiting : ℕ
  pub heard : Bool
  pub given : List Msgb

abbrev pub ear : X75Cb → Ear
ear c = record {
  state = c.state;
  mode = c.mode;
  vs = c.vs;
  va = c.va;
  vr = c.vr;
  waiting = c.write_queue_count;
  heard = c.callbacks.data_indication;
  given = delivered c.events;
}

-- A buffer more, and the next number.
abbrev pub with_buffer : Msgb → Ear → Ear
with_buffer skb e = record e {
  vr = (e.vr + 1) % modulus_of e.mode.extended;
  given = e.given ++ (skb ∷ []);
}

-- The other station has acknowledged all up to `n`, and nothing waits.
pub record Listens (n : ℕ) (e : Ear) : Type 0 where
  pub in_transfer : e.state ≡ data_transfer
  pub all_sent : e.vs ≡ n
  pub all_acked : e.va ≡ n
  pub in_range : n < modulus_of e.mode.extended
  pub none_waits : e.waiting ≡ 0
  pub hears : e.heard ≡ true

module _ ⦃o : Osmo⦄ where
  nothing_acked : (n : ℕ) (c : X75Cb) → c.va ≡ n → frames_acked n c ≡ c
  unfolding frames_acked
  nothing_acked n c e = rw (e, ==_self n)

  ear-acked : (n : ℕ) (c : X75Cb) → Listens n (ear c) → ear (check_iframes_acked n c) ≡ ear c
  unfolding check_iframes_acked stop_t1timer
  ear-acked n c l =
      let all : (c.vs == n) ≡ true = ap (λ v. v == n) l.all_sent ∙ ==_self n in
      rw (all, nothing_acked n c l.all_acked)

  counted : X75Cb → X75Cb
  counted given = set_rejected false (record given { vr = (given.vr + 1) % modulus given })

  ear-noted :
      (c : X75Cb)
      → ear (if not c.condition.ack_pending then (c ▹ set_ack_pending true ▹ start_t2timer) else c)
        ≡ ear c
  unfolding start_t2timer
  ear-noted c = ground arith

  ear-in_sequence :
      (skb : Msgb) (f : Frame) (c : X75Cb)
      → f.pf ≡ false
      → c.callbacks.data_indication ≡ true
      → ear (in_sequence skb f c) ≡ with_buffer skb (ear c)
  unfolding in_sequence counted
  ear-in_sequence skb f c p h =
      let up = call (Event.data_indication skb) c in
      ap
        (λ b. ear (
          if b
          then enquiry_response (counted (data_indication skb c))
          else if not (counted (data_indication skb c)).condition.ack_pending
          then (counted (data_indication skb c) ▹ set_ack_pending true ▹ start_t2timer)
          else counted (data_indication skb c)))
        p
      ∙ (ear-noted (counted (data_indication skb c))
          ∙ (ap (λ given. ear (counted given)) (given-data_indication skb c h)
              ∙ ap (λ l. record (ear (counted up)) { given = l })
                  (delivered-append c.events (Event.data_indication skb ∷ []))))

  valid : (n : ℕ) (c : X75Cb) → Listens n (ear c) → validate_nr n c ≡ true
  valid n c l =
      let va_lt : c.va < modulus c = omega (arith, l.all_acked, l.in_range) in
      let vs_lt : c.vs < modulus c = omega (arith, l.all_sent, l.in_range) in
      let same : dist (modulus c) c.va n ≡ dist (modulus c) c.va c.vs =
        ap (dist (modulus c) c.va) (sym l.all_sent) in
      (validate_nr_iff c n va_lt vs_lt l.in_range).1 (omega (arith, same))

  ear-either :
      (b : Bool) (n : ℕ) (c : X75Cb)
      → Listens n (ear c)
      → ear (if b then frames_acked n c else check_iframes_acked n c) ≡ ear c
  ear-either true n c l = ap (λ d. ear d) (nothing_acked n c l.all_acked)
  ear-either false n c l = ear-acked n c l

  -- An I frame without a poll bit, with V(R) as its number, that acknowledges nothing new.
  hears_one :
      (skb : Msgb) (f : Frame) (c : X75Cb)
      → Listens f.nr (ear c)
      → f.ns ≡ c.vr
      → f.pf ≡ false
      → ear (on_info skb f c) ≡ with_buffer skb (ear c)
  unfolding on_info
  hears_one skb f c l s p =
      let acked =
        if c.condition.peer_rx_busy then frames_acked f.nr c else check_iframes_acked f.nr c in
      let same : ear acked ≡ ear c = ear-either c.condition.peer_rx_busy f.nr c l in
      let hears : acked.callbacks.data_indication ≡ true =
        ap (λ (e : Ear). e.heard) same ∙ l.hears in
      let next : (f.ns == acked.vr) ≡ true =
        ap (λ n. n == acked.vr) (s ∙ sym (ap (λ (e : Ear). e.vr) same)) ∙ ==_self acked.vr in
      ap
        (λ b. ear (
          if not b
          then reject_frame frmr_z f c
          else if f.ns == acked.vr
          then in_sequence skb f acked
          else out_of_sequence f acked))
        (valid f.nr c l)
      ∙ (ap (λ b. ear (if b then in_sequence skb f acked else out_of_sequence f acked)) next
          ∙ (ear-in_sequence skb f acked p hears ∙ ap (with_buffer skb) same))

  -- With nothing to be sent, `x75_kick` does nothing.
  kick_idle : (c : X75Cb) → c.write_queue_count ≡ 0 → kick c ≡ returns c
  unfolding kick
  kick_idle c e = let idle : may_send c ≡ false = ground arith in rw (idle, kick)

  pub input_one :
      (skb : Msgb) (f : Frame) (c : X75Cb)
      → Listens f.nr (ear c)
      → f.type ≡ info
      → f.ns ≡ c.vr
      → f.pf ≡ false
      → (input_decoded (some (f, skb)) c ≡ returns (on_info skb f c))
        × (ear (on_info skb f c) ≡ with_buffer skb (ear c))
  unfolding input_decoded state_machine state3_machine state3_dispatch
  input_one skb f c l t s p =
      let heard = hears_one skb f c l s p in
      (
        ap (λ st. kick (state_machine st skb f c)) l.in_transfer
            ∙ (ap (λ ty. kick (state3_dispatch ty skb f c)) t
                ∙ kick_idle (on_info skb f c) (ap (λ (e : Ear). e.waiting) heard ∙ l.none_waits)),
        heard,
      )
