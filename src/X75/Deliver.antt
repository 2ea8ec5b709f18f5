-- ===== src/X75/Deliver.antt =====
-- What the upper layer is given of the I frames that arrive (src/x75/x75_in.c).
use ras.Base.{
  ℕ, zero, suc, ◌+◌, ◌%◌, ◌≡◌, refl, ap, ◌∙◌, Bool, true, false, not, ◌&&◌, Option, none, some,
  List, [], ◌∷◌, ◌++◌, append-nil, ◌==◌, if◌then◌else◌, arith, ◌▹◌,
}
use ras.Osmo.{Osmo, Msgb}
use ras.X75.Types.{Mode, Kind, response, Event, Frame, X75Cb, modulus}
use ras.X75.Timer.{start_t1timer, start_t2timer, stop_t1timer, stop_t2timer}
use ras.X75.Frame.{address_tx, control_octets, frmr_octets}
use ras.X75.Send.{
  call, data_transmit, transmit_buffer, send_control, transmit_frmr, data_indication,
}
use ras.X75.Queues.{free_acked, frames_acked_loop, frames_acked, validate_nr}
use ras.X75.Kick.{enquiry_response, check_iframes_acked, set_ack_pending, set_rejected}
use ras.X75.Transfer.{reject_frame, frmr_z, in_sequence, out_of_sequence, on_info}

-- The buffers that the upper layer was given, in their order.
abbrev pub delivered : List Event → List Msgb
delivered [] = []
delivered (Event.data_indication b ∷ es) = b ∷ delivered es
delivered (Event.connect_confirmation r ∷ es) = delivered es
delivered (Event.connect_indication r ∷ es) = delivered es
delivered (Event.disconnect_confirmation r ∷ es) = delivered es
delivered (Event.disconnect_indication r ∷ es) = delivered es
delivered (Event.data_transmit b ∷ es) = delivered es

pub delivered-append : (xs ys : List Event) → delivered (xs ++ ys) ≡ delivered xs ++ delivered ys
delivered-append [] ys = refl
delivered-append (Event.data_indication b ∷ xs) ys = ap (λ t. b ∷ t) (delivered-append xs ys)
delivered-append (Event.connect_confirmation r ∷ xs) ys = delivered-append xs ys
delivered-append (Event.connect_indication r ∷ xs) ys = delivered-append xs ys
delivered-append (Event.disconnect_confirmation r ∷ xs) ys = delivered-append xs ys
delivered-append (Event.disconnect_indication r ∷ xs) ys = delivered-append xs ys
delivered-append (Event.data_transmit b ∷ xs) ys = delivered-append xs ys

-- The receiving side of a link.
pub record Received : Type 0 where
  pub given : List Msgb
  pub next : ℕ
  pub format : Mode
  pub heard : Bool

abbrev pub received : X75Cb → Received
received c = record {
  given = delivered c.events;
  next = c.vr;
  format = c.mode;
  heard = c.callbacks.data_indication;
}

sent_unseen :
    (xs : List Event) (b : Msgb) → delivered (xs ++ (Event.data_transmit b ∷ [])) ≡ delivered xs
sent_unseen xs b = delivered-append xs (Event.data_transmit b ∷ []) ∙ append-nil (delivered xs)

-- The receiving side of a link on which `b` was taken in sequence.
abbrev pub taken : Msgb → X75Cb → Received
taken b c = record (received c) {
  given = delivered c.events ++ (b ∷ []);
  next = (c.vr + 1) % modulus c;
}

module _ ⦃o : Osmo⦄ where
  received-data_transmit : (b : Msgb) (c : X75Cb) → received (data_transmit b c) ≡ received c
  unfolding data_transmit
  received-data_transmit b c = ground (arith, sent_unseen c.events b)

  received-transmit_buffer :
      (b : Msgb) (k : Kind) (c : X75Cb) → received (transmit_buffer b k c) ≡ received c
  unfolding transmit_buffer
  received-transmit_buffer b k c =
      received-data_transmit (o.msgb_push b (address_tx c.mode k ∷ [])) c

  -- A frame is built and sent, if there is memory for it.
  received-built :
      (m : Option Msgb) (octets : List ℕ) (k : Kind) (c : X75Cb)
      → received (elim m [ none ↦ c | some b ↦ transmit_buffer (o.msgb_put b octets) k c ])
        ≡ received c
  received-built none octets k c = refl
  received-built (some b) octets k c = received-transmit_buffer (o.msgb_put b octets) k c

  received-send_control :
      (t : ℕ) (poll : Bool) (k : Kind) (c : X75Cb) → received (send_control t poll k c) ≡ received c
  unfolding send_control
  received-send_control t poll k c =
      received-built (o.msgb_alloc 23) (control_octets c.mode t poll c.vr) k c

  received-transmit_frmr : (c : X75Cb) → received (transmit_frmr c) ≡ received c
  unfolding transmit_frmr
  received-transmit_frmr c =
      received-built (o.msgb_alloc 27) (frmr_octets c.mode c.frmr_data c.frmr_type c.vs c.vr)
        response c

  received-frames_acked_loop :
      (f nr : ℕ) (c : X75Cb) → received (frames_acked_loop f nr c) ≡ received c
  unfolding frames_acked_loop free_acked
  received-frames_acked_loop zero nr c = refl
  received-frames_acked_loop (suc f) nr c =
      ground (arith, received-frames_acked_loop f nr (free_acked c))

  received-frames_acked : (nr : ℕ) (c : X75Cb) → received (frames_acked nr c) ≡ received c
  unfolding frames_acked
  received-frames_acked nr c = ground (arith, received-frames_acked_loop (modulus c) nr c)

  received-check_iframes_acked :
      (nr : ℕ) (c : X75Cb) → received (check_iframes_acked nr c) ≡ received c
  unfolding check_iframes_acked stop_t1timer start_t1timer
  received-check_iframes_acked nr c = ground (arith, received-frames_acked nr c)

  received-reject_frame :
      (r : ℕ) (f : Frame) (c : X75Cb) → received (reject_frame r f c) ≡ received c
  unfolding reject_frame start_t1timer stop_t2timer
  received-reject_frame r f c = received-transmit_frmr (record c { frmr_data = f; frmr_type = r })

  received-out_of_sequence : (f : Frame) (c : X75Cb) → received (out_of_sequence f c) ≡ received c
  unfolding out_of_sequence enquiry_response
  received-out_of_sequence f c = ground (
    arith,
    received-send_control 0x01 true response c,
    received-send_control 0x09 f.pf response (set_rejected true c),
  )

  -- What is done about the acknowledgement of a frame taken.
  received-answered :
      (pf : Bool) (c : X75Cb)
      → received (
          if pf
          then enquiry_response c
          else if not c.condition.ack_pending
          then (c ▹ set_ack_pending true ▹ start_t2timer)
          else c)
        ≡ received c
  unfolding enquiry_response start_t2timer
  received-answered pf c = ground (arith, received-send_control 0x01 true response c)

  pub given-data_indication :
      (b : Msgb) (c : X75Cb)
      → c.callbacks.data_indication ≡ true
      → data_indication b c ≡ call (Event.data_indication b) c
  unfolding data_indication
  given-data_indication b c h = rw h

  received-in_sequence :
      (b : Msgb) (f : Frame) (c : X75Cb)
      → c.callbacks.data_indication ≡ true
      → received (in_sequence b f c) ≡ taken b c
  unfolding in_sequence
  received-in_sequence b f c h =
      let counted = λ (given : X75Cb).
        set_rejected false (record given { vr = (given.vr + 1) % modulus given }) in
      received-answered f.pf (counted (data_indication b c))
      ∙ ap (λ given. received (counted given)) (given-data_indication b c h)
      ∙ ap (λ l. record (taken b c) { given = l })
          (delivered-append c.events (Event.data_indication b ∷ []))

  -- With the data indication set, the upper layer is given the octets of an I frame in the data
  -- transfer state exactly if its N(R) is valid and its N(S) is V(R), behind all that it was given
  -- before, and V(R) is then one more, round the modulus. Of any other I frame it is given nothing,
  -- and V(R) stays.
  pub on_info-received :
      (b : Msgb) (f : Frame) (c : X75Cb)
      → c.callbacks.data_indication ≡ true
      → received (on_info b f c)
        ≡ (if validate_nr f.nr c && f.ns == c.vr then taken b c else received c)
  unfolding on_info
  on_info-received b f c h =
      let acked =
        if c.condition.peer_rx_busy then frames_acked f.nr c else check_iframes_acked f.nr c in
      let same : received acked ≡ received c =
        ground (arith, received-frames_acked f.nr c, received-check_iframes_acked f.nr c) in
      let heard : acked.callbacks.data_indication ≡ true =
        ap (λ (r : Received). r.heard) same ∙ h in
      ground (
        arith,
        same,
        received-reject_frame frmr_z f c,
        received-in_sequence b f acked heard,
        received-out_of_sequence f acked,
      )
