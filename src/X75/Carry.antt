-- ===== src/X75/Carry.antt =====
-- The data transfer state (src/x75/x75_in.c, src/x75/x75_out.c) and the invariant of the link.
use ras.Base.{
  ℕ, ◌+◌, ◌%◌, ◌<◌, ◌≡◌, ◌≢◌, refl, sym, subst, ap, Bool, true, false, ◌==◌, if◌then◌else◌, inl,
  inr, Bool-cases, arith, length-append, ◌▹◌,
}
use ras.Osmo.{Osmo, Documented, Msgb}
use ras.X75.Types.{
  FrameType, info, rr, rnr, rej, sabm, sabme, disc, dm, ua, frmr, illegal, other, response, Frame,
  X75Cb, modulus, modulus_of,
}
use ras.X75.Timer.{start_t1timer, start_t2timer, stop_t1timer, stop_t2timer}
use ras.X75.Send.{send_control, data_indication}
use ras.X75.Queues.{validate_nr, frames_acked, requeue_frames}
use ras.X75.Kick.{
  check_iframes_acked, check_need_response, set_rejected, set_peer_rx_busy, establish_data_link,
}
use ras.X75.In.{reset_link, send_ua, send_dm}
use ras.X75.Transfer.{
  reject_frame, reset_transfer, on_rr, on_rej, in_sequence, out_of_sequence, on_info, on_frmr,
  state3_dispatch,
}
use ras.X75.Requeue.{requeue_frames-eq}
use ras.X75.Ring.{next-lt, modulus_pos}
use ras.X75.Core.{
  Core, core, core-send_control, core-transmit_frmr, core-data_indication, core-enquiry_response,
  core-check_need_response, core-establish_data_link,
}
use ras.X75.Wf.{Wf, frames_acked-Wf, requeue_frames-Wf}

-- A step that leaves the core alone keeps the invariant.
Wf-of_eq : {k k' : Core} → k' ≡ k → Wf k → Wf k'
Wf-of_eq e w = subst Wf (sym e) w

either-Wf : (b : Bool) (x y : X75Cb) → Wf (core x) → Wf (core y) → Wf (core (if b then x else y))
either-Wf true x y p q = p
either-Wf false x y p q = q

module _ ⦃o : Osmo⦄ where
  core-reject_frame : (r : ℕ) (f : Frame) (c : X75Cb) → core (reject_frame r f c) ≡ core c
  unfolding reject_frame start_t1timer stop_t2timer
  core-reject_frame r f c = core-transmit_frmr (record c { frmr_data = f; frmr_type = r })

  core-out_of_sequence : (f : Frame) (c : X75Cb) → core (out_of_sequence f c) ≡ core c
  unfolding out_of_sequence
  core-out_of_sequence f c =
      ground
        (arith, core-enquiry_response c, core-send_control 0x09 f.pf response (set_rejected true c))

  core-in_sequence :
      (b : Msgb) (f : Frame) (c : X75Cb)
      → let k = core c in core (in_sequence b f c) ≡ record k { vr = (c.vr + 1) % modulus c }
  unfolding in_sequence start_t2timer
  core-in_sequence b f c =
      let given = data_indication b c in
      let counted = set_rejected false (record given { vr = (given.vr + 1) % modulus given }) in
      ground (arith, core-data_indication b c, core-enquiry_response counted)

  in_sequence-Wf : (b : Msgb) (f : Frame) (c : X75Cb) → Wf (core c) → Wf (core (in_sequence b f c))
  in_sequence-Wf b f c w = rw (core-in_sequence b f c) (record {
    write_counted = w.write_counted;
    ack_counted = w.ack_counted;
    vs_lt = w.vs_lt;
    vr_lt = next-lt c.mode.extended c.vr;
    va_lt = w.va_lt;
    window_pos = w.window_pos;
    window_lt = w.window_lt;
    fits = w.fits;
    outstanding = w.outstanding;
    transmits = w.transmits;
  })

  module _ (doc : Documented o) where
    reset-Wf : (c : X75Cb) → Wf (core c) → Wf (core (requeue_frames (reset_link c)))
    unfolding reset_link
    reset-Wf c w =
        rw (requeue_frames-eq doc (reset_link c) w.ack_counted)
          (ground (arith, length-append c.write_queue c.ack_queue, modulus_pos c.mode.extended))

    reset_transfer-Wf : (pf : Bool) (c : X75Cb) → Wf (core c) → Wf (core (reset_transfer pf c))
    unfolding reset_transfer send_ua
    reset_transfer-Wf pf c w =
        reset-Wf (send_control 0x63 pf response c)
          (Wf-of_eq (core-send_control 0x63 pf response c) w)

    check_iframes_acked-Wf :
        (nr : ℕ) (c : X75Cb)
        → Wf (core c)
        → nr < modulus c
        → validate_nr nr c ≡ true
        → Wf (core (check_iframes_acked nr c))
    unfolding check_iframes_acked start_t1timer stop_t1timer
    check_iframes_acked-Wf nr c w h v = elim (Bool-cases (c.vs == nr)) [
      | inl all ↦ rw all (frames_acked-Wf doc c nr w h v)
      | inr part ↦ elim (Bool-cases (c.va == nr)) [
        | inl nothing ↦ rw (part, nothing) w
        | inr some_acked ↦ rw (part, some_acked) (frames_acked-Wf doc c nr w h v)
      ]
    ]

-- The types that carry an N(R).
abbrev pub carries_nr : FrameType → Bool
carries_nr info = true
carries_nr rr = true
carries_nr rnr = true
carries_nr rej = true
carries_nr _ = false

modulus_of_core : (c d : X75Cb) → core c ≡ core d → modulus c ≡ modulus d
modulus_of_core c d e = ap (λ (k : Core). modulus_of k.mode.extended) e

module _ ⦃o : Osmo⦄ (doc : Documented o) where
  -- The answer to a poll that RR, RNR and REJ begin with.
  abbrev answered : Bool → Frame → X75Cb → X75Cb
  answered busy f c = c ▹ set_peer_rx_busy busy ▹ check_need_response f.cr f.pf

  core-answered : (busy : Bool) (f : Frame) (c : X75Cb) → core (answered busy f c) ≡ core c
  core-answered busy f c = core-check_need_response f.cr f.pf (set_peer_rx_busy busy c)

  answered-lt :
      (busy : Bool) (f : Frame) (c : X75Cb) → f.nr < modulus c → f.nr < modulus (answered busy f c)
  answered-lt busy f c h = rw (modulus_of_core (answered busy f c) c (core-answered busy f c)) h

  on_rr-Wf :
      (busy : Bool) (f : Frame) (c : X75Cb)
      → Wf (core c)
      → f.nr < modulus c
      → Wf (core (on_rr busy f c))
  unfolding on_rr
  on_rr-Wf busy f c w h =
      let a = answered busy f c in
      let w' = Wf-of_eq (core-answered busy f c) w in
      elim (Bool-cases (validate_nr f.nr a)) [
        | inl good ↦ rw good (check_iframes_acked-Wf doc f.nr a w' (answered-lt busy f c h) good)
        | inr bad ↦ rw bad (Wf-of_eq (core-reject_frame 0x08 f a) w')
      ]

  on_rej-Wf : (f : Frame) (c : X75Cb) → Wf (core c) → f.nr < modulus c → Wf (core (on_rej f c))
  unfolding on_rej stop_t1timer
  on_rej-Wf f c w h =
      let a = answered false f c in
      let w' = Wf-of_eq (core-answered false f c) w in
      elim (Bool-cases (validate_nr f.nr a)) [
        | inl good ↦ rw good (
            requeue_frames-Wf doc (record (stop_t1timer (frames_acked f.nr a)) { n2count = 0 })
              (frames_acked-Wf doc a f.nr w' (answered-lt false f c h) good))
        | inr bad ↦ rw bad (Wf-of_eq (core-reject_frame 0x08 f a) w')
      ]

  -- What an I frame acknowledges.
  acked_by_info-Wf :
      (f : Frame) (c : X75Cb)
      → Wf (core c)
      → f.nr < modulus c
      → validate_nr f.nr c ≡ true
      → Wf (
          core
            (if c.condition.peer_rx_busy then frames_acked f.nr c else check_iframes_acked f.nr c))
  acked_by_info-Wf f c w h good =
      either-Wf c.condition.peer_rx_busy _ _ (frames_acked-Wf doc c f.nr w h good)
        (check_iframes_acked-Wf doc f.nr c w h good)

  on_info-Wf :
      (b : Msgb) (f : Frame) (c : X75Cb)
      → Wf (core c)
      → f.nr < modulus c
      → Wf (core (on_info b f c))
  unfolding on_info
  on_info-Wf b f c w h =
      let a : X75Cb =
        if c.condition.peer_rx_busy then frames_acked f.nr c else check_iframes_acked f.nr c in
      elim (Bool-cases (validate_nr f.nr c)) [
        | inl good ↦
            let w' : Wf (core a) = acked_by_info-Wf f c w h good in
            elim (Bool-cases (f.ns == a.vr)) [
              | inl next ↦ rw (good, next) (in_sequence-Wf b f a w')
              | inr lost ↦ rw (good, lost) (Wf-of_eq (core-out_of_sequence f a) w')
            ]
        | inr bad ↦ rw bad (Wf-of_eq (core-reject_frame 0x08 f c) w)
      ]

  on_frmr-Wf : (c : X75Cb) → Wf (core c) → Wf (core (on_frmr c))
  unfolding on_frmr
  on_frmr-Wf c w =
      requeue_frames-Wf doc (establish_data_link c) (Wf-of_eq (core-establish_data_link c) w)

  refused_mode-Wf : (pf : Bool) (c : X75Cb) → Wf (core c) → Wf (core (send_dm pf c))
  unfolding send_dm
  refused_mode-Wf pf c w = Wf-of_eq (core-send_control 0x0F pf response c) w

  -- In the data transfer state every frame but DISC and DM leaves a well-formed link well formed,
  -- whether it is accepted, rejected or resets the link, if an N(R) that it carries is below the
  -- modulus.
  pub state3_dispatch-Wf :
      (t : FrameType) (b : Msgb) (f : Frame) (c : X75Cb)
      → Wf (core c)
      → (carries_nr t ≡ true → f.nr < modulus c)
      → t ≢ disc
      → t ≢ dm
      → Wf (core (state3_dispatch t b f c))
  unfolding state3_dispatch
  state3_dispatch-Wf info b f c w h nd nm = on_info-Wf b f c w (h refl)
  state3_dispatch-Wf rr b f c w h nd nm = on_rr-Wf false f c w (h refl)
  state3_dispatch-Wf rnr b f c w h nd nm = on_rr-Wf true f c w (h refl)
  state3_dispatch-Wf rej b f c w h nd nm = on_rej-Wf f c w (h refl)
  state3_dispatch-Wf sabm b f c w h nd nm =
      either-Wf c.mode.extended _ _ (refused_mode-Wf f.pf c w) (reset_transfer-Wf doc f.pf c w)
  state3_dispatch-Wf sabme b f c w h nd nm =
      either-Wf c.mode.extended _ _ (reset_transfer-Wf doc f.pf c w) (refused_mode-Wf f.pf c w)
  state3_dispatch-Wf disc b f c w h nd nm = absurd (nd refl)
  state3_dispatch-Wf dm b f c w h nd nm = absurd (nm refl)
  state3_dispatch-Wf ua b f c w h nd nm = w
  state3_dispatch-Wf frmr b f c w h nd nm = on_frmr-Wf c w
  state3_dispatch-Wf illegal b f c w h nd nm = Wf-of_eq (core-reject_frame 0x01 f c) w
  state3_dispatch-Wf (other n) b f c w h nd nm = w
