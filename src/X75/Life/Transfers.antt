-- ===== src/X75/Life/Transfers.antt =====
-- The frames that arrive in the data transfer state, as answers of the service (src/x75/x75_in.c).
use ras.Base.{
  ℕ, ◌+◌, ◌%◌, ◌≡◌, refl, sym, subst, ap, ◌∙◌, Bool, true, false, not, [], ◌∷◌, ◌==◌, append-nil,
  if◌then◌else◌, ◌▹◌, arith,
}
use ras.Osmo.{Osmo, Msgb}
use ras.X75.Types.{
  awaiting_connection, data_transfer, frame_reject, no_condition, command, response, Event,
  FrameType, info, rr, rnr, rej, sabm, sabme, disc, dm, ua, frmr, illegal, other, Frame, X75Cb,
  modulus,
}
use ras.X75.Timer.{start_t1timer, start_t2timer, stop_t1timer, stop_t2timer}
use ras.X75.Send.{call, send_control, data_indication}
use ras.X75.Queues.{validate_nr, frames_acked, requeue_frames}
use ras.X75.Kick.{
  set_rejected, set_peer_rx_busy, establish_data_link, check_iframes_acked, check_need_response,
}
use ras.X75.In.{reset_link, send_ua, send_dm}
use ras.X75.Transfer.{
  reject_frame, reset_transfer, on_rr, on_rej, in_sequence, out_of_sequence, on_info, on_frmr,
  state3_dispatch,
}
use ras.X75.Life.{upper, standing}
use ras.X75.Life.Untouched.{
  standing-send_control, standing-transmit_frmr, standing-enquiry_response,
  standing-check_need_response, standing-frames_acked, standing-requeue_frames,
}
use ras.X75.Life.Service.{
  frame_moves, frame, rejectable, delivers, rejects, restarts, disconnected_by_peer, lost_by_peer,
  stays, all_set, Moves, Answers,
}
use ras.X75.Life.Ways.{Silent, silent, Silent-trans, after, still}
use ras.X75.Life.Told.{told_call, on_disc-Moves, on_dm-Moves}
use ras.X75.Life.Frames.{standing-send_dm}

module _ ⦃o : Osmo⦄ where
  reject_frame-Moves :
      (r : ℕ) (f : Frame) (c : X75Cb)
      → Moves (standing c) [] frame_reject (standing (reject_frame r f c))
  unfolding reject_frame start_t1timer stop_t2timer
  reject_frame-Moves r f c =
      let noted = record c { frmr_data = f; frmr_type = r } in
      ground (arith, standing-transmit_frmr noted, append-nil (upper c.events))

  pub Silent-answered :
      (busy : Bool) (f : Frame) (c : X75Cb)
      → Silent c (c ▹ set_peer_rx_busy busy ▹ check_need_response f.cr f.pf)
  Silent-answered busy f c =
      silent c (check_need_response f.cr f.pf (set_peer_rx_busy busy c))
        (standing-check_need_response f.cr f.pf (set_peer_rx_busy busy c))

  pub Silent-check_iframes_acked : (nr : ℕ) (c : X75Cb) → Silent c (check_iframes_acked nr c)
  unfolding check_iframes_acked start_t1timer stop_t1timer
  Silent-check_iframes_acked nr c = ground (arith, standing-frames_acked nr c)

  pub Silent-reset_transfer : (pf : Bool) (c : X75Cb) → Silent c (reset_transfer pf c)
  unfolding reset_transfer send_ua reset_link stop_t1timer stop_t2timer
  Silent-reset_transfer pf c =
      let sent = send_control 0x63 pf response c in
      ground
        (arith, standing-send_control 0x63 pf response c, standing-requeue_frames (reset_link sent))

  pub Silent-out_of_sequence : (f : Frame) (c : X75Cb) → Silent c (out_of_sequence f c)
  unfolding out_of_sequence
  Silent-out_of_sequence f c = ground (
    arith,
    standing-enquiry_response c,
    standing-send_control 0x09 f.pf response (set_rejected true c),
  )

  in_sequence-Moves :
      (b : Msgb) (f : Frame) (c : X75Cb)
      → c.callbacks ≡ all_set
      → Moves (standing c) (Event.data_indication b ∷ []) c.state (standing (in_sequence b f c))
  unfolding in_sequence data_indication start_t2timer
  in_sequence-Moves b f c h =
      let given = call (Event.data_indication b) c in
      let counted = set_rejected false (record given { vr = (given.vr + 1) % modulus given }) in
      ground (arith, standing-enquiry_response counted, told_call (Event.data_indication b) c)

  pub Silent-establish_data_link : (c : X75Cb) → Silent c (establish_data_link c)
  unfolding establish_data_link start_t1timer stop_t2timer
  Silent-establish_data_link c =
      let cleared = record c { condition = no_condition; n2count = 0 } in
      silent c (send_control (if c.mode.extended then 0x6F else 0x2F) true command cleared)
        (standing-send_control (if c.mode.extended then 0x6F else 0x2F) true command cleared)

  pub Silent-requeue_frames : (c : X75Cb) → Silent c (requeue_frames c)
  Silent-requeue_frames c = silent c (requeue_frames c) (standing-requeue_frames c)

  pub Silent-frames_acked : (nr : ℕ) (c : X75Cb) → Silent c (frames_acked nr c)
  Silent-frames_acked nr c = silent c (frames_acked nr c) (standing-frames_acked nr c)

  on_frmr-Moves : (c : X75Cb) → Moves (standing c) [] awaiting_connection (standing (on_frmr c))
  unfolding on_frmr
  on_frmr-Moves c =
      let asked = establish_data_link c in
      let s =
        Silent-trans c asked (requeue_frames asked) (Silent-establish_data_link c)
          (Silent-requeue_frames asked) in
      record { to = refl; callbacks = s.1; told = s.2 ∙ sym (append-nil (upper c.events)) }

  module _ (f : Frame) (b : Msgb) (c : X75Cb) (st : c.state ≡ data_transfer) where
    abbrev Reply : X75Cb → Type 0
    Reply d = Answers c.mode (frame f b) data_transfer (standing c) (standing d)

    Silent-Reply :
        (t : FrameType) (d : X75Cb)
        → f.type ≡ t
        → frame_moves c.mode data_transfer t f.pf ≡ false
        → Silent c d
        → Reply d
    Silent-Reply t d e q s = (
      [],
      data_transfer,
      stays (frame f b) data_transfer (still c.mode data_transfer f b t e q),
      record { to = s.0 ∙ st; callbacks = s.1; told = s.2 ∙ sym (append-nil (upper c.events)) },
    )

    reject-Reply :
        (t : FrameType) (r : ℕ) (d : X75Cb)
        → f.type ≡ t
        → rejectable t ≡ true
        → Silent c d
        → Reply (reject_frame r f d)
    reject-Reply t r d e q s = (
      [],
      frame_reject,
      rejects f b (ap rejectable e ∙ q),
      after c d (standing (reject_frame r f d)) s (reject_frame-Moves r f d),
    )

    either-Reply : (t : Bool) (x y : X75Cb) → Reply x → Reply y → Reply (if t then x else y)
    either-Reply true x y p q = p
    either-Reply false x y p q = q

    on_rr-Reply :
        (t : FrameType) (busy : Bool)
        → f.type ≡ t
        → frame_moves c.mode data_transfer t f.pf ≡ false
        → rejectable t ≡ true
        → Reply (on_rr busy f c)
    unfolding on_rr
    on_rr-Reply t busy e q r =
        let a = c ▹ set_peer_rx_busy busy ▹ check_need_response f.cr f.pf in
        let s = Silent-answered busy f c in
        either-Reply (validate_nr f.nr a) (check_iframes_acked f.nr a) (reject_frame 0x08 f a)
          (Silent-Reply t (check_iframes_acked f.nr a) e q
            (Silent-trans c a (check_iframes_acked f.nr a) s (Silent-check_iframes_acked f.nr a)))
          (reject-Reply t 0x08 a e r s)

    on_rej-Reply : f.type ≡ rej → Reply (on_rej f c)
    unfolding on_rej stop_t1timer
    on_rej-Reply e =
        let a = c ▹ set_peer_rx_busy false ▹ check_need_response f.cr f.pf in
        let s = Silent-answered false f c in
        let freed = frames_acked f.nr a in
        let stopped = record (stop_t1timer freed) { n2count = 0 } in
        let to_stopped : Silent c stopped =
          Silent-trans c a stopped s (Silent-frames_acked f.nr a) in
        either-Reply (validate_nr f.nr a) (requeue_frames stopped) (reject_frame 0x08 f a)
          (Silent-Reply rej (requeue_frames stopped) e refl (
            Silent-trans c stopped (requeue_frames stopped) to_stopped
              (Silent-requeue_frames stopped)))
          (reject-Reply rej 0x08 a e refl s)

    deliver-Reply :
        (a : X75Cb) → f.type ≡ info → c.callbacks ≡ all_set → Silent c a → Reply (in_sequence b f a)
    deliver-Reply a e h s = (
      Event.data_indication b ∷ [],
      data_transfer,
      delivers f b e,
      after c a (standing (in_sequence b f a)) s (
          subst
            (λ x.
              Moves (standing a) (Event.data_indication b ∷ []) x (standing (in_sequence b f a)))
            (s.0 ∙ st) (in_sequence-Moves b f a (s.1 ∙ h))),
    )

    pub Silent-either :
        (t : Bool) (x y : X75Cb) → Silent c x → Silent c y → Silent c (if t then x else y)
    Silent-either true x y p q = p
    Silent-either false x y p q = q

    on_info-Reply : f.type ≡ info → c.callbacks ≡ all_set → Reply (on_info b f c)
    unfolding on_info
    on_info-Reply e h =
        let a =
          if c.condition.peer_rx_busy then frames_acked f.nr c else check_iframes_acked f.nr c in
        let s : Silent c a =
          Silent-either c.condition.peer_rx_busy (frames_acked f.nr c) (check_iframes_acked f.nr c)
            (Silent-frames_acked f.nr c) (Silent-check_iframes_acked f.nr c) in
        either-Reply (not (validate_nr f.nr c)) (reject_frame 0x08 f c)
          (if f.ns == a.vr then in_sequence b f a else out_of_sequence f a)
          (reject-Reply info 0x08 c e refl (refl, refl, refl))
          (either-Reply (f.ns == a.vr) (in_sequence b f a) (out_of_sequence f a)
            (deliver-Reply a e h s)
            (Silent-Reply info (out_of_sequence f a) e refl
              (Silent-trans c a (out_of_sequence f a) s (Silent-out_of_sequence f a))))

    setting_up :
        (t : FrameType) (x : Bool)
        → f.type ≡ t
        → frame_moves c.mode data_transfer t f.pf ≡ false
        → (Reply (if x then send_dm f.pf c else reset_transfer f.pf c))
          × Reply (if x then reset_transfer f.pf c else send_dm f.pf c)
    setting_up t x e q =
        let refused =
          Silent-Reply t (send_dm f.pf c) e q
            (silent c (send_dm f.pf c) (standing-send_dm f.pf c)) in
        let reset = Silent-Reply t (reset_transfer f.pf c) e q (Silent-reset_transfer f.pf c) in
        (
          either-Reply x (send_dm f.pf c) (reset_transfer f.pf c) refused reset,
          either-Reply x (reset_transfer f.pf c) (send_dm f.pf c) reset refused,
        )

  pub state3-Answers :
      (t : FrameType) (f : Frame) (b : Msgb) (c : X75Cb)
      → f.type ≡ t
      → c.callbacks ≡ all_set
      → c.state ≡ data_transfer
      → Answers c.mode (frame f b) data_transfer (standing c) (standing (state3_dispatch t b f c))
  unfolding state3_dispatch
  state3-Answers info f b c e h st = on_info-Reply f b c st e h
  state3-Answers rr f b c e h st = on_rr-Reply f b c st rr false e refl refl
  state3-Answers rnr f b c e h st = on_rr-Reply f b c st rnr true e refl refl
  state3-Answers rej f b c e h st = on_rej-Reply f b c st e
  state3-Answers sabm f b c e h st = (setting_up f b c st sabm c.mode.extended e refl).0
  state3-Answers sabme f b c e h st = (setting_up f b c st sabme c.mode.extended e refl).1
  state3-Answers disc f b c e h st = (_, _, disconnected_by_peer f b e, on_disc-Moves f c h)
  state3-Answers dm f b c e h st = (_, _, lost_by_peer f b e, on_dm-Moves c h)
  state3-Answers frmr f b c e h st = (_, _, restarts f b e, on_frmr-Moves c)
  state3-Answers illegal f b c e h st =
      reject-Reply f b c st illegal 0x01 c e refl (refl, refl, refl)
  state3-Answers ua f b c e h st = Silent-Reply f b c st ua c e refl (refl, refl, refl)
  state3-Answers (other n) f b c e h st =
      Silent-Reply f b c st (other n) c e refl (refl, refl, refl)
