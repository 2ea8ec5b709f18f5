-- ===== src/X75/Life/Watched.antt =====
-- T1 watches over a link that waits for an answer, whatever happens to it (src/x75/x75_in.c,
-- src/x75/x75_iface.c, src/x75/x75_timer.c).
use ras.Base.{ℕ, ◌≡◌, refl, sym, subst, ap, ◌∙◌, Bool, true, false, not, ◌==◌, if◌then◌else◌, ◌▹◌}
use ras.Osmo.{Osmo, Documented, Msgb}
use ras.X75.Types.{
  disconnected, data_transfer, command, FrameType, info, rr, rnr, rej, sabm, sabme, disc, dm, ua,
  frmr, illegal, other, no_condition, Frame, X75Cb,
}
use ras.X75.Timer.{stop_t1timer}
use ras.X75.Send.{send_control, transmit_frmr}
use ras.X75.Queues.{validate_nr, frames_acked, requeue_frames}
use ras.X75.Kick.{establish_data_link, set_peer_rx_busy, check_need_response, check_iframes_acked}
use ras.X75.In.{send_dm}
use ras.X75.Transfer.{
  reject_frame, reset_transfer, on_disc, on_dm, on_rr, on_rej, in_sequence, out_of_sequence,
  on_info, on_frmr, state3_dispatch,
}
use ras.X75.Life.{Standing, standing}
use ras.X75.Life.Untouched.{standing-requeue_frames}
use ras.X75.Life.Ways.{Silent, Silent-trans}
use ras.X75.Life.Frames.{standing-send_dm}
use ras.X75.Life.Transfers.{
  Silent-answered, Silent-check_iframes_acked, Silent-reset_transfer, Silent-out_of_sequence,
  Silent-frames_acked, Silent-requeue_frames, Silent-either,
}
use ras.X75.Life.Watch.{
  Armed, IsWatched, not_waiting, either-IsWatched, stopped-Armed, on_disc-state, on_dm-state,
  in_sequence-state,
}

module _ ⦃o : Osmo⦄ (doc : Documented o) where
  pub reject_frame-IsWatched : (r : ℕ) (f : Frame) (c : X75Cb) → IsWatched (reject_frame r f c)
  unfolding reject_frame
  reject_frame-IsWatched r f c h =
      let a = stopped-Armed doc (transmit_frmr (record c { frmr_data = f; frmr_type = r })) in
      record { runs = a.runs; own = a.own; pends = a.pends; t2_off = a.t2_off }

  pub asking-Armed : (c : X75Cb) → Armed (standing (establish_data_link c))
  unfolding establish_data_link
  asking-Armed c =
      let cleared = record c { condition = no_condition; n2count = 0 } in
      stopped-Armed doc (send_control (if c.mode.extended then 0x6F else 0x2F) true command cleared)

  on_frmr-IsWatched : (c : X75Cb) → IsWatched (on_frmr c)
  unfolding on_frmr
  on_frmr-IsWatched c h =
      let asked = establish_data_link c in
      let a = subst Armed (sym (standing-requeue_frames asked)) (asking-Armed c) in
      record { runs = a.runs; own = a.own; pends = a.pends; t2_off = a.t2_off }

  module _ (f : Frame) (b : Msgb) (c : X75Cb) (st : c.state ≡ data_transfer) where
    carried : (d : X75Cb) → Silent c d → IsWatched d
    carried d q = not_waiting data_transfer d (q.0 ∙ st) refl

    on_rr-IsWatched : (busy : Bool) → IsWatched (on_rr busy f c)
    unfolding on_rr
    on_rr-IsWatched busy =
        let a = c ▹ set_peer_rx_busy busy ▹ check_need_response f.cr f.pf in
        let d = check_iframes_acked f.nr a in
        either-IsWatched (validate_nr f.nr a) d (reject_frame 0x08 f a)
          (carried d
            (Silent-trans c a d (Silent-answered busy f c) (Silent-check_iframes_acked f.nr a)))
          (reject_frame-IsWatched 0x08 f a)

    on_rej-IsWatched : IsWatched (on_rej f c)
    unfolding on_rej stop_t1timer
    on_rej-IsWatched =
        let a = c ▹ set_peer_rx_busy false ▹ check_need_response f.cr f.pf in
        let stopped = record (stop_t1timer (frames_acked f.nr a)) { n2count = 0 } in
        let to_stopped : Silent c stopped =
          Silent-trans c a stopped (Silent-answered false f c) (Silent-frames_acked f.nr a) in
        either-IsWatched (validate_nr f.nr a) (requeue_frames stopped) (reject_frame 0x08 f a)
          (carried (requeue_frames stopped) (
            Silent-trans c stopped (requeue_frames stopped) to_stopped
              (Silent-requeue_frames stopped)))
          (reject_frame-IsWatched 0x08 f a)

    on_info-IsWatched : IsWatched (on_info b f c)
    unfolding on_info
    on_info-IsWatched =
        let a =
          if c.condition.peer_rx_busy then frames_acked f.nr c else check_iframes_acked f.nr c in
        let s : Silent c a =
          Silent-either f b c st c.condition.peer_rx_busy (frames_acked f.nr c)
            (check_iframes_acked f.nr c) (Silent-frames_acked f.nr c)
            (Silent-check_iframes_acked f.nr c) in
        either-IsWatched (not (validate_nr f.nr c)) (reject_frame 0x08 f c)
          (if f.ns == a.vr then in_sequence b f a else out_of_sequence f a)
          (reject_frame-IsWatched 0x08 f c)
          (either-IsWatched (f.ns == a.vr) (in_sequence b f a) (out_of_sequence f a)
            (not_waiting data_transfer (in_sequence b f a) (in_sequence-state b f a ∙ (s.0 ∙ st))
              refl)
            (carried (out_of_sequence f a)
              (Silent-trans c a (out_of_sequence f a) s (Silent-out_of_sequence f a))))

    refused : IsWatched (send_dm f.pf c)
    refused =
        not_waiting data_transfer (send_dm f.pf c)
          (ap (λ (s : Standing). s.state) (standing-send_dm f.pf c) ∙ st) refl

    pub state3-IsWatched : (t : FrameType) → IsWatched (state3_dispatch t b f c)
    unfolding state3_dispatch
    state3-IsWatched info = on_info-IsWatched
    state3-IsWatched rr = on_rr-IsWatched false
    state3-IsWatched rnr = on_rr-IsWatched true
    state3-IsWatched rej = on_rej-IsWatched
    state3-IsWatched sabm =
        either-IsWatched c.mode.extended (send_dm f.pf c) (reset_transfer f.pf c) refused
          (carried (reset_transfer f.pf c) (Silent-reset_transfer f.pf c))
    state3-IsWatched sabme =
        either-IsWatched c.mode.extended (reset_transfer f.pf c) (send_dm f.pf c)
          (carried (reset_transfer f.pf c) (Silent-reset_transfer f.pf c)) refused
    state3-IsWatched disc = not_waiting disconnected (on_disc f c) (on_disc-state f c) refl
    state3-IsWatched dm = not_waiting disconnected (on_dm c) (on_dm-state c) refl
    state3-IsWatched frmr = on_frmr-IsWatched c
    state3-IsWatched illegal = reject_frame-IsWatched 0x01 f c
    state3-IsWatched ua = carried c (refl, refl, refl)
    state3-IsWatched (other n) = carried c (refl, refl, refl)
