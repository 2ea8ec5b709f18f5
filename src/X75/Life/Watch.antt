-- ===== src/X75/Life/Watch.antt =====
-- T1 watches over a link that waits for an answer: the frames that arrive (src/x75/x75_in.c).
use ras.Base.{
  ◌+◌, ◌*◌, ◌%◌, ◌≡◌, refl, sym, subst, ap, ◌∙◌, Bool, true, false, some, inl, inr, if◌then◌else◌,
  arith,
}
use ras.Osmo.{Osmo, Documented, Msgb, t1timer_expiry}
use ras.X75.Types.{
  State, disconnected, data_transfer, Code, ok, notconnected, FrameType, info, rr, rnr, rej, sabm,
  sabme, disc, dm, ua, Frame, X75Cb, modulus,
}
use ras.X75.Timer.{start_t1timer, start_t2timer, stop_t2timer}
use ras.X75.Send.{
  data_indication, connect_confirmation, connect_indication, disconnect_confirmation,
  disconnect_indication,
}
use ras.X75.Kick.{kick, set_rejected}
use ras.X75.In.{
  send_ua, send_dm, accept_link, confirm_link, refuse_link, released, state0_dispatch,
  state1_dispatch, state2_dispatch, state4_dispatch,
}
use ras.X75.Transfer.{on_disc, on_dm, in_sequence}
use ras.X75.Retry.{waits}
use ras.X75.Life.{left, Standing, standing}
use ras.X75.Life.Untouched.{standing-enquiry_response, standing-kick}
use ras.X75.Life.Frames.{standing-send_dm, standing-send_ua}

module _ ⦃o : Osmo⦄ where
  -- T1 runs, is scheduled and has its own function, and T2 does not run.
  pub record Armed (s : Standing) : Type 0 where
    pub runs : s.t1timer_running ≡ true
    pub own : s.t1timer.cb ≡ some t1timer_expiry
    pub pends : o.osmo_timer_pending s.t1timer ≡ true
    pub t2_off : s.t2timer_running ≡ false

  -- A link that waits for an answer is watched by T1.
  abbrev pub IsWatched : X75Cb → Type 0
  IsWatched c = waits c.state ≡ true → Armed (standing c)

  pub same-IsWatched : (c d : X75Cb) → standing d ≡ standing c → IsWatched c → IsWatched d
  same-IsWatched c d e w h =
      subst Armed (sym e) (w (ap (λ (s : Standing). waits s.state) (sym e) ∙ h))

  pub not_waiting : (s : State) (d : X75Cb) → d.state ≡ s → waits s ≡ false → IsWatched d
  not_waiting s d e n h = absurd (cc (ap waits e, n, h))

  pub kick-IsWatched : (c : X75Cb) → IsWatched c → IsWatched (left (kick c))
  kick-IsWatched c w = elim (standing-kick c) [
    | inl same ↦ same-IsWatched c (left (kick c)) same w
    | inr (off, on) ↦
        λ h. absurd (cc ((w (ap (λ (s : Standing). waits s.state) (sym on) ∙ h)).runs, off))
  ]

  pub either-IsWatched :
      (b : Bool) (x y : X75Cb) → IsWatched x → IsWatched y → IsWatched (if b then x else y)
  either-IsWatched true x y p q = p
  either-IsWatched false x y p q = q

  module _ (doc : Documented o) where
    pub started-Armed : (c : X75Cb) → c.t2timer_running ≡ false → Armed (standing (start_t1timer c))
    unfolding start_t1timer
    started-Armed c off =
        let deleted = o.osmo_timer_del c.t1timer in
        let set_up = o.osmo_timer_setup deleted (some t1timer_expiry) in
        ground (
          arith,
          doc.schedule_cb set_up 0 (c.t1 * 1000),
          doc.schedule_pending set_up 0 (c.t1 * 1000),
          doc.setup deleted (some t1timer_expiry),
        )

    pub stopped-Armed : (c : X75Cb) → Armed (standing (stop_t2timer (start_t1timer c)))
    unfolding start_t1timer stop_t2timer
    stopped-Armed c =
        let deleted = o.osmo_timer_del c.t1timer in
        let set_up = o.osmo_timer_setup deleted (some t1timer_expiry) in
        ground (
          arith,
          doc.schedule_cb set_up 0 (c.t1 * 1000),
          doc.schedule_pending set_up 0 (c.t1 * 1000),
          doc.setup deleted (some t1timer_expiry),
        )

  accept_link-state : (pf : Bool) (c : X75Cb) → (accept_link pf c).state ≡ data_transfer
  unfolding accept_link connect_indication
  accept_link-state pf c = ground arith

  confirm_link-state : (c : X75Cb) → (confirm_link c).state ≡ data_transfer
  unfolding confirm_link connect_confirmation
  confirm_link-state c = ground arith

  refuse_link-state : (c : X75Cb) → (refuse_link c).state ≡ disconnected
  unfolding refuse_link start_t1timer stop_t2timer disconnect_indication
  refuse_link-state c = ground arith

  released-state : (r : Code) (c : X75Cb) → (released r c).state ≡ disconnected
  unfolding released start_t1timer stop_t2timer disconnect_confirmation
  released-state r c = ground arith

  pub on_disc-state : (f : Frame) (c : X75Cb) → (on_disc f c).state ≡ disconnected
  unfolding on_disc disconnect_indication
  on_disc-state f c = ground arith

  pub on_dm-state : (c : X75Cb) → (on_dm c).state ≡ disconnected
  unfolding on_dm start_t1timer stop_t2timer disconnect_indication
  on_dm-state c = ground arith

  pub in_sequence-state : (b : Msgb) (f : Frame) (c : X75Cb) → (in_sequence b f c).state ≡ c.state
  unfolding in_sequence data_indication start_t2timer
  in_sequence-state b f c =
      let given = data_indication b c in
      let counted = set_rejected false (record given { vr = (given.vr + 1) % modulus given }) in
      ground (arith, standing-enquiry_response counted)

  accepting : (pf : Bool) (c : X75Cb) → IsWatched (accept_link pf c)
  accepting pf c = not_waiting data_transfer (accept_link pf c) (accept_link-state pf c) refl

  refusing_mode : (pf : Bool) (c : X75Cb) → IsWatched c → IsWatched (send_dm pf c)
  refusing_mode pf c = same-IsWatched c (send_dm pf c) (standing-send_dm pf c)

  answering : (pf : Bool) (c : X75Cb) → IsWatched c → IsWatched (send_ua pf c)
  answering pf c = same-IsWatched c (send_ua pf c) (standing-send_ua pf c)

  pub state0-IsWatched :
      (t : FrameType) (f : Frame) (c : X75Cb) → IsWatched c → IsWatched (state0_dispatch t f c)
  unfolding state0_dispatch
  state0-IsWatched sabm f c w =
      either-IsWatched c.mode.extended (send_dm f.pf c) (accept_link f.pf c)
        (refusing_mode f.pf c w) (accepting f.pf c)
  state0-IsWatched sabme f c w =
      either-IsWatched c.mode.extended (accept_link f.pf c) (send_dm f.pf c) (accepting f.pf c)
        (refusing_mode f.pf c w)
  state0-IsWatched disc f c w = answering f.pf c w
  state0-IsWatched t f c w = w

  pub state1-IsWatched :
      (t : FrameType) (f : Frame) (c : X75Cb) → IsWatched c → IsWatched (state1_dispatch t f c)
  unfolding state1_dispatch
  state1-IsWatched sabm f c w =
      either-IsWatched c.mode.extended (send_dm f.pf c) (send_ua f.pf c) (refusing_mode f.pf c w)
        (answering f.pf c w)
  state1-IsWatched sabme f c w =
      either-IsWatched c.mode.extended (send_ua f.pf c) (send_dm f.pf c) (answering f.pf c w)
        (refusing_mode f.pf c w)
  state1-IsWatched disc f c w = refusing_mode f.pf c w
  state1-IsWatched ua f c w =
      either-IsWatched f.pf (confirm_link c) c
        (not_waiting data_transfer (confirm_link c) (confirm_link-state c) refl) w
  state1-IsWatched dm f c w =
      either-IsWatched f.pf (refuse_link c) c
        (not_waiting disconnected (refuse_link c) (refuse_link-state c) refl) w
  state1-IsWatched t f c w = w

  releasing :
      (r : Code) (pf : Bool) (c : X75Cb) → IsWatched c → IsWatched (if pf then released r c else c)
  releasing r pf c w =
      either-IsWatched pf (released r c) c
        (not_waiting disconnected (released r c) (released-state r c) refl) w

  refusing_data : (pf : Bool) (c : X75Cb) → IsWatched c → IsWatched (if pf then send_dm pf c else c)
  refusing_data pf c w = either-IsWatched pf (send_dm pf c) c (refusing_mode pf c w) w

  pub state2-IsWatched :
      (t : FrameType) (f : Frame) (c : X75Cb) → IsWatched c → IsWatched (state2_dispatch t f c)
  unfolding state2_dispatch
  state2-IsWatched sabm f c w = refusing_mode f.pf c w
  state2-IsWatched sabme f c w = refusing_mode f.pf c w
  state2-IsWatched disc f c w = answering f.pf c w
  state2-IsWatched ua f c w = releasing ok f.pf c w
  state2-IsWatched dm f c w = releasing notconnected f.pf c w
  state2-IsWatched info f c w = refusing_data f.pf c w
  state2-IsWatched rr f c w = refusing_data f.pf c w
  state2-IsWatched rnr f c w = refusing_data f.pf c w
  state2-IsWatched rej f c w = refusing_data f.pf c w
  state2-IsWatched t f c w = w

  pub state4-IsWatched :
      (t : FrameType) (f : Frame) (c : X75Cb) → IsWatched c → IsWatched (state4_dispatch t f c)
  unfolding state4_dispatch
  state4-IsWatched sabm f c w =
      either-IsWatched c.mode.extended (send_dm f.pf c) (accept_link f.pf c)
        (refusing_mode f.pf c w) (accepting f.pf c)
  state4-IsWatched sabme f c w =
      either-IsWatched c.mode.extended (accept_link f.pf c) (send_dm f.pf c) (accepting f.pf c)
        (refusing_mode f.pf c w)
  state4-IsWatched t f c w = w
