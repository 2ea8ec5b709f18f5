-- ===== src/X75/In.antt =====
-- What an incoming frame does outside the data transfer state, states 0, 1, 2 and 4
-- (src/x75/x75_in.c).
use ras.Base.{Bool, if◌then◌else◌, ◌▹◌}
use ras.Osmo.{Osmo}
use ras.X75.Types.{
  State, disconnected, data_transfer, Code, ok, notconnected, refused, response, FrameType, info,
  rr, rnr, rej, sabm, sabme, disc, dm, ua, Frame, X75Cb, no_condition,
}
use ras.X75.Timer.{start_t1timer, stop_t1timer, stop_t2timer}
use ras.X75.Send.{
  send_control, connect_confirmation, connect_indication, disconnect_confirmation,
  disconnect_indication,
}
use ras.X75.Queues.{clear_queues}

abbrev pub set_state : State → X75Cb → X75Cb
set_state s c = record c { state = s }

module _ ⦃o : Osmo⦄ where
  -- The timers, the condition, the counter and the sequence numbers of a link set up or reset.
  unfoldable pub reset_link : X75Cb → X75Cb
  unfolding stop_t1timer stop_t2timer
  reset_link c =
      let stopped = c ▹ stop_t1timer ▹ stop_t2timer in
      record stopped { condition = no_condition; n2count = 0; vs = 0; vr = 0; va = 0 }

  unfoldable pub send_ua : Bool → X75Cb → X75Cb
  send_ua pf c = send_control 0x63 pf response c

  unfoldable pub send_dm : Bool → X75Cb → X75Cb
  send_dm pf c = send_control 0x0F pf response c

  -- The branch that takes the call, of states 0 and 4.
  unfoldable pub accept_link : Bool → X75Cb → X75Cb
  accept_link pf c = c ▹ send_ua pf ▹ reset_link ▹ set_state data_transfer ▹ connect_indication ok

  unfoldable pub state0_dispatch : FrameType → Frame → X75Cb → X75Cb
  state0_dispatch sabm f c = if c.mode.extended then send_dm f.pf c else accept_link f.pf c
  state0_dispatch sabme f c = if c.mode.extended then accept_link f.pf c else send_dm f.pf c
  state0_dispatch disc f c = send_ua f.pf c
  state0_dispatch _ f c = c

  unfoldable pub state0_machine : Frame → X75Cb → X75Cb
  unfolding state0_dispatch
  state0_machine f c = state0_dispatch f.type f c

  -- A UA or DM that is taken for an answer: the link is up, or refused.
  unfoldable pub confirm_link : X75Cb → X75Cb
  confirm_link c = c ▹ reset_link ▹ set_state data_transfer ▹ connect_confirmation ok

  unfoldable pub refuse_link : X75Cb → X75Cb
  refuse_link c =
      c
      ▹ clear_queues
      ▹ set_state disconnected
      ▹ start_t1timer
      ▹ stop_t2timer
      ▹ disconnect_indication refused

  unfoldable pub state1_dispatch : FrameType → Frame → X75Cb → X75Cb
  state1_dispatch sabm f c = if c.mode.extended then send_dm f.pf c else send_ua f.pf c
  state1_dispatch sabme f c = if c.mode.extended then send_ua f.pf c else send_dm f.pf c
  state1_dispatch disc f c = send_dm f.pf c
  state1_dispatch ua f c = if f.pf then confirm_link c else c
  state1_dispatch dm f c = if f.pf then refuse_link c else c
  state1_dispatch _ f c = c

  unfoldable pub state1_machine : Frame → X75Cb → X75Cb
  unfolding state1_dispatch
  state1_machine f c = state1_dispatch f.type f c

  unfoldable pub released : Code → X75Cb → X75Cb
  released reason c =
      c ▹ set_state disconnected ▹ start_t1timer ▹ stop_t2timer ▹ disconnect_confirmation reason

  unfoldable pub state2_dispatch : FrameType → Frame → X75Cb → X75Cb
  state2_dispatch sabm f c = send_dm f.pf c
  state2_dispatch sabme f c = send_dm f.pf c
  state2_dispatch disc f c = send_ua f.pf c
  state2_dispatch ua f c = if f.pf then released ok c else c
  state2_dispatch dm f c = if f.pf then released notconnected c else c
  state2_dispatch info f c = if f.pf then send_dm f.pf c else c
  state2_dispatch rej f c = if f.pf then send_dm f.pf c else c
  state2_dispatch rnr f c = if f.pf then send_dm f.pf c else c
  state2_dispatch rr f c = if f.pf then send_dm f.pf c else c
  state2_dispatch _ f c = c

  unfoldable pub state2_machine : Frame → X75Cb → X75Cb
  unfolding state2_dispatch
  state2_machine f c = state2_dispatch f.type f c

  unfoldable pub state4_dispatch : FrameType → Frame → X75Cb → X75Cb
  state4_dispatch sabm f c = if c.mode.extended then send_dm f.pf c else accept_link f.pf c
  state4_dispatch sabme f c = if c.mode.extended then accept_link f.pf c else send_dm f.pf c
  state4_dispatch _ f c = c

  unfoldable pub state4_machine : Frame → X75Cb → X75Cb
  unfolding state4_dispatch
  state4_machine f c = state4_dispatch f.type f c
