-- ===== src/X75/Transfer.antt =====
-- What an incoming frame does in the data transfer state, state 3, and the entry point
-- `x75_data_input` (src/x75/x75_in.c).
use ras.Base.{ℕ, ◌+◌, ◌%◌, Bool, true, false, not, Option, none, some, ◌==◌, if◌then◌else◌, ◌▹◌}
use ras.Osmo.{Osmo, Msgb}
use ras.X75.Types.{
  State, disconnected, awaiting_connection, awaiting_disconnection, data_transfer, frame_reject, ok,
  notconnected, response, FrameType, info, rr, rnr, rej, sabm, sabme, disc, dm, frmr, illegal,
  Frame, X75Cb, modulus,
}
use ras.X75.Timer.{start_t1timer, start_t2timer, stop_t1timer, stop_t2timer}
use ras.X75.Send.{send_control, transmit_frmr, data_indication, disconnect_indication}
use ras.X75.Queues.{clear_queues, frames_acked, requeue_frames, validate_nr}
use ras.X75.Kick.{
  Outcome, returns, kick, establish_data_link, enquiry_response, check_iframes_acked,
  check_need_response, set_ack_pending, set_rejected, set_peer_rx_busy,
}
use ras.X75.Frame.{decode}
use ras.X75.In.{
  set_state, reset_link, send_ua, send_dm, state0_machine, state1_machine, state2_machine,
  state4_machine,
}

module _ ⦃o : Osmo⦄ where
  -- Answer with an FRMR for `reason`, and enter the frame reject state.
  unfoldable pub reject_frame : ℕ → Frame → X75Cb → X75Cb
  reject_frame reason f c =
      let noted = record c { frmr_data = f; frmr_type = reason } in
      let rejecting = noted ▹ transmit_frmr ▹ start_t1timer ▹ stop_t2timer in
      record rejecting { state = frame_reject; n2count = 0 }

  -- X75_FRMR_W and X75_FRMR_Z
  abbrev pub frmr_w : ℕ
  frmr_w = 0x01

  abbrev pub frmr_z : ℕ
  frmr_z = 0x08

  unfoldable pub reset_transfer : Bool → X75Cb → X75Cb
  reset_transfer pf c = c ▹ send_ua pf ▹ reset_link ▹ requeue_frames

  unfoldable pub on_disc : Frame → X75Cb → X75Cb
  on_disc f c =
      c
      ▹ clear_queues
      ▹ send_ua f.pf
      ▹ start_t1timer
      ▹ stop_t2timer
      ▹ set_state disconnected
      ▹ disconnect_indication ok

  unfoldable pub on_dm : X75Cb → X75Cb
  on_dm c =
      c
      ▹ clear_queues
      ▹ set_state disconnected
      ▹ start_t1timer
      ▹ stop_t2timer
      ▹ disconnect_indication notconnected

  -- RR and RNR, which differ in what they say of the peer's receiver.
  unfoldable pub on_rr : Bool → Frame → X75Cb → X75Cb
  on_rr busy f c =
      let answered = c ▹ set_peer_rx_busy busy ▹ check_need_response f.cr f.pf in
      if validate_nr f.nr answered
      then check_iframes_acked f.nr answered
      else reject_frame frmr_z f answered

  abbrev clear_n2count : X75Cb → X75Cb
  clear_n2count c = record c { n2count = 0 }

  unfoldable pub on_rej : Frame → X75Cb → X75Cb
  on_rej f c =
      let answered = c ▹ set_peer_rx_busy false ▹ check_need_response f.cr f.pf in
      if validate_nr f.nr answered
      then answered ▹ frames_acked f.nr ▹ stop_t1timer ▹ clear_n2count ▹ requeue_frames
      else reject_frame frmr_z f answered

  -- An I frame in sequence: up it goes, and it is acknowledged at once or after T2.
  unfoldable pub in_sequence : Msgb → Frame → X75Cb → X75Cb
  in_sequence skb f c =
      let given = data_indication skb c in
      let counted = set_rejected false (record given { vr = (given.vr + 1) % modulus given }) in
      if f.pf
      then enquiry_response counted
      else if not counted.condition.ack_pending
      then (counted ▹ set_ack_pending true ▹ start_t2timer)
      else counted

  unfoldable pub out_of_sequence : Frame → X75Cb → X75Cb
  out_of_sequence f c =
      if c.condition.rejected
      then (if f.pf then enquiry_response c else c)
      else (c ▹ set_rejected true ▹ send_control 0x09 f.pf response ▹ set_ack_pending false)

  unfoldable pub on_info : Msgb → Frame → X75Cb → X75Cb
  on_info skb f c =
      let acked =
        if c.condition.peer_rx_busy then frames_acked f.nr c else check_iframes_acked f.nr c in
      if not (validate_nr f.nr c)
      then reject_frame frmr_z f c
      else if f.ns == acked.vr
      then in_sequence skb f acked
      else out_of_sequence f acked

  unfoldable pub on_frmr : X75Cb → X75Cb
  on_frmr c = c ▹ establish_data_link ▹ requeue_frames ▹ set_state awaiting_connection

  unfoldable pub state3_dispatch : FrameType → Msgb → Frame → X75Cb → X75Cb
  state3_dispatch sabm skb f c = if c.mode.extended then send_dm f.pf c else reset_transfer f.pf c
  state3_dispatch sabme skb f c = if c.mode.extended then reset_transfer f.pf c else send_dm f.pf c
  state3_dispatch disc skb f c = on_disc f c
  state3_dispatch dm skb f c = on_dm c
  state3_dispatch rnr skb f c = on_rr true f c
  state3_dispatch rr skb f c = on_rr false f c
  state3_dispatch rej skb f c = on_rej f c
  state3_dispatch info skb f c = on_info skb f c
  state3_dispatch frmr skb f c = on_frmr c
  state3_dispatch illegal skb f c = reject_frame frmr_w f c
  state3_dispatch _ skb f c = c

  unfoldable pub state3_machine : Msgb → Frame → X75Cb → X75Cb
  unfolding state3_dispatch
  state3_machine skb f c = state3_dispatch f.type skb f c

  unfoldable pub state_machine : State → Msgb → Frame → X75Cb → X75Cb
  state_machine disconnected skb f c = state0_machine f c
  state_machine awaiting_connection skb f c = state1_machine f c
  state_machine awaiting_disconnection skb f c = state2_machine f c
  state_machine data_transfer skb f c = state3_machine skb f c
  state_machine frame_reject skb f c = state4_machine f c

  -- What `x75_data_input` does with what `x75_decode` has read.
  unfoldable pub input_decoded : Option (Frame × Msgb) → X75Cb → Outcome
  input_decoded none c = returns c
  input_decoded (some (f, rest)) c = kick (state_machine c.state rest f c)

  -- `x75_data_input`; `garbage` is what its local `frame` holds before anything is written.
  unfoldable pub data_input : Frame → Msgb → X75Cb → Outcome
  unfolding input_decoded
  data_input garbage skb c = input_decoded (decode c.mode skb garbage) c
