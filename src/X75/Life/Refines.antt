-- ===== src/X75/Life/Refines.antt =====
-- The link, with all its entry points, answers as the service says (src/x75/x75_iface.c,
-- src/x75/x75_in.c, src/x75/x75_timer.c).
use ras.Base.{◌≡◌, refl, false, Option, none, some}
use ras.Osmo.{Osmo, Msgb}
use ras.X75.Types.{
  State, disconnected, awaiting_connection, awaiting_disconnection, data_transfer, frame_reject,
  Mode, Frame, X75Cb,
}
use ras.X75.Frame.{decode}
use ras.X75.Kick.{kick}
use ras.X75.In.{state0_machine, state1_machine, state2_machine, state4_machine}
use ras.X75.Transfer.{state3_machine, state_machine, input_decoded, data_input}
use ras.X75.Expiry.{expires}
use ras.X75.Iface.{setparms, connect_request, disconnect_request, data_request, data_received}
use ras.X75.Life.{
  Input, connects, disconnects, sends, receives, tunes, t1_runs_out, t2_runs_out, left, happens,
  Standing, standing,
}
use ras.X75.Life.Service.{
  Label, to_tune, unreadable, frame, read_label, label, all_set, Answers, must_move,
}
use ras.X75.Life.Ways.{Silent, after, before, silent-Answers}
use ras.X75.Life.Frames.{state0-Answers, state1-Answers, state2-Answers, state4-Answers}
use ras.X75.Life.Transfers.{state3-Answers}
use ras.X75.Life.Requests.{
  Silent-kick, connect-Answers, disconnect-Answers, data-Answers, Silent-setparms,
}
use ras.X75.Life.Expiries.{Free, expires-Answers}

module _ ⦃o : Osmo⦄ where
  machine-Answers :
      (s : State) (b : Msgb) (f : Frame) (c : X75Cb)
      → c.callbacks ≡ all_set
      → c.state ≡ s
      → Answers c.mode (frame f b) s (standing c) (standing (state_machine s b f c))
  unfolding state_machine state0_machine state1_machine state2_machine state3_machine state4_machine
  machine-Answers disconnected b f c h st = state0-Answers f.type f b c refl h st
  machine-Answers awaiting_connection b f c h st = state1-Answers f.type f b c refl h st
  machine-Answers awaiting_disconnection b f c h st = state2-Answers f.type f b c refl h st
  machine-Answers data_transfer b f c h st = state3-Answers f.type f b c refl h st
  machine-Answers frame_reject b f c h st = state4-Answers f.type f b c refl h st

  idle_label : (m : Mode) (s : State) → must_move m s unreadable ≡ false
  idle_label m disconnected = refl
  idle_label m awaiting_connection = refl
  idle_label m awaiting_disconnection = refl
  idle_label m data_transfer = refl
  idle_label m frame_reject = refl

  decoded-Answers :
      (d : Option (Frame × Msgb)) (c : X75Cb)
      → c.callbacks ≡ all_set
      → Answers c.mode (read_label d) c.state (standing c) (standing (left (input_decoded d c)))
  unfolding read_label input_decoded
  decoded-Answers none c h =
      silent-Answers c.mode unreadable c.state c c refl (idle_label c.mode c.state)
        (refl, refl, refl)
  decoded-Answers (some (f, b)) c h =
      let d = state_machine c.state b f c in
      before (standing c) d (left (kick d)) (machine-Answers c.state b f c h refl) (Silent-kick d)

  tune-Free : Free to_tune
  tune-Free m disconnected = refl
  tune-Free m awaiting_connection = refl
  tune-Free m awaiting_disconnection = refl
  tune-Free m data_transfer = refl
  tune-Free m frame_reject = refl

  fired :
      {m : Mode} {l : Label} {s : State} (c d : X75Cb) (x : Standing)
      → Silent c d
      → Answers m l s (standing d) x
      → Answers m l s (standing c) x
  fired c d x q (es, t, leads, moves) = (es, t, leads, after c d x q moves)

  -- Whatever happens to a link whose callbacks are all set, and however the call ends, the link is
  -- left in a state to which the service leads from its state, by the same input, and its upper layer has
  -- been told, in this order and no more, what the service says of that way.
  pub happens-Answers :
      (i : Input) (c : X75Cb)
      → c.callbacks ≡ all_set
      → Answers c.mode (label i c) c.state (standing c) (standing (left (happens i c)))
  unfolding label happens connect_request disconnect_request data_request data_received data_input
  happens-Answers connects c h = connect-Answers c.state c refl
  happens-Answers disconnects c h = disconnect-Answers c.state c refl
  happens-Answers (sends skb) c h = data-Answers c.state skb c refl
  happens-Answers (receives garbage skb) c h = decoded-Answers (decode c.mode skb garbage) c h
  happens-Answers (tunes p) c h =
      silent-Answers c.mode to_tune c.state c (setparms p c).1 refl (tune-Free c.mode c.state)
        (Silent-setparms p c)
  happens-Answers t1_runs_out c h =
      let d = record c { t1timer = o.osmo_timer_del c.t1timer } in
      fired c d (standing (left (expires c.t1timer.cb d))) (refl, refl, refl)
        (expires-Answers c.t1timer.cb d h)
  happens-Answers t2_runs_out c h =
      let d = record c { t2timer = o.osmo_timer_del c.t2timer } in
      fired c d (standing (left (expires c.t2timer.cb d))) (refl, refl, refl)
        (expires-Answers c.t2timer.cb d h)
