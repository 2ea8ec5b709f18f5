-- ===== src/X75/Expiry.antt =====
-- What the two timers do when they run out (src/x75/x75_timer.c).
use ras.Base.{◌+◌, true, false, not, ◌&&◌, ◌||◌, Option, none, some}
use ras.Base.{◌==◌, if◌then◌else◌, ◌▹◌, u16}
use ras.Osmo.{Osmo, Expiry, t1timer_expiry, t2timer_expiry}
use ras.X75.Types.{
  State, disconnected, awaiting_connection, awaiting_disconnection, data_transfer, frame_reject,
  timedout, command, X75Cb,
}
use ras.X75.Timer.{start_t1timer, stop_t2timer}
use ras.X75.Send.{send_control, transmit_frmr, disconnect_indication, disconnect_confirmation}
use ras.X75.Queues.{clear_queues, requeue_frames}
use ras.X75.Kick.{
  Outcome, returns, exits, copies_null, kick, establish_data_link, timeout_response,
  set_ack_pending,
}
use ras.X75.In.{set_state, send_dm}

abbrev pub count_retry : X75Cb → X75Cb
count_retry c = record c { n2count = u16 (c.n2count + 1) }

abbrev t1_stopped : X75Cb → X75Cb
t1_stopped c = record c { t1timer_running = false }

module _ ⦃o : Osmo⦄ where
  unfoldable pub t2_expires : X75Cb → X75Cb
  t2_expires c =
      let answered = c ▹ set_ack_pending false ▹ timeout_response in
      let done = if c.condition.ack_pending then answered else c in
      if o.osmo_timer_pending c.t2timer || not c.t2timer_running
      then c
      else record done { t2timer_running = false }

  -- The N2 retries are used up: the link is given up. No timer runs afterwards.
  unfoldable pub give_up : X75Cb → X75Cb
  give_up c =
      c ▹ clear_queues ▹ set_state disconnected ▹ disconnect_indication timedout ▹ t1_stopped

  unfoldable pub give_up_release : X75Cb → X75Cb
  give_up_release c =
      c ▹ clear_queues ▹ set_state disconnected ▹ disconnect_confirmation timedout ▹ t1_stopped

  unfoldable pub give_up_transfer : X75Cb → X75Cb
  give_up_transfer c =
      c
      ▹ clear_queues
      ▹ set_state disconnected
      ▹ stop_t2timer
      ▹ disconnect_indication timedout
      ▹ t1_stopped

  -- SABM(E), DISC or FRMR once more, T1 started again behind the switch.
  unfoldable pub retry_connection : X75Cb → X75Cb
  retry_connection c =
      c
      ▹ count_retry
      ▹ send_control (if c.mode.extended then 0x6F else 0x2F) true command
      ▹ start_t1timer

  unfoldable pub retry_release : X75Cb → X75Cb
  retry_release c = c ▹ count_retry ▹ send_control 0x43 true command ▹ start_t1timer

  unfoldable pub retry_frmr : X75Cb → X75Cb
  retry_frmr c = c ▹ count_retry ▹ transmit_frmr ▹ start_t1timer

  -- The call of `x75_start_t1timer` behind the switch.
  unfoldable pub then_start : Outcome → Outcome
  then_start (returns c) = returns (start_t1timer c)
  then_start (exits c) = exits c
  then_start (copies_null c) = copies_null c

  unfoldable pub t1_dispatch : State → X75Cb → Outcome
  t1_dispatch disconnected c =
      if c.mode.dce && not (c.n2count == c.n2)
      then returns (c ▹ count_retry ▹ send_dm false ▹ start_t1timer)
      else returns (c ▹ set_state awaiting_connection ▹ establish_data_link ▹ start_t1timer)
  t1_dispatch awaiting_connection c =
      returns (if c.n2count == c.n2 then give_up c else retry_connection c)
  t1_dispatch awaiting_disconnection c =
      returns (if c.n2count == c.n2 then give_up_release c else retry_release c)
  t1_dispatch data_transfer c =
      if c.n2count == c.n2
      then returns (give_up_transfer c)
      else then_start (c ▹ count_retry ▹ requeue_frames ▹ kick)
  t1_dispatch frame_reject c = returns (if c.n2count == c.n2 then give_up c else retry_frmr c)

  unfoldable pub t1_expires : X75Cb → Outcome
  t1_expires c =
      if o.osmo_timer_pending c.t1timer || not c.t1timer_running
      then returns c
      else t1_dispatch c.state c

  -- A timer that runs out is no longer pending, and its function is called on the link.
  unfoldable pub expires : Option Expiry → X75Cb → Outcome
  expires none c = returns c
  expires (some t1timer_expiry) c = t1_expires c
  expires (some t2timer_expiry) c = returns (t2_expires c)
