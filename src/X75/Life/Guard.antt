-- ===== src/X75/Life/Guard.antt =====
-- Whatever happens to a link, T1 watches over it while it waits for an answer: the timers and the
-- requests (src/x75/x75_timer.c, src/x75/x75_iface.c), and runs of them all.
use ras.Base.{◌≡◌, refl, sym, subst, ap, ◌∙◌, true, Option, none, some, ◌▹◌, arith}
use ras.Osmo.{Osmo, Documented, Msgb, Timer}
use ras.X75.Types.{
  State, disconnected, awaiting_connection, awaiting_disconnection, data_transfer, frame_reject,
  command, Frame, Parms, X75Cb, Callbacks,
}
use ras.X75.Timer.{start_t1timer, stop_t2timer}
use ras.X75.Send.{send_control}
use ras.X75.Frame.{decode}
use ras.X75.Queues.{clear_queues, enqueue_write}
use ras.X75.Kick.{kick, establish_data_link}
use ras.X75.In.{set_state, state0_machine, state1_machine, state2_machine, state4_machine}
use ras.X75.Transfer.{state3_machine, state_machine, input_decoded, data_input}
use ras.X75.Iface.{
  register, setparms, connect_dispatch, connect_request, disconnect_dispatch, disconnect_request,
  data_dispatch, data_request, data_received,
}
use ras.X75.Retry.{waits}
use ras.X75.Life.{
  Input, connects, disconnects, sends, receives, tunes, t1_runs_out, t2_runs_out, left, happens,
  Reach, here, next, standing,
}
use ras.X75.Life.Untouched.{standing-enqueue_write}
use ras.X75.Life.Watch.{
  Armed, IsWatched, same-IsWatched, not_waiting, kick-IsWatched, stopped-Armed, state0-IsWatched,
  state1-IsWatched, state2-IsWatched, state4-IsWatched,
}
use ras.X75.Life.Watched.{asking-Armed, state3-IsWatched}
use ras.X75.Life.Alarm.{announced, t1_runs_out-IsWatched, t2_runs_out-IsWatched}

module _ ⦃o : Osmo⦄ where
  registered : (callbacks : Callbacks) (c : X75Cb) → (register callbacks c).state ≡ disconnected
  unfolding register start_t1timer
  registered callbacks c = refl

  setparms-timers :
      (p : Parms) (c : X75Cb)
      → let d = (setparms p c).1 in
        (d.state ≡ c.state)
        × (d.t1timer ≡ c.t1timer)
        × (d.t1timer_running ≡ c.t1timer_running)
        × (d.t2timer_running ≡ c.t2timer_running)
  unfolding setparms
  setparms-timers p c = ground arith

  module _ (doc : Documented o) where
    machine-IsWatched :
        (s : State) (b : Msgb) (f : Frame) (c : X75Cb)
        → c.state ≡ s
        → IsWatched c
        → IsWatched (state_machine s b f c)
    unfolding state_machine state0_machine state1_machine state2_machine state3_machine
        state4_machine
    machine-IsWatched disconnected b f c st w = state0-IsWatched f.type f c w
    machine-IsWatched awaiting_connection b f c st w = state1-IsWatched f.type f c w
    machine-IsWatched awaiting_disconnection b f c st w = state2-IsWatched f.type f c w
    machine-IsWatched data_transfer b f c st w = state3-IsWatched doc f b c st f.type
    machine-IsWatched frame_reject b f c st w = state4-IsWatched f.type f c w

    decoded-IsWatched :
        (d : Option (Frame × Msgb)) (c : X75Cb) → IsWatched c → IsWatched (left (input_decoded d c))
    unfolding input_decoded
    decoded-IsWatched none c w = w
    decoded-IsWatched (some (f, b)) c w =
        kick-IsWatched (state_machine c.state b f c) (machine-IsWatched c.state b f c refl w)

    -- The timer started behind a control frame.
    asking :
        (c : X75Cb) → Armed (standing (c ▹ establish_data_link ▹ set_state awaiting_connection))
    asking c =
        let a = asking-Armed doc c in
        record { runs = a.runs; own = a.own; pends = a.pends; t2_off = a.t2_off }

    releasing :
        (c : X75Cb)
        → Armed (
            standing (
              c
              ▹ clear_queues
              ▹ (λ d. record d { n2count = 0 })
              ▹ send_control 0x43 true command
              ▹ start_t1timer
              ▹ stop_t2timer
              ▹ set_state awaiting_disconnection))
    releasing c =
        let a =
          stopped-Armed doc
            (send_control 0x43 true command (record (clear_queues c) { n2count = 0 })) in
        record { runs = a.runs; own = a.own; pends = a.pends; t2_off = a.t2_off }

    sending : (b : Msgb) (c : X75Cb) → IsWatched c → IsWatched (left (kick (enqueue_write b c)))
    sending b c w =
        kick-IsWatched (enqueue_write b c)
          (same-IsWatched c (enqueue_write b c) (standing-enqueue_write b c) w)

    connect-IsWatched : (s : State) (c : X75Cb) → IsWatched c → IsWatched (connect_dispatch s c).1
    unfolding connect_dispatch
    connect-IsWatched disconnected c w h = asking c
    connect-IsWatched awaiting_disconnection c w h = asking c
    connect-IsWatched awaiting_connection c w h = w h
    connect-IsWatched data_transfer c w h = w h
    connect-IsWatched frame_reject c w h = w h

    disconnect-IsWatched :
        (s : State) (c : X75Cb) → IsWatched c → IsWatched (disconnect_dispatch s c).1
    unfolding disconnect_dispatch
    disconnect-IsWatched disconnected c w h = w h
    disconnect-IsWatched awaiting_connection c w h =
        let told = set_state disconnected (send_control 0x43 true command c) in
        not_waiting disconnected (start_t1timer told) (announced told) refl h
    disconnect-IsWatched awaiting_disconnection c w h = w h
    disconnect-IsWatched data_transfer c w h = releasing c
    disconnect-IsWatched frame_reject c w h = releasing c

    data-IsWatched :
        (s : State) (b : Msgb) (c : X75Cb) → IsWatched c → IsWatched (left (data_dispatch s b c).1)
    unfolding data_dispatch
    data-IsWatched disconnected b c w = w
    data-IsWatched awaiting_connection b c w = w
    data-IsWatched awaiting_disconnection b c w = w
    data-IsWatched data_transfer b c w = sending b c w
    data-IsWatched frame_reject b c w = sending b c w

    setparms-IsWatched : (p : Parms) (c : X75Cb) → IsWatched c → IsWatched (setparms p c).1
    setparms-IsWatched p c w h =
        let (s, t, runs, off) = setparms-timers p c in
        let a = w (ap waits (sym s) ∙ h) in
        record {
          runs = runs ∙ a.runs;
          own = ap (λ (t : Timer). t.cb) t ∙ a.own;
          pends = ap o.osmo_timer_pending t ∙ a.pends;
          t2_off = off ∙ a.t2_off;
        }

    happens-IsWatched : (i : Input) (c : X75Cb) → IsWatched c → IsWatched (left (happens i c))
    unfolding happens connect_request disconnect_request data_request data_received data_input
    happens-IsWatched connects c w = connect-IsWatched c.state c w
    happens-IsWatched disconnects c w = disconnect-IsWatched c.state c w
    happens-IsWatched (sends skb) c w = data-IsWatched c.state skb c w
    happens-IsWatched (receives garbage skb) c w = decoded-IsWatched (decode c.mode skb garbage) c w
    happens-IsWatched (tunes p) c w = setparms-IsWatched p c w
    happens-IsWatched t1_runs_out c w = t1_runs_out-IsWatched doc c.t1timer.cb c refl w
    happens-IsWatched t2_runs_out c w = t2_runs_out-IsWatched doc c.t2timer.cb c w

    -- From `x75_register` on, in whatever order the link is called, its timers run out and frames
    -- arrive, of any content: while the link awaits a connection or a release, or has rejected a frame,
    -- T1 runs, is scheduled and has its own function, so that the link is not left waiting for ever,
    -- and T2 does not run.
    pub run-IsWatched :
        (callbacks : Callbacks) (memory d : X75Cb)
        → Reach (register callbacks memory) d
        → waits d.state ≡ true
        → Armed (standing d)
    run-IsWatched callbacks memory d r = all r
      where
        all : {d : X75Cb} → Reach (register callbacks memory) d → IsWatched d
        all here =
            not_waiting disconnected (register callbacks memory) (registered callbacks memory) refl
        all (next {d} {d'} r i e) = subst IsWatched (ap left e) (happens-IsWatched i d (all r))
