-- ===== src/X75/Life/Requests.antt =====
-- What the upper layer asks, as answers of the service (src/x75/x75_iface.c).
use ras.Base.{◌≡◌, refl, ap, ◌∙◌, sym, true, [], append-nil, inl, inr, ◌▹◌, arith}
use ras.Osmo.{Osmo, Msgb}
use ras.X75.Types.{
  State, disconnected, awaiting_connection, awaiting_disconnection, data_transfer, frame_reject,
  command, Parms, X75Cb,
}
use ras.X75.Timer.{start_t1timer, stop_t2timer}
use ras.X75.Send.{send_control}
use ras.X75.Queues.{clear_queues, enqueue_write}
use ras.X75.Kick.{kick, establish_data_link}
use ras.X75.In.{set_state}
use ras.X75.Iface.{setparms, connect_dispatch, disconnect_dispatch, data_dispatch}
use ras.X75.Life.{left, upper, Standing, standing}
use ras.X75.Life.Untouched.{standing-kick, standing-send_control}
use ras.X75.Life.Service.{
  to_connect, to_disconnect, to_send, calls, calls_at_release, aborts, releases, releases_rejected,
  Moves, Answers,
}
use ras.X75.Life.Ways.{Silent, silent, silent-Answers}
use ras.X75.Life.Transfers.{Silent-establish_data_link}

module _ ⦃o : Osmo⦄ where
  pub Silent-kick : (c : X75Cb) → Silent c (left (kick c))
  Silent-kick c = elim (standing-kick c) [
    | inl same ↦ silent c (left (kick c)) same
    | inr (off, on) ↦ (
      ap (λ (s : Standing). s.state) on,
      ap (λ (s : Standing). s.callbacks) on,
      ap (λ (s : Standing). s.told) on,
    )
  ]

  told_nothing :
      (c d : X75Cb) → Silent c d → (t : State) → Moves (standing c) [] t (standing (set_state t d))
  told_nothing c d q t = record {
    to = refl;
    callbacks = q.1;
    told = q.2 ∙ sym (append-nil (upper c.events));
  }

  asking :
      (c : X75Cb)
      → Moves
          (standing c)
          []
          awaiting_connection
          (standing (c ▹ establish_data_link ▹ set_state awaiting_connection))
  asking c =
      told_nothing c (establish_data_link c) (Silent-establish_data_link c) awaiting_connection

  pub connect-Answers :
      (s : State) (c : X75Cb)
      → c.state ≡ s
      → Answers c.mode to_connect s (standing c) (standing (connect_dispatch s c).1)
  unfolding connect_dispatch
  connect-Answers disconnected c st = (_, _, calls, asking c)
  connect-Answers awaiting_disconnection c st = (_, _, calls_at_release, asking c)
  connect-Answers awaiting_connection c st =
      silent-Answers c.mode to_connect awaiting_connection c c st refl (refl, refl, refl)
  connect-Answers data_transfer c st =
      silent-Answers c.mode to_connect data_transfer c c st refl (refl, refl, refl)
  connect-Answers frame_reject c st =
      silent-Answers c.mode to_connect frame_reject c c st refl (refl, refl, refl)

  Silent-send_disc : (c : X75Cb) → Silent c (send_control 0x43 true command c)
  Silent-send_disc c =
      silent c (send_control 0x43 true command c) (standing-send_control 0x43 true command c)

  releasing :
      (c : X75Cb)
      → Moves
          (standing c)
          []
          awaiting_disconnection
          (standing (disconnect_dispatch data_transfer c).1)
  unfolding disconnect_dispatch clear_queues start_t1timer stop_t2timer
  releasing c =
      let cleared = record (clear_queues c) { n2count = 0 } in
      told_nothing c (stop_t2timer (start_t1timer (send_control 0x43 true command cleared)))
        (Silent-send_disc cleared) awaiting_disconnection

  pub disconnect-Answers :
      (s : State) (c : X75Cb)
      → c.state ≡ s
      → Answers c.mode to_disconnect s (standing c) (standing (disconnect_dispatch s c).1)
  unfolding disconnect_dispatch clear_queues start_t1timer stop_t2timer
  disconnect-Answers disconnected c st =
      silent-Answers c.mode to_disconnect disconnected c c st refl (refl, refl, refl)
  disconnect-Answers awaiting_disconnection c st =
      silent-Answers c.mode to_disconnect awaiting_disconnection c c st refl (refl, refl, refl)
  disconnect-Answers awaiting_connection c st = (
    _,
    _,
    aborts,
    told_nothing c (start_t1timer (send_control 0x43 true command c)) (Silent-send_disc c)
        disconnected,
  )
  disconnect-Answers data_transfer c st = (_, _, releases, releasing c)
  disconnect-Answers frame_reject c st = (_, _, releases_rejected, releasing c)

  pub data-Answers :
      (s : State) (b : Msgb) (c : X75Cb)
      → c.state ≡ s
      → Answers c.mode to_send s (standing c) (standing (left (data_dispatch s b c).1))
  unfolding data_dispatch enqueue_write
  data-Answers disconnected b c st =
      silent-Answers c.mode to_send disconnected c c st refl (refl, refl, refl)
  data-Answers awaiting_connection b c st =
      silent-Answers c.mode to_send awaiting_connection c c st refl (refl, refl, refl)
  data-Answers awaiting_disconnection b c st =
      silent-Answers c.mode to_send awaiting_disconnection c c st refl (refl, refl, refl)
  data-Answers data_transfer b c st =
      silent-Answers c.mode to_send data_transfer c (left (kick (enqueue_write b c))) st refl
        (Silent-kick (enqueue_write b c))
  data-Answers frame_reject b c st =
      silent-Answers c.mode to_send frame_reject c (left (kick (enqueue_write b c))) st refl
        (Silent-kick (enqueue_write b c))

  pub Silent-setparms : (p : Parms) (c : X75Cb) → Silent c (setparms p c).1
  unfolding setparms
  Silent-setparms p c = ground arith
