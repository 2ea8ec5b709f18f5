-- ===== src/X75/Life/Expiries.antt =====
-- The timers that run out, as answers of the service (src/x75/x75_timer.c).
use ras.Base.{
  ◌≡◌, refl, ◌∙◌, sym, Bool, true, false, not, ◌&&◌, ◌||◌, Option, none, some, [], ◌==◌, append-nil,
  inl, inr, if◌then◌else◌, ◌▹◌, arith,
}
use ras.Osmo.{Osmo, Expiry, t1timer_expiry, t2timer_expiry}
use ras.X75.Types.{
  State, disconnected, awaiting_connection, awaiting_disconnection, data_transfer, frame_reject,
  Mode, command, X75Cb,
}
use ras.X75.Timer.{start_t1timer}
use ras.X75.Send.{send_control, transmit_frmr}
use ras.X75.Queues.{requeue_frames}
use ras.X75.Kick.{Outcome, returns, exits, copies_null, kick, establish_data_link, set_ack_pending}
use ras.X75.In.{set_state, send_dm}
use ras.X75.Expiry.{
  count_retry, t2_expires, give_up, give_up_release, give_up_transfer, retry_connection,
  retry_release, retry_frmr, then_start, t1_dispatch, t1_expires, expires,
}
use ras.X75.Life.{left, upper, standing}
use ras.X75.Life.Untouched.{
  standing-send_control, standing-transmit_frmr, standing-timeout_response,
}
use ras.X75.Life.Service.{
  Label, timer, dials, gives_up, gives_up_release, all_set, Moves, Answers, must_move,
}
use ras.X75.Life.Ways.{Silent, silent, Silent-trans, silent-Answers, either-Answers}
use ras.X75.Life.Told.{give_up-Moves, give_up_transfer-Moves, give_up_release-Moves}
use ras.X75.Life.Frames.{standing-send_dm}
use ras.X75.Life.Transfers.{Silent-establish_data_link, Silent-requeue_frames}
use ras.X75.Life.Requests.{Silent-kick}

module _ ⦃o : Osmo⦄ where
  Silent-then_start : (r : Outcome) → Silent (left r) (left (then_start r))
  unfolding then_start start_t1timer
  Silent-then_start (returns c) = (refl, refl, refl)
  Silent-then_start (exits c) = (refl, refl, refl)
  Silent-then_start (copies_null c) = (refl, refl, refl)

  abbrev pub t1_label : Label
  t1_label = timer (some t1timer_expiry)

  -- What the function of T1 leaves when the retries are not used up.
  Silent-retry :
      (c : X75Cb)
      → Silent c (retry_connection c) × Silent c (retry_release c) × Silent c (retry_frmr c)
  unfolding retry_connection retry_release retry_frmr start_t1timer
  Silent-retry c =
      let again = count_retry c in
      let open_code = if c.mode.extended then 0x6F else 0x2F in
      (
        silent c (send_control open_code true command again)
            (standing-send_control open_code true command again),
        silent c (send_control 0x43 true command again)
            (standing-send_control 0x43 true command again),
        silent c (transmit_frmr again) (standing-transmit_frmr again),
      )

  pub Silent-resend :
      (c : X75Cb) → Silent c (left (then_start (c ▹ count_retry ▹ requeue_frames ▹ kick)))
  Silent-resend c =
      let queued = requeue_frames (count_retry c) in
      Silent-trans c (left (kick queued)) (left (then_start (kick queued)))
        (Silent-trans c queued (left (kick queued)) (Silent-requeue_frames (count_retry c))
          (Silent-kick queued))
        (Silent-then_start (kick queued))

  Silent-send_dm : (c : X75Cb) → Silent c (start_t1timer (send_dm false (count_retry c)))
  unfolding start_t1timer
  Silent-send_dm c =
      silent c (send_dm false (count_retry c)) (standing-send_dm false (count_retry c))

  pub dialing :
      (c : X75Cb)
      → Moves
          (standing c)
          []
          awaiting_connection
          (standing (c ▹ set_state awaiting_connection ▹ establish_data_link ▹ start_t1timer))
  unfolding start_t1timer
  dialing c =
      let waiting = set_state awaiting_connection c in
      let q = Silent-establish_data_link waiting in
      record { to = q.0; callbacks = q.1; told = q.2 ∙ sym (append-nil (upper c.events)) }

  either_outcome :
      (s : State) (c : X75Cb) (t : Bool) (x y : Outcome)
      → Answers c.mode t1_label s (standing c) (standing (left x))
      → Answers c.mode t1_label s (standing c) (standing (left y))
      → Answers c.mode t1_label s (standing c) (standing (left (if t then x else y)))
  either_outcome s c true x y p q = p
  either_outcome s c false x y p q = q

  t1_dispatch-Answers :
      (s : State) (c : X75Cb)
      → c.callbacks ≡ all_set
      → c.state ≡ s
      → Answers c.mode t1_label s (standing c) (standing (left (t1_dispatch s c)))
  unfolding t1_dispatch
  t1_dispatch-Answers disconnected c h st =
      either_outcome disconnected c (c.mode.dce && not (c.n2count == c.n2))
        (returns (c ▹ count_retry ▹ send_dm false ▹ start_t1timer))
        (returns (c ▹ set_state awaiting_connection ▹ establish_data_link ▹ start_t1timer))
        (silent-Answers c.mode t1_label disconnected c
          (c ▹ count_retry ▹ send_dm false ▹ start_t1timer) st refl (Silent-send_dm c))
        (_, _, dials, dialing c)
  t1_dispatch-Answers awaiting_connection c h st =
      either-Answers c.mode t1_label awaiting_connection (standing c) (c.n2count == c.n2)
        (give_up c) (retry_connection c)
        (_, _, gives_up awaiting_connection (inl refl), give_up-Moves c h)
        (silent-Answers c.mode t1_label awaiting_connection c (retry_connection c) st refl
          (Silent-retry c).0)
  t1_dispatch-Answers awaiting_disconnection c h st =
      either-Answers c.mode t1_label awaiting_disconnection (standing c) (c.n2count == c.n2)
        (give_up_release c) (retry_release c) (_, _, gives_up_release, give_up_release-Moves c h)
        (silent-Answers c.mode t1_label awaiting_disconnection c (retry_release c) st refl
          (Silent-retry c).1)
  t1_dispatch-Answers data_transfer c h st =
      either_outcome data_transfer c (c.n2count == c.n2) (returns (give_up_transfer c))
        (then_start (c ▹ count_retry ▹ requeue_frames ▹ kick))
        (_, _, gives_up data_transfer (inr (inl refl)), give_up_transfer-Moves c h)
        (silent-Answers c.mode t1_label data_transfer c
          (left (then_start (c ▹ count_retry ▹ requeue_frames ▹ kick))) st refl (Silent-resend c))
  t1_dispatch-Answers frame_reject c h st =
      either-Answers c.mode t1_label frame_reject (standing c) (c.n2count == c.n2) (give_up c)
        (retry_frmr c) (_, _, gives_up frame_reject (inr (inr refl)), give_up-Moves c h)
        (silent-Answers c.mode t1_label frame_reject c (retry_frmr c) st refl (Silent-retry c).2)

  -- Labels on which the link may always stay in its state.
  -- Labels on which the link may always stay in its state.
  abbrev pub Free : Label → Type 0
  Free l = (m : Mode) (s : State) → must_move m s l ≡ false

  pub timer-Free : (e : Option Expiry) → Free (timer e)
  timer-Free e m disconnected = refl
  timer-Free e m awaiting_connection = refl
  timer-Free e m awaiting_disconnection = refl
  timer-Free e m data_transfer = refl
  timer-Free e m frame_reject = refl

  pub Silent-t2_expires : (c : X75Cb) → Silent c (t2_expires c)
  unfolding t2_expires
  Silent-t2_expires c = ground (arith, standing-timeout_response (set_ack_pending false c))

  pub expires-Answers :
      (e : Option Expiry) (c : X75Cb)
      → c.callbacks ≡ all_set
      → Answers c.mode (timer e) c.state (standing c) (standing (left (expires e c)))
  unfolding expires t1_expires
  expires-Answers none c h =
      silent-Answers c.mode (timer none) c.state c c refl (timer-Free none c.mode c.state)
        (refl, refl, refl)
  expires-Answers (some t1timer_expiry) c h =
      either_outcome c.state c (o.osmo_timer_pending c.t1timer || not c.t1timer_running) (returns c)
        (t1_dispatch c.state c)
        (silent-Answers c.mode t1_label c.state c c refl
          (timer-Free (some t1timer_expiry) c.mode c.state) (refl, refl, refl))
        (t1_dispatch-Answers c.state c h refl)
  expires-Answers (some t2timer_expiry) c h =
      silent-Answers c.mode (timer (some t2timer_expiry)) c.state c (t2_expires c) refl
        (timer-Free (some t2timer_expiry) c.mode c.state) (Silent-t2_expires c)
