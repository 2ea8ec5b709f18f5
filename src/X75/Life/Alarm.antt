-- ===== src/X75/Life/Alarm.antt =====
-- T1 watches over a link that waits for an answer: the timers (src/x75/x75_timer.c).
use ras.Base.{
  ◌≡◌, refl, sym, ap, ◌∙◌, Bool, true, false, not, ◌&&◌, ◌||◌, Option, none, some, ◌==◌,
  if◌then◌else◌, ◌▹◌, arith,
}
use ras.Osmo.{Osmo, Documented, Expiry, t1timer_expiry, t2timer_expiry}
use ras.X75.Types.{
  State, disconnected, awaiting_connection, awaiting_disconnection, data_transfer, frame_reject,
  command, X75Cb,
}
use ras.X75.Timer.{start_t1timer, stop_t2timer}
use ras.X75.Send.{send_control, transmit_frmr, disconnect_indication, disconnect_confirmation}
use ras.X75.Queues.{requeue_frames}
use ras.X75.Kick.{Outcome, returns, kick, establish_data_link}
use ras.X75.In.{send_dm, set_state}
use ras.X75.Expiry.{
  count_retry, t2_expires, give_up, give_up_release, give_up_transfer, retry_connection,
  retry_release, retry_frmr, then_start, t1_dispatch, t1_expires, expires,
}
use ras.X75.Retry.{waits}
use ras.X75.Life.{left, Standing, standing}
use ras.X75.Life.Untouched.{standing-send_control, standing-transmit_frmr}
use ras.X75.Life.Frames.{standing-send_dm}
use ras.X75.Life.Expiries.{Silent-resend, Silent-t2_expires}
use ras.X75.Life.Watch.{IsWatched, same-IsWatched, not_waiting, either-IsWatched, started-Armed}
use ras.X75.Life.Watched.{asking-Armed}

module _ ⦃o : Osmo⦄ where
  give_up-state : (c : X75Cb) → (give_up c).state ≡ disconnected
  unfolding give_up disconnect_indication
  give_up-state c = ground arith

  give_up_release-state : (c : X75Cb) → (give_up_release c).state ≡ disconnected
  unfolding give_up_release disconnect_confirmation
  give_up_release-state c = ground arith

  give_up_transfer-state : (c : X75Cb) → (give_up_transfer c).state ≡ disconnected
  unfolding give_up_transfer stop_t2timer disconnect_indication
  give_up_transfer-state c = ground arith

  pub announced : (c : X75Cb) → (start_t1timer c).state ≡ c.state
  unfolding start_t1timer
  announced c = refl

  -- T2 that does not run does nothing.
  t2_expires_off : (c : X75Cb) → c.t2timer_running ≡ false → standing (t2_expires c) ≡ standing c
  unfolding t2_expires
  t2_expires_off c off = ground arith

  module _ (doc : Documented o) where
    restarted :
        (c d : X75Cb)
        → standing d ≡ standing c
        → c.t2timer_running ≡ false
        → IsWatched (start_t1timer d)
    restarted c d e off h = started-Armed doc d (ap (λ (s : Standing). s.t2timer_running) e ∙ off)

    either_outcome :
        (t : Bool) (x y : Outcome)
        → (t ≡ true → IsWatched (left x))
        → (t ≡ false → IsWatched (left y))
        → IsWatched (left (if t then x else y))
    either_outcome true x y p q = p refl
    either_outcome false x y p q = q refl

    dialing-IsWatched :
        (c : X75Cb)
        → IsWatched (c ▹ set_state awaiting_connection ▹ establish_data_link ▹ start_t1timer)
    dialing-IsWatched c h =
        let asked = establish_data_link (set_state awaiting_connection c) in
        started-Armed doc asked (asking-Armed doc (set_state awaiting_connection c)).t2_off

    t1_dispatch-IsWatched :
        (s : State) (c : X75Cb)
        → c.state ≡ s
        → (waits s ≡ true → c.t2timer_running ≡ false)
        → IsWatched (left (t1_dispatch s c))
    unfolding t1_dispatch retry_connection retry_release retry_frmr
    t1_dispatch-IsWatched disconnected c st off =
        let told = send_dm false (count_retry c) in
        either_outcome (c.mode.dce && not (c.n2count == c.n2)) (returns (start_t1timer told))
          (returns (c ▹ set_state awaiting_connection ▹ establish_data_link ▹ start_t1timer))
          (λ t.
            not_waiting disconnected (start_t1timer told)
              (announced told
                ∙ (ap (λ (s : Standing). s.state) (standing-send_dm false (count_retry c)) ∙ st))
              refl)
          (λ t. dialing-IsWatched c)
    t1_dispatch-IsWatched awaiting_connection c st off =
        let code = if c.mode.extended then 0x6F else 0x2F in
        let again = count_retry c in
        either-IsWatched (c.n2count == c.n2) (give_up c) (retry_connection c)
          (not_waiting disconnected (give_up c) (give_up-state c) refl)
          (restarted again (send_control code true command again)
            (standing-send_control code true command again) (off refl))
    t1_dispatch-IsWatched awaiting_disconnection c st off =
        let again = count_retry c in
        either-IsWatched (c.n2count == c.n2) (give_up_release c) (retry_release c)
          (not_waiting disconnected (give_up_release c) (give_up_release-state c) refl)
          (restarted again (send_control 0x43 true command again)
            (standing-send_control 0x43 true command again) (off refl))
    t1_dispatch-IsWatched data_transfer c st off =
        let resent = then_start (c ▹ count_retry ▹ requeue_frames ▹ kick) in
        either_outcome (c.n2count == c.n2) (returns (give_up_transfer c)) resent
          (λ t. not_waiting disconnected (give_up_transfer c) (give_up_transfer-state c) refl)
          (λ t. not_waiting data_transfer (left resent) ((Silent-resend c).0 ∙ st) refl)
    t1_dispatch-IsWatched frame_reject c st off =
        let again = count_retry c in
        either-IsWatched (c.n2count == c.n2) (give_up c) (retry_frmr c)
          (not_waiting disconnected (give_up c) (give_up-state c) refl)
          (restarted again (transmit_frmr again) (standing-transmit_frmr again) (off refl))

    -- A call of a timer's function, on a link where T1, if it should watch, runs and calls its own
    -- function, or has just run out.
    t1_expires-IsWatched :
        (c : X75Cb)
        → (waits c.state ≡ true → c.t2timer_running ≡ false)
        → (o.osmo_timer_pending c.t1timer || not c.t1timer_running ≡ true → IsWatched c)
        → IsWatched (left (t1_expires c))
    unfolding t1_expires
    t1_expires-IsWatched c off w =
        either_outcome (o.osmo_timer_pending c.t1timer || not c.t1timer_running) (returns c)
          (t1_dispatch c.state c) w (λ t. t1_dispatch-IsWatched c.state c refl off)

    t2_expires-IsWatched : (c : X75Cb) → IsWatched c → IsWatched (t2_expires c)
    t2_expires-IsWatched c w h =
        let waiting : waits c.state ≡ true = ap waits (sym (Silent-t2_expires c).0) ∙ h in
        same-IsWatched c (t2_expires c) (t2_expires_off c (w waiting).t2_off) w h

    pub t1_runs_out-IsWatched :
        (e : Option Expiry) (c : X75Cb)
        → c.t1timer.cb ≡ e
        → IsWatched c
        → IsWatched (left (expires e (record c { t1timer = o.osmo_timer_del c.t1timer })))
    unfolding expires
    t1_runs_out-IsWatched none c e w h = absurd (cc ((w h).own, e))
    t1_runs_out-IsWatched (some t1timer_expiry) c e w h' =
        t1_expires-IsWatched (record c { t1timer = o.osmo_timer_del c.t1timer }) (λ h. (w h).t2_off)
          (λ t h. ground (arith, w h, doc.del_pending c.t1timer)) h'
    t1_runs_out-IsWatched (some t2timer_expiry) c e w h =
        let fired = record c { t1timer = o.osmo_timer_del c.t1timer } in
        absurd (cc ((w (ap waits (sym (Silent-t2_expires fired).0) ∙ h)).own, e))

    pub t2_runs_out-IsWatched :
        (e : Option Expiry) (c : X75Cb)
        → IsWatched c
        → IsWatched (left (expires e (record c { t2timer = o.osmo_timer_del c.t2timer })))
    unfolding expires
    t2_runs_out-IsWatched none c w = w
    t2_runs_out-IsWatched (some t1timer_expiry) c w =
        t1_expires-IsWatched (record c { t2timer = o.osmo_timer_del c.t2timer }) (λ h. (w h).t2_off)
          (λ t. w)
    t2_runs_out-IsWatched (some t2timer_expiry) c w =
        t2_expires-IsWatched (record c { t2timer = o.osmo_timer_del c.t2timer }) w
