-- ===== src/X75/Timer.antt =====
-- Starting and stopping the two timers (src/x75/x75_timer.c).
use ras.Base.{◌*◌, true, false, some}
use ras.Osmo.{Osmo, t1timer_expiry, t2timer_expiry}
use ras.X75.Types.{X75Cb}

module _ ⦃o : Osmo⦄ where
  unfoldable pub start_t1timer : X75Cb → X75Cb
  start_t1timer c =
      let deleted = o.osmo_timer_del c.t1timer in
      let set_up = o.osmo_timer_setup deleted (some t1timer_expiry) in
      record c { t1timer = o.osmo_timer_schedule set_up 0 (c.t1 * 1000); t1timer_running = true }

  -- It is `t1timer` that the code hands to `osmo_timer_setup` here.
  unfoldable pub start_t2timer : X75Cb → X75Cb
  start_t2timer c =
      let deleted = o.osmo_timer_del c.t2timer in
      record c {
        t1timer = o.osmo_timer_setup c.t1timer (some t2timer_expiry);
        t2timer = o.osmo_timer_schedule deleted 0 (c.t2 * 1000);
        t2timer_running = true;
      }

  unfoldable pub stop_t1timer : X75Cb → X75Cb
  stop_t1timer c = record c { t1timer = o.osmo_timer_del c.t1timer; t1timer_running = false }

  unfoldable pub stop_t2timer : X75Cb → X75Cb
  stop_t2timer c = record c { t2timer = o.osmo_timer_del c.t2timer; t2timer_running = false }
