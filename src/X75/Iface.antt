-- ===== src/X75/Iface.antt =====
-- What the upper layer asks of a link (src/x75/x75_iface.c).
use ras.Base.{ℕ, ◌*◌, ◌/◌, Bool, true, false, not, ◌&&◌, ◌||◌, none}
use ras.Base.{ltb, if◌then◌else◌, ◌▹◌, u8, u16}
use ras.Osmo.{Osmo, Msgb, Timer}
use ras.X75.Types.{
  State, disconnected, awaiting_connection, awaiting_disconnection, data_transfer, frame_reject,
  Code, ok, invalue, is_connected, notconnected, command, Callbacks, Parms, X75Cb, Frame,
}
use ras.X75.Timer.{start_t1timer, stop_t1timer, stop_t2timer}
use ras.X75.Send.{send_control}
use ras.X75.Queues.{clear_queues, enqueue_write}
use ras.X75.Kick.{Outcome, returns, kick, establish_data_link}
use ras.X75.In.{set_state}
use ras.X75.Transfer.{data_input}

module _ ⦃o : Osmo⦄ where
  -- The fields that it does not name keep what the caller's memory holds.
  unfoldable pub register : Callbacks → X75Cb → X75Cb
  register callbacks c = start_t1timer (record c {
    write_queue = o.init_llist_head;
    ack_queue = o.init_llist_head;
    t1timer = o.osmo_timer_setup c.t1timer none;
    t2timer = o.osmo_timer_setup c.t2timer none;
    t1timer_running = false;
    t2timer_running = false;
    t1 = 5000;
    t2 = 1000;
    n2 = 20;
    mode = record { extended = false; mlp = false; dce = true };
    window = 7;
    state = disconnected;
    callbacks = callbacks;
  })

  unfoldable pub unregister : X75Cb → X75Cb
  unregister c =
      let cleared = c ▹ stop_t1timer ▹ stop_t2timer ▹ clear_queues in
      record cleared {
        t1timer = o.osmo_timer_del cleared.t1timer;
        t2timer = o.osmo_timer_del cleared.t2timer;
      }

  -- What a parameter block says of a timer.
  abbrev timer_secs : Timer → ℕ
  timer_secs t = if o.osmo_timer_pending t then t.tv_sec / 1000 else 0

  unfoldable pub getparms : X75Cb → Parms
  getparms c = record {
    t1 = c.t1 / 1000;
    t1timer = timer_secs c.t1timer;
    t2 = c.t2 / 1000;
    t2timer = timer_secs c.t2timer;
    n2 = c.n2;
    n2count = c.n2count;
    window = c.window;
    state = c.state;
    mode = c.mode;
  }

  -- The test of the window: between 1 and one less than the modulus.
  unfoldable pub window_fits : Parms → Bool
  window_fits p = not (ltb p.window 1) && not (ltb (if p.mode.extended then 127 else 7) p.window)

  abbrev pub set_intervals : Parms → X75Cb → X75Cb
  set_intervals p c = record c { t1 = u16 (p.t1 * 1000); t2 = u16 (p.t2 * 1000); n2 = u16 p.n2 }

  abbrev pub is_disconnected : State → Bool
  is_disconnected disconnected = true
  is_disconnected _ = false

  unfoldable pub setparms : Parms → X75Cb → Code × X75Cb
  unfolding window_fits
  setparms p c =
      let tuned = record c { mode = p.mode; window = u8 p.window } in
      if ltb p.t1 1 || ltb p.t2 1 || ltb p.n2 1
      then (invalue, c)
      else if is_disconnected c.state
      then (if window_fits p then (ok, set_intervals p tuned) else (invalue, c))
      else (ok, set_intervals p c)

  unfoldable pub connect_dispatch : State → X75Cb → Code × X75Cb
  connect_dispatch awaiting_connection c = (ok, c)
  connect_dispatch data_transfer c = (is_connected, c)
  connect_dispatch frame_reject c = (is_connected, c)
  connect_dispatch _ c = (ok, c ▹ establish_data_link ▹ set_state awaiting_connection)

  unfoldable pub connect_request : X75Cb → Code × X75Cb
  unfolding connect_dispatch
  connect_request c = connect_dispatch c.state c

  abbrev clear_n2count : X75Cb → X75Cb
  clear_n2count c = record c { n2count = 0 }

  unfoldable pub disconnect_dispatch : State → X75Cb → Code × X75Cb
  disconnect_dispatch disconnected c = (notconnected, c)
  disconnect_dispatch awaiting_connection c =
      (notconnected, c ▹ send_control 0x43 true command ▹ set_state disconnected ▹ start_t1timer)
  disconnect_dispatch awaiting_disconnection c = (ok, c)
  disconnect_dispatch _ c = (
    ok,
    c
        ▹ clear_queues
        ▹ clear_n2count
        ▹ send_control 0x43 true command
        ▹ start_t1timer
        ▹ stop_t2timer
        ▹ set_state awaiting_disconnection,
  )

  unfoldable pub disconnect_request : X75Cb → Code × X75Cb
  unfolding disconnect_dispatch
  disconnect_request c = disconnect_dispatch c.state c

  -- The frame is taken only in states 3 and 4, where the code is X75_OK.
  unfoldable pub data_dispatch : State → Msgb → X75Cb → Code × Outcome
  data_dispatch data_transfer skb c = (ok, kick (enqueue_write skb c))
  data_dispatch frame_reject skb c = (ok, kick (enqueue_write skb c))
  data_dispatch _ skb c = (notconnected, returns c)

  unfoldable pub data_request : Msgb → X75Cb → Code × Outcome
  unfolding data_dispatch
  data_request skb c = data_dispatch c.state skb c

  unfoldable pub data_received : Frame → Msgb → X75Cb → Code × Outcome
  data_received garbage skb c = (ok, data_input garbage skb c)
