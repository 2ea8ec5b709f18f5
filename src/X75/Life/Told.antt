-- ===== src/X75/Life/Told.antt =====
-- What the handlers that end or set up a link tell the upper layer (src/x75/x75_in.c,
-- src/x75/x75_timer.c).
use ras.Base.{◌≡◌, Bool, [], ◌∷◌, ◌++◌, arith}
use ras.Osmo.{Osmo}
use ras.X75.Types.{
  disconnected, data_transfer, Code, ok, notconnected, refused, timedout, response, Event, Frame,
  X75Cb,
}
use ras.X75.Timer.{start_t1timer, stop_t1timer, stop_t2timer}
use ras.X75.Send.{
  call, send_control, connect_confirmation, connect_indication, disconnect_confirmation,
  disconnect_indication,
}
use ras.X75.Queues.{clear_queues}
use ras.X75.In.{reset_link, send_ua, accept_link, confirm_link, refuse_link, released}
use ras.X75.Transfer.{on_disc, on_dm}
use ras.X75.Expiry.{give_up, give_up_release, give_up_transfer}
use ras.X75.Life.{upper, standing}
use ras.X75.Life.Untouched.{upper-append, standing-send_control}
use ras.X75.Life.Service.{all_set, Moves}

pub told_call : (e : Event) (c : X75Cb) → upper (call e c).events ≡ upper c.events ++ upper (e ∷ [])
told_call e c = upper-append c.events (e ∷ [])

module _ ⦃o : Osmo⦄ where
  pub accept_link-Moves :
      (pf : Bool) (c : X75Cb)
      → c.callbacks ≡ all_set
      → Moves
          (standing c)
          (Event.connect_indication ok ∷ [])
          data_transfer
          (standing (accept_link pf c))
  unfolding accept_link send_ua reset_link stop_t1timer stop_t2timer connect_indication
  accept_link-Moves pf c h =
      let sent = send_control 0x63 pf response c in
      ground (
        arith,
        standing-send_control 0x63 pf response c,
        told_call (Event.connect_indication ok) sent,
      )

  pub confirm_link-Moves :
      (c : X75Cb)
      → c.callbacks ≡ all_set
      → Moves
          (standing c)
          (Event.connect_confirmation ok ∷ [])
          data_transfer
          (standing (confirm_link c))
  unfolding confirm_link reset_link stop_t1timer stop_t2timer connect_confirmation
  confirm_link-Moves c h = ground (arith, told_call (Event.connect_confirmation ok) c)

  pub refuse_link-Moves :
      (c : X75Cb)
      → c.callbacks ≡ all_set
      → Moves
          (standing c)
          (Event.disconnect_indication refused ∷ [])
          disconnected
          (standing (refuse_link c))
  unfolding refuse_link clear_queues start_t1timer stop_t2timer disconnect_indication
  refuse_link-Moves c h = ground (arith, told_call (Event.disconnect_indication refused) c)

  pub released-Moves :
      (r : Code) (c : X75Cb)
      → c.callbacks ≡ all_set
      → Moves
          (standing c)
          (Event.disconnect_confirmation r ∷ [])
          disconnected
          (standing (released r c))
  unfolding released start_t1timer stop_t2timer disconnect_confirmation
  released-Moves r c h = ground (arith, told_call (Event.disconnect_confirmation r) c)

  pub on_disc-Moves :
      (f : Frame) (c : X75Cb)
      → c.callbacks ≡ all_set
      → Moves
          (standing c)
          (Event.disconnect_indication ok ∷ [])
          disconnected
          (standing (on_disc f c))
  unfolding on_disc send_ua clear_queues start_t1timer stop_t2timer disconnect_indication
  on_disc-Moves f c h =
      let sent = send_control 0x63 f.pf response (clear_queues c) in
      ground (
        arith,
        standing-send_control 0x63 f.pf response (clear_queues c),
        told_call (Event.disconnect_indication ok) sent,
      )

  pub on_dm-Moves :
      (c : X75Cb)
      → c.callbacks ≡ all_set
      → Moves
          (standing c)
          (Event.disconnect_indication notconnected ∷ [])
          disconnected
          (standing (on_dm c))
  unfolding on_dm clear_queues start_t1timer stop_t2timer disconnect_indication
  on_dm-Moves c h = ground (arith, told_call (Event.disconnect_indication notconnected) c)

  pub give_up-Moves :
      (c : X75Cb)
      → c.callbacks ≡ all_set
      → Moves
          (standing c)
          (Event.disconnect_indication timedout ∷ [])
          disconnected
          (standing (give_up c))
  unfolding give_up clear_queues disconnect_indication
  give_up-Moves c h = ground (arith, told_call (Event.disconnect_indication timedout) c)

  pub give_up_transfer-Moves :
      (c : X75Cb)
      → c.callbacks ≡ all_set
      → Moves
          (standing c)
          (Event.disconnect_indication timedout ∷ [])
          disconnected
          (standing (give_up_transfer c))
  unfolding give_up_transfer clear_queues stop_t2timer disconnect_indication
  give_up_transfer-Moves c h = ground (arith, told_call (Event.disconnect_indication timedout) c)

  pub give_up_release-Moves :
      (c : X75Cb)
      → c.callbacks ≡ all_set
      → Moves
          (standing c)
          (Event.disconnect_confirmation timedout ∷ [])
          disconnected
          (standing (give_up_release c))
  unfolding give_up_release clear_queues disconnect_confirmation
  give_up_release-Moves c h = ground (arith, told_call (Event.disconnect_confirmation timedout) c)
