-- ===== src/X75/Examples/Life.antt =====
-- Setting up, releasing and giving up links, and their parameters.
use ras.Base.{◌≡◌, refl, true, false, some, [], ◌∷◌, arith, ◌⊎◌}
use ras.Osmo.{Msgb, t2timer_expiry}
use ras.Osmo.Concrete.{lists, lists-Documented, lists-HasMemory}
use ras.X75.Types.{
  disconnected, awaiting_connection, Frame, info, disc, sabm, command, no_condition, X75Cb, ok,
  Event, Parms, invalue,
}
use ras.X75.Frame.{decode}
use ras.X75.Reconnect.{reconnect_copies_null}
use ras.X75.T2.{in_sequence_disarms_t1, NothingRetried, SendsReadiness}
use ras.X75.Retry.{gives_up_after_n2, GivenUp, t1_runs_out}
use ras.X75.Handshake.{handshake, IsUp}
use ras.X75.Transfer.{input_decoded, in_sequence, state_machine, on_info}
use ras.X75.Kick.{returns, copies_null}
use ras.X75.Iface.{connect_request, setparms}
use ras.X75.Expiry.{t2_expires, expires}
use ras.X75.Queues.{validate_nr}
use ras.X75.Send.{data_indication}
use ras.X75.Timer.{start_t2timer}
use ras.X75.Deliver.{received, taken, on_info-received}
use ras.X75.Params.{Positive, WindowFits, retuned, setparms_lem}
use ras.X75.Examples.{standard_dce, standard_dte, idle_timer, no_frame, busy_link}

-- The peer takes no frames, then releases the link and sets it up again.
abbrev held_link : X75Cb
held_link = record busy_link { condition = record no_condition { peer_rx_busy = true } }

reconnect_copies_null_example :
    (c1 : X75Cb) × (c2 : X75Cb) × (input_decoded
        (some (record no_frame { type = disc }, []))
        held_link
      ≡ returns c1)
    × (input_decoded (some (record no_frame { type = sabm }, [])) c1 ≡ copies_null c2)
reconnect_copies_null_example =
    reconnect_copies_null lists-Documented (record no_frame { type = disc })
      (record no_frame { type = sabm }) [] [] held_link refl refl (λ p. omega arith) refl
      (omega arith) (omega arith) refl refl

abbrev info_2 : Frame
info_2 = record no_frame { type = info; ns = 2; nr = 7; cr = some command }

-- The link some time after such a frame, with T1 running.
abbrev disarmed : X75Cb
disarmed = record busy_link {
  t1timer = record idle_timer { cb = some t2timer_expiry; active = true };
  t1timer_running = true;
}

in_sequence_disarms_t1_example :
    (expires disarmed.t1timer.cb disarmed ≡ returns (t2_expires disarmed))
    × NothingRetried disarmed (t2_expires disarmed)
    × SendsReadiness no_frame disarmed (t2_expires disarmed)
unfolding in_sequence data_indication start_t2timer
in_sequence_disarms_t1_example =
    in_sequence_disarms_t1 lists-Documented lists-HasMemory (6 ∷ []) info_2 no_frame busy_link
      disarmed refl refl refl (omega arith) refl

abbrev calling : X75Cb
calling = record busy_link {
  state = awaiting_connection;
  t1timer_running = true;
  n2 = 20;
  n2count = 18;
}

gives_up_after_n2_example : (c' : X75Cb) × (t1_runs_out 3 calling ≡ returns c') × GivenUp c'
gives_up_after_n2_example =
    gives_up_after_n2 lists-Documented 2 calling
      (record { waiting = refl; running = refl; left = refl; small = omega arith })

abbrev dce_down : X75Cb
dce_down = record busy_link { state = disconnected }

abbrev dte_down : X75Cb
dte_down = record dce_down { mode = standard_dte }

handshake_example :
    (there : Msgb) × (back : Msgb) × (f1 : Frame) × (f2 : Frame) × ((connect_request
        dce_down).1.events
      ≡ Event.data_transmit there ∷ [])
    × (decode standard_dte there no_frame ≡ some (f1, []))
    × ((state_machine disconnected [] f1 dte_down).events
        ≡ Event.data_transmit back ∷ Event.connect_indication ok ∷ [])
    × (decode standard_dce back no_frame ≡ some (f2, []))
    × IsUp (state_machine disconnected [] f1 dte_down)
    × IsUp (state_machine (connect_request dce_down).1.state [] f2 (connect_request dce_down).1)
handshake_example =
    handshake lists-Documented lists-HasMemory dce_down dte_down no_frame no_frame refl refl refl
      refl refl refl refl

on_info-received_example : received (on_info (6 ∷ []) info_2 busy_link) ≡ taken (6 ∷ []) busy_link
unfolding validate_nr
on_info-received_example = on_info-received (6 ∷ []) info_2 busy_link refl

abbrev wanted : Parms
wanted = record {
  t1 = 5;
  t1timer = 0;
  t2 = 1;
  t2timer = 0;
  n2 = 10;
  n2count = 0;
  window = 100;
  state = disconnected;
  mode = record { extended = true; mlp = false; dce = true };
}

setparms_lem_example :
    (¬ (Positive wanted × WindowFits wanted) × (setparms wanted dce_down ≡ (invalue, dce_down)))
    ⊎ ((Positive wanted × WindowFits wanted)
        × (setparms wanted dce_down ≡ (ok, retuned wanted dce_down)))
setparms_lem_example = setparms_lem wanted dce_down refl
