-- ===== src/X75/Examples/Transfer.antt =====
-- Frames in the data transfer state, the queues and the window, at concrete links.
use ras.Base.{List, take, ◌≡◌, refl, true, [], arith, ◌+◌, ◌%◌, ◌≤◌, ◌↔◌, min, drop}
use ras.Osmo.Concrete.{lists, lists-Documented, lists-HasMemory}
use ras.X75.Types.{Event, X75Cb}
use ras.X75.Ring.{dist}
use ras.X75.Nr.{validate_nr_iff}
use ras.X75.Window.{kick-eq, kicked, room}
use ras.X75.Deliver.{delivered}
use ras.X75.Listening.{on_line}
use ras.X75.Delivery.{input_all, kick-heard}
use ras.X75.Ack.{frames_acked-eq, awaiting}
use ras.X75.Kick.{returns, kick}
use ras.X75.Queues.{frames_acked, validate_nr}
use ras.X75.Examples.{standard_dte, no_frame, busy_link, busy_link-Wf}

kick-eq_example : kick busy_link ≡ returns (kicked busy_link)
kick-eq_example =
    kick-eq lists-Documented lists-HasMemory busy_link
      (record { write_counted = refl; ack_counted = refl }) refl
      (record { vs_lt = omega arith; vr_lt = omega arith; va_lt = omega arith }) refl

frames_acked-eq_example :
    frames_acked 0 busy_link
    ≡ awaiting busy_link ((7 + min 2 (dist 8 7 0)) % 8) (drop (dist 8 7 0) busy_link.ack_queue)
frames_acked-eq_example =
    frames_acked-eq lists-Documented busy_link 0 refl (omega arith) (omega arith)

validate_nr_iff_example : (validate_nr 0 busy_link ≡ true) ↔ (dist 8 7 0 ≤ dist 8 7 1)
validate_nr_iff_example = validate_nr_iff busy_link 0 (omega arith) (omega arith) (omega arith)

-- The other station of the busy link, with nothing to send.
abbrev listener : X75Cb
listener = record busy_link {
  mode = standard_dte;
  vs = 2;
  vr = 1;
  va = 2;
  write_queue = [];
  write_queue_count = 0;
  ack_queue = [];
  ack_queue_count = 0;
}

kick-heard_example :
    (c' : X75Cb) × (sent : List Event) × (d' : X75Cb) × (kick busy_link ≡ returns c')
    × (c'.events ≡ sent)
    × (input_all no_frame (on_line sent) listener ≡ returns d')
    × (delivered d'.events ≡ take (room busy_link) busy_link.write_queue)
    × (d'.vr ≡ c'.vs)
unfolding dist
kick-heard_example =
    kick-heard lists-Documented lists-HasMemory busy_link listener no_frame busy_link-Wf refl
      (record {
        in_transfer = refl;
        other_role = refl;
        all_sent = refl;
        all_acked = refl;
        none_waits = refl;
        expects = refl;
        indicates = refl;
      })
