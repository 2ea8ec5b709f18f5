-- ===== src/X75/Examples.antt =====
-- A link at work, and a frame that arrives; the children apply the properties of the X.75 modules.
pub mod Transfer
pub mod Line
pub mod Life
pub mod Events
use ras.Base.{◌≡◌, refl, subst, true, false, none, some, [], ◌∷◌, inr, arith, sym, ◌∙◌}
use ras.Osmo.{Msgb, Timer}
use ras.Osmo.Concrete.{lists}
use ras.X75.Types.{
  data_transfer, Mode, Callbacks, Frame, rr, illegal, response, no_condition, X75Cb, frame_type,
}
use ras.X75.Core.{core}
use ras.X75.Frame.{decode, decode_standard, decode_cr}
use ras.X75.Ring.{dist}
use ras.X75.Wf.{Wf}
use ras.X75.Read.{frame_of_some}
use ras.X75.Input.{KeepsLink}
use ras.X75.Send.{data_indication}

abbrev pub all_set : Callbacks
all_set = record {
  connect_confirmation = true;
  connect_indication = true;
  disconnect_confirmation = true;
  disconnect_indication = true;
  data_indication = true;
  data_transmit = true;
}

abbrev pub standard_dce : Mode
standard_dce = record { extended = false; mlp = false; dce = true }

abbrev pub standard_dte : Mode
standard_dte = record { extended = false; mlp = false; dce = false }

abbrev pub idle_timer : Timer
idle_timer = record { cb = none; active = false; tv_sec = 0 }

abbrev pub no_frame : Frame
no_frame = record {
  type = illegal;
  nr = 0;
  ns = 0;
  cr = none;
  pf = false;
  control0 = 0;
  control1 = 0;
}

-- Two frames to be sent, and two on their way, numbered 7 and 0.
abbrev pub busy_link : X75Cb
busy_link = record {
  mode = standard_dce;
  state = data_transfer;
  vs = 1;
  vr = 2;
  va = 7;
  condition = no_condition;
  n2 = 20;
  n2count = 3;
  t1 = 5000;
  t2 = 1000;
  t1timer = idle_timer;
  t2timer = idle_timer;
  t1timer_running = false;
  t2timer_running = false;
  write_queue = (1 ∷ 2 ∷ []) ∷ (3 ∷ []) ∷ [];
  write_queue_count = 2;
  ack_queue = (4 ∷ []) ∷ (5 ∷ []) ∷ [];
  ack_queue_count = 2;
  window = 3;
  callbacks = all_set;
  frmr_data = no_frame;
  frmr_type = 0;
  events = [];
}

pub busy_link-Wf : Wf (core busy_link)
unfolding dist
busy_link-Wf = record {
  write_counted = refl;
  ack_counted = refl;
  vs_lt = omega arith;
  vr_lt = omega arith;
  va_lt = omega arith;
  window_pos = omega arith;
  window_lt = omega arith;
  fits = omega arith;
  outstanding = inr refl;
  transmits = refl;
}

-- An RR response from the peer with N(R) 0, as it arrives.
abbrev pub rr_0 : Msgb
rr_0 = 3 ∷ 1 ∷ []

abbrev pub rr_frame : Frame
rr_frame = record no_frame { type = rr; cr = some response; control0 = 1 }

pub rr_0-decoded : decode standard_dce rr_0 no_frame ≡ some (rr_frame, [])
unfolding decode decode_standard decode_cr frame_type
rr_0-decoded = refl

pub rr_0-KeepsLink :
    (f : Frame) (rest : Msgb) → decode standard_dce rr_0 no_frame ≡ some (f, rest) → KeepsLink f
rr_0-KeepsLink f rest e =
    let same = frame_of_some (sym rr_0-decoded ∙ e) in subst KeepsLink same ((λ p. cc), (λ p. cc))
