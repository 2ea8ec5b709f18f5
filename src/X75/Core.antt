-- ===== src/X75/Core.antt =====
-- The part of a link that says which frames are where: the queues, their counters, the sequence
-- numbers and the window. What sends control frames, runs timers or calls back leaves it alone.
use ras.Base.{ℕ, ◌≡◌, refl, ◌∙◌, Bool, true, false, Option, none, some, arith}
use ras.Osmo.{Osmo, Queue, Msgb}
use ras.X75.Types.{Mode, Kind, command, response, Code, X75Cb}
use ras.X75.Timer.{start_t1timer, start_t2timer, stop_t1timer, stop_t2timer}
use ras.X75.Send.{
  send_control, transmit_frmr, connect_indication, connect_confirmation, disconnect_indication,
  disconnect_confirmation, data_indication,
}
use ras.X75.Kick.{enquiry_response, timeout_response, check_need_response, establish_data_link}

pub record Core : Type 0 where
  pub mode : Mode
  pub vs : ℕ
  pub vr : ℕ
  pub va : ℕ
  pub window : ℕ
  pub write_queue : Queue
  pub write_queue_count : ℕ
  pub ack_queue : Queue
  pub ack_queue_count : ℕ
  pub transmits : Bool

abbrev pub core : X75Cb → Core
core c = record {
  mode = c.mode;
  vs = c.vs;
  vr = c.vr;
  va = c.va;
  window = c.window;
  write_queue = c.write_queue;
  write_queue_count = c.write_queue_count;
  ack_queue = c.ack_queue;
  ack_queue_count = c.ack_queue_count;
  transmits = c.callbacks.data_transmit;
}

pub core-connect_indication : (r : Code) (c : X75Cb) → core (connect_indication r c) ≡ core c
unfolding connect_indication
core-connect_indication r c = ground arith

pub core-connect_confirmation : (r : Code) (c : X75Cb) → core (connect_confirmation r c) ≡ core c
unfolding connect_confirmation
core-connect_confirmation r c = ground arith

pub core-disconnect_indication : (r : Code) (c : X75Cb) → core (disconnect_indication r c) ≡ core c
unfolding disconnect_indication
core-disconnect_indication r c = ground arith

pub core-disconnect_confirmation :
    (r : Code) (c : X75Cb) → core (disconnect_confirmation r c) ≡ core c
unfolding disconnect_confirmation
core-disconnect_confirmation r c = ground arith

pub core-data_indication : (b : Msgb) (c : X75Cb) → core (data_indication b c) ≡ core c
unfolding data_indication
core-data_indication b c = ground arith

module _ ⦃o : Osmo⦄ where
  pub core-send_control :
      (t : ℕ) (poll : Bool) (k : Kind) (c : X75Cb) → core (send_control t poll k c) ≡ core c
  unfolding send_control
  core-send_control t poll k c = ground arith

  pub core-transmit_frmr : (c : X75Cb) → core (transmit_frmr c) ≡ core c
  unfolding transmit_frmr
  core-transmit_frmr c = ground arith

  pub core-start_t1timer : (c : X75Cb) → core (start_t1timer c) ≡ core c
  unfolding start_t1timer
  core-start_t1timer c = refl

  pub core-start_t2timer : (c : X75Cb) → core (start_t2timer c) ≡ core c
  unfolding start_t2timer
  core-start_t2timer c = refl

  pub core-stop_t1timer : (c : X75Cb) → core (stop_t1timer c) ≡ core c
  unfolding stop_t1timer
  core-stop_t1timer c = refl

  pub core-stop_t2timer : (c : X75Cb) → core (stop_t2timer c) ≡ core c
  unfolding stop_t2timer
  core-stop_t2timer c = refl

  pub core-enquiry_response : (c : X75Cb) → core (enquiry_response c) ≡ core c
  unfolding enquiry_response
  core-enquiry_response c = core-send_control 0x01 true response c

  pub core-timeout_response : (c : X75Cb) → core (timeout_response c) ≡ core c
  unfolding timeout_response
  core-timeout_response c = core-send_control 0x01 false response c

  pub core-check_need_response :
      (k : Option Kind) (pf : Bool) (c : X75Cb) → core (check_need_response k pf c) ≡ core c
  unfolding check_need_response
  core-check_need_response (some command) true c = core-enquiry_response c
  core-check_need_response (some command) false c = refl
  core-check_need_response (some response) pf c = refl
  core-check_need_response none pf c = refl

  pub core-establish_data_link : (c : X75Cb) → core (establish_data_link c) ≡ core c
  unfolding establish_data_link
  core-establish_data_link c =
      core-stop_t2timer _ ∙ (core-start_t1timer _ ∙ core-send_control _ true command _)
