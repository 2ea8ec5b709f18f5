-- ===== src/X75/Types.antt =====
-- The constants and structures of src/x75/x75.h and src/x75/x75_int.h.
use ras.Base.{ℕ, Bool, true, false, Option, List}
use ras.Base.{◌==◌, if◌then◌else◌}
use ras.Osmo.{Msgb, Queue, Timer}

-- The link states 0 to 4 of the SDL diagrams.
pub data State : Type 0 where
  disconnected awaiting_connection awaiting_disconnection data_transfer frame_reject : State

-- The result codes, in the order of their values 0 to 7.
pub data Code : Type 0 where
  ok badtoken invalue is_connected notconnected refused timedout nomem : Code

-- The three bits of `mode`: X75_EXTENDED, X75_MLP and X75_DCE.
pub record Mode : Type 0 where
  pub extended : Bool
  pub mlp : Bool
  pub dce : Bool

-- The three bits of `condition`.
pub record Condition : Type 0 where
  pub ack_pending : Bool
  pub rejected : Bool
  pub peer_rx_busy : Bool

abbrev pub no_condition : Condition
no_condition = record { ack_pending = false; rejected = false; peer_rx_busy = false }

-- The X75 C-bit, X75_COMMAND and X75_RESPONSE.
pub data Kind : Type 0 where
  command response : Kind

-- The values of `type` in `struct x75_frame` that the code compares with; `other` is any else.
pub data FrameType : Type 0 where
  info rr rnr rej sabm sabme disc dm ua frmr illegal : FrameType
  other : ℕ → FrameType

-- The code of each, with X75_ILLEGAL.
unfoldable pub type_code : FrameType → ℕ
type_code info = 0x00
type_code rr = 0x01
type_code rnr = 0x05
type_code rej = 0x09
type_code sabm = 0x2F
type_code sabme = 0x6F
type_code disc = 0x43
type_code dm = 0x0F
type_code ua = 0x63
type_code frmr = 0x87
type_code illegal = 0x100
type_code (other n) = n

unfoldable pub frame_type : ℕ → FrameType
frame_type n =
    if n == 0x00
    then info
    else if n == 0x01
    then rr
    else if n == 0x05
    then rnr
    else if n == 0x09
    then rej
    else if n == 0x2F
    then sabm
    else if n == 0x6F
    then sabme
    else if n == 0x43
    then disc
    else if n == 0x0F
    then dm
    else if n == 0x63
    then ua
    else if n == 0x87
    then frmr
    else if n == 0x100
    then illegal
    else other n

-- `struct x75_frame`. `pf` is only tested, and `cr` is `none` where it holds neither value.
pub record Frame : Type 0 where
  pub type : FrameType
  pub nr : ℕ
  pub ns : ℕ
  pub cr : Option Kind
  pub pf : Bool
  pub control0 : ℕ
  pub control1 : ℕ

-- `struct x75_register_struct`: which of the callbacks are set.
pub record Callbacks : Type 0 where
  pub connect_confirmation : Bool
  pub connect_indication : Bool
  pub disconnect_confirmation : Bool
  pub disconnect_indication : Bool
  pub data_indication : Bool
  pub data_transmit : Bool

-- One call of a callback, with what it is given.
pub data Event : Type 0 where
  connect_confirmation : Code → Event
  connect_indication : Code → Event
  disconnect_confirmation : Code → Event
  disconnect_indication : Code → Event
  data_indication : Msgb → Event
  data_transmit : Msgb → Event

-- `struct x75_cb`, and the calls of callbacks made so far.
pub record X75Cb : Type 0 where
  pub mode : Mode
  pub state : State
  pub vs : ℕ
  pub vr : ℕ
  pub va : ℕ
  pub condition : Condition
  pub n2 : ℕ
  pub n2count : ℕ
  pub t1 : ℕ
  pub t2 : ℕ
  pub t1timer : Timer
  pub t2timer : Timer
  pub t1timer_running : Bool
  pub t2timer_running : Bool
  pub write_queue : Queue
  pub write_queue_count : ℕ
  pub ack_queue : Queue
  pub ack_queue_count : ℕ
  pub window : ℕ
  pub callbacks : Callbacks
  pub frmr_data : Frame
  pub frmr_type : ℕ
  pub events : List Event

-- `struct x75_parms_struct`, with the link state as it is copied out.
pub record Parms : Type 0 where
  pub t1 : ℕ
  pub t1timer : ℕ
  pub t2 : ℕ
  pub t2timer : ℕ
  pub n2 : ℕ
  pub n2count : ℕ
  pub window : ℕ
  pub state : State
  pub mode : Mode

-- X75_SMODULUS and X75_EMODULUS.
abbrev pub modulus_of : Bool → ℕ
modulus_of true = 128
modulus_of false = 8

abbrev pub modulus : X75Cb → ℕ
modulus c = modulus_of c.mode.extended
