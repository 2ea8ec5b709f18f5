-- ===== src/Fax/Types.antt =====
-- The globals of src/fax_decode.c, and what it uses of spandsp.
use ras.Base.{ℕ, Bool, Option, List}

-- A call of `hdlc_accept`: a status, where `len` is negative, or the buffer with the length of the frame
-- and whether its checksum is right.
pub data Accept : Type 0 where
  status : Accept
  frame : List ℕ → ℕ → Bool → Accept

-- What the code uses of spandsp: its constants and the states of the HDLC receiver and of the T.4
-- decoder. `hdlc_rx_put_bit` gives the calls of `hdlc_accept` that the bit leads to, and
-- `t4_rx_put_bit` whether the page is at its end.
pub record Spandsp : Type 1 where
  pub T4 : Type 0
  pub HdlcRx : Type 0
  pub t4_fcd : ℕ
  pub t30_dcs : ℕ
  pub t30_max_dis_dtc_dcs_len : ℕ
  pub y_standard : ℕ
  pub y_fine : ℕ
  pub y_superfine : ℕ
  pub itu_t4_1d : ℕ
  pub itu_t4_2d : ℕ
  pub itu_t6 : ℕ
  pub hdlc_rx_put_bit : HdlcRx → ℕ → HdlcRx × List Accept
  pub t4_rx_set_rx_encoding : T4 → ℕ → T4
  pub t4_rx_set_x_resolution : T4 → ℕ → T4
  pub t4_rx_set_y_resolution : T4 → ℕ → T4
  pub t4_rx_set_image_width : T4 → Option ℕ → T4
  pub t4_rx_start_page : T4 → T4
  pub t4_rx_put_bit : T4 → ℕ → Bool × T4
  pub t4_rx_end_page : T4 → T4

-- `fast_trained`
pub data Trained : Type 0 where
  fax_none fax_v27ter_rx fax_v29_rx fax_v17_rx : Trained

-- The globals. `ecm` is `ecm_data` with `ecm_len`: nothing for a length of -1, or else so many octets.
-- `image_width` and `current_fallback` are nothing for -1.
pub record Fax (s : Spandsp) : Type 0 where
  pub t4_state : s.T4
  pub t4_up : Bool
  pub hdlcrx : s.HdlcRx
  pub fast_trained : Trained
  pub ecm : ℕ → Option (List ℕ)
  pub line_encoding : ℕ
  pub x_resolution : ℕ
  pub y_resolution : ℕ
  pub image_width : Option ℕ
  pub octets_per_ecm_frame : ℕ
  pub error_correcting_mode : Bool
  pub current_fallback : Option ℕ
