-- ===== src/Fax.antt =====
-- The fax decoder of src/fax_decode.c, less what it prints. The modems, the HDLC receiver and the T.4
-- decoder are spandsp's.
pub mod Dcs
pub mod Types
pub mod Examples
pub mod Ecm
pub mod Settings
use ras.Base.{
  ℕ, zero, suc, ◌+◌, ◌-◌, ◌*◌, ◌/◌, ◌%◌, ◌≤◌, ◌<◌, bit_and, bit_or, Bool, true, false, not, ◌&&◌,
  ◌||◌, Option, none, some, List, [], ◌∷◌, ◌++◌, ◌==◌, ltb, leb, if◌then◌else◌, length, get_or,
  take, drop,
}
use ras.Fax.Types.{
  status, frame, fax_none, fax_v27ter_rx, fax_v29_rx, fax_v17_rx, Accept, Spandsp, Trained, Fax,
}
use ras.Fax.Dcs.{check_rx_dcs}

-- How a call ends: it returns, or `memcpy` is given a length below 0.
pub data Ended (A : Type 0) : Type 0 where
  returns : A → Ended A
  copies_too_much : Ended A

abbrev pub and_then : {A B : Type 0} → (A → Ended B) → Ended A → Ended B
and_then f (returns a) = f a
and_then f copies_too_much = copies_too_much

abbrev pub stored : (ℕ → Option (List ℕ)) → ℕ → Option (List ℕ) → ℕ → Option (List ℕ)
stored ecm frame_no octets i = if i == frame_no then octets else ecm i

-- The frame that holds a part of an image.
unfoldable pub store_fcd : {s : Spandsp} → List ℕ → ℕ → Fax s → Ended (Fax s)
store_fcd msg len f =
    if ltb 260 len
    then returns f
    else if ltb len 4
    then copies_too_much
    else returns
        (record f { ecm = stored f.ecm (get_or msg 3 0) (some (take (len - 4) (drop 4 msg))) })

unfoldable pub accept_frame : {s : Spandsp} → List ℕ → ℕ → Fax s → Ended (Fax s)
accept_frame {s} msg len f =
    let type = bit_and (get_or msg 2 0) 0xFE in
    if not (get_or msg 0 0 == 0xFF) || not (get_or msg 1 0 == 0x03 || get_or msg 1 0 == 0x13)
    then returns f
    else if type == s.t4_fcd
    then store_fcd msg len f
    else if type == s.t30_dcs
    then returns (check_rx_dcs msg len f)
    else returns f

unfoldable pub hdlc_accept : {s : Spandsp} → Accept → Fax s → Ended (Fax s)
hdlc_accept status f = returns f
hdlc_accept (frame msg len ok) f = if ok then accept_frame msg len f else returns f

unfoldable pub t4_begin : {s : Spandsp} → Fax s → Fax s
t4_begin {s} f =
    let a = s.t4_rx_set_rx_encoding f.t4_state f.line_encoding in
    let b = s.t4_rx_set_x_resolution a f.x_resolution in
    let c = s.t4_rx_set_y_resolution b f.y_resolution in
    let d = s.t4_rx_set_image_width c f.image_width in
    record f { t4_state = s.t4_rx_start_page d; t4_up = true; ecm = λ i. none }

-- The bits of an octet from the lowest on, `k` of them.
abbrev pub put_octet : (s : Spandsp) → ℕ → ℕ → s.T4 → s.T4
put_octet s zero octet t = t
put_octet s (suc k) octet t = put_octet s k (octet / 2) (s.t4_rx_put_bit t (octet % 2)).1

abbrev pub put_octets : (s : Spandsp) → List ℕ → s.T4 → s.T4
put_octets s [] t = t
put_octets s (o ∷ octets) t = put_octets s octets (put_octet s 8 o t)

abbrev pub put_frame : (s : Spandsp) → Option (List ℕ) → s.T4 → s.T4
put_frame s none t = t
put_frame s (some octets) t = put_octets s octets t

-- The frames from the number `i` on, so many of them.
unfoldable pub put_frames : (s : Spandsp) → ℕ → ℕ → (ℕ → Option (List ℕ)) → s.T4 → s.T4
put_frames s zero i ecm t = t
put_frames s (suc left) i ecm t = put_frames s left (i + 1) ecm (put_frame s (ecm i) t)

unfoldable pub t4_end : {s : Spandsp} → Fax s → Fax s
t4_end {s} f =
    if not f.t4_up
    then f
    else let t =
        if f.error_correcting_mode then put_frames s 256 0 f.ecm f.t4_state else f.t4_state in
      record f { t4_state = s.t4_rx_end_page t; t4_up = false }

unfoldable pub hdlc_accepts : {s : Spandsp} → List Accept → Fax s → Ended (Fax s)
hdlc_accepts [] f = returns f
hdlc_accepts (a ∷ calls) f = and_then (hdlc_accepts calls) (hdlc_accept a f)

unfoldable pub hdlc_bit : {s : Spandsp} → ℕ → Fax s → Ended (Fax s)
hdlc_bit {s} bit f =
    let (rx, calls) = s.hdlc_rx_put_bit f.hdlcrx bit in
    hdlc_accepts calls (record f { hdlcrx = rx })

-- `span_fax_bits`, and the end of the functions of the fast modems: a bit of an image.
unfoldable pub span_fax_bits : {s : Spandsp} → ℕ → Fax s → Ended (Fax s)
span_fax_bits {s} bit f =
    if f.error_correcting_mode
    then hdlc_bit bit f
    else let (end_of_page, t) = s.t4_rx_put_bit f.t4_state bit in
      if end_of_page
      then returns (t4_end (record f { t4_state = t }))
      else returns (record f { t4_state = t })

-- What a modem gives: a bit, or a status below 0.
pub data Signal : Type 0 where
  data_bit : ℕ → Signal
  training_succeeded carrier_down other_status : Signal

abbrev is_none : Trained → Bool
is_none fax_none = true
is_none _ = false

unfoldable pub v21_put_bit : {s : Spandsp} → Signal → Fax s → Ended (Fax s)
v21_put_bit (data_bit b) f = if is_none f.fast_trained then hdlc_bit b f else returns f
v21_put_bit _ f = returns f

abbrev same_modem : Trained → Trained → Bool
same_modem fax_none fax_none = true
same_modem fax_v27ter_rx fax_v27ter_rx = true
same_modem fax_v29_rx fax_v29_rx = true
same_modem fax_v17_rx fax_v17_rx = true
same_modem _ _ = false

-- The three functions are alike but for the value of `fast_trained`.
unfoldable pub fast_put_bit : {s : Spandsp} → Trained → Signal → Fax s → Ended (Fax s)
fast_put_bit modem training_succeeded f = returns (t4_begin (record f { fast_trained = modem }))
fast_put_bit modem carrier_down f =
    let g = t4_end f in
    returns (if same_modem g.fast_trained modem then record g { fast_trained = fax_none } else g)
fast_put_bit modem other_status f = returns f
fast_put_bit modem (data_bit b) f = span_fax_bits b f

abbrev pub v17_put_bit : {s : Spandsp} → Signal → Fax s → Ended (Fax s)
v17_put_bit = fast_put_bit fax_v17_rx

abbrev pub v29_put_bit : {s : Spandsp} → Signal → Fax s → Ended (Fax s)
v29_put_bit = fast_put_bit fax_v29_rx

abbrev pub v27ter_put_bit : {s : Spandsp} → Signal → Fax s → Ended (Fax s)
v27ter_put_bit = fast_put_bit fax_v27ter_rx

unfoldable pub span_in_sync : {s : Spandsp} → Fax s → Fax s
span_in_sync f = t4_begin (record f { fast_trained = fax_v27ter_rx })
