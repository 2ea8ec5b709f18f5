-- ===== src/Fax/Examples.antt =====
-- A page of two frames, the second of which arrives twice, and a DCS frame.
use ras.Base.{ℕ, ◌≤◌, ◌<◌, ◌≡◌, refl, true, false, none, some, List, [], ◌∷◌, ◌++◌, arith}
use ras.Fax.Settings.{Told, dcs_bit, hdlc_accept-dcs}
use ras.Fax.Dcs.{check_rx_dcs, apply_dcs, find_fallback_entry, fallback_from}
use ras.Fax.{returns, hdlc_accept, hdlc_accepts, t4_begin, t4_end}
use ras.Fax.Types.{Spandsp, Fax, frame, fax_none}
use ras.Fax.Ecm.{arriving, occurs, page_from, bits_of, decoded, set_up, page-put}

-- A decoder that keeps the bits.
abbrev pub keeping : Spandsp
keeping = record {
  T4 = List ℕ;
  HdlcRx = Unit {0};
  t4_fcd = 0x60;
  t30_dcs = 0x82;
  t30_max_dis_dtc_dcs_len = 22;
  y_standard = 0;
  y_fine = 1;
  y_superfine = 2;
  itu_t4_1d = 1;
  itu_t4_2d = 2;
  itu_t6 = 3;
  hdlc_rx_put_bit = λ rx bit. (rx, []);
  t4_rx_set_rx_encoding = λ t n. t;
  t4_rx_set_x_resolution = λ t n. t;
  t4_rx_set_y_resolution = λ t n. t;
  t4_rx_set_image_width = λ t w. t;
  t4_rx_start_page = λ t. [];
  t4_rx_put_bit = λ t bit. (false, t ++ (bit ∷ []));
  t4_rx_end_page = λ t. t;
}

abbrev pub trained : Fax keeping
trained = record {
  t4_state = [];
  t4_up = false;
  hdlcrx = tt;
  fast_trained = fax_none;
  ecm = λ i. none;
  line_encoding = 1;
  x_resolution = 0;
  y_resolution = 0;
  image_width = some 1728;
  octets_per_ecm_frame = 256;
  error_correcting_mode = true;
  current_fallback = none;
}

abbrev page : ℕ → List ℕ
page i = i ∷ 0x35 ∷ []

abbrev order : List ℕ
order = 1 ∷ 0 ∷ 1 ∷ []

present : (i : ℕ) → i < 2 → occurs i order ≡ true
present i h = ground arith

absent : (i : ℕ) → 2 ≤ i → occurs i order ≡ false
absent i h = ground arith

page-put_example :
    (g : Fax keeping) × (hdlc_accepts (arriving keeping page order) (t4_begin trained) ≡ returns g)
    × ((t4_end g).t4_state ≡ decoded keeping (bits_of (page_from page 2 0)) (set_up trained))
page-put_example =
    page-put {s = keeping} refl page 2 order trained refl (omega arith) (λ i. omega arith) present
      absent

-- 14400 bit/s, fine resolution, 2048 columns, T.6 and the error correcting mode; octet 8 is not there.
abbrev dcs : List ℕ
dcs = 0xff ∷ 0x13 ∷ 0x83 ∷ 0 ∷ 0x60 ∷ 0x81 ∷ 0xc4 ∷ []

hdlc_accept-dcs_example :
    (g : Fax keeping) × (hdlc_accept (frame dcs 7 true) trained ≡ returns g)
    × Told (dcs_bit dcs 7) trained g
hdlc_accept-dcs_example =
    hdlc_accept-dcs trained dcs 7
      (
        omega arith,
        (
          omega arith,
          (omega arith, (omega arith, (omega arith, (omega arith, (omega arith, tt))))),
        ),
      )
      (omega arith) (omega arith) refl refl refl refl

dcs_settings : check_rx_dcs dcs 7 trained ≡ record trained {
  y_resolution = 1;
  line_encoding = 3;
  image_width = some 2048;
  octets_per_ecm_frame = 64;
  current_fallback = some 0;
}
unfolding check_rx_dcs apply_dcs find_fallback_entry fallback_from
dcs_settings = refl
