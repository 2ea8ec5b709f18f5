-- ===== src/Fax/Ecm.antt =====
-- Images with error correction: `hdlc_accept`, `t4_begin` and `t4_end` of src/fax_decode.c.
use ras.Base.{
  ℕ, zero, suc, ◌+◌, ◌-◌, ◌/◌, ◌%◌, ◌≤◌, ◌<◌, bit_and, ◌≡◌, refl, sym, ap, ◌∙◌, ◌⊎◌, inl, inr, Bool,
  true, false, ◌||◌, Option, none, some, List, [], ◌∷◌, ◌++◌, ◌==◌, ==_iff, ==_self, ltb,
  if◌then◌else◌, length, take, Bool-cases, arith,
}
use ras.Fax.{
  returns, copies_too_much, and_then, stored, store_fcd, accept_frame, hdlc_accept, hdlc_accepts,
  t4_begin, t4_end, put_octets, put_frame, put_frames,
}
use ras.Fax.Types.{Spandsp, Fax, Accept, frame}
use ras.Fax.Dcs.{check_rx_dcs}

-- An FCD frame with octets of the image, as it comes from the receiver.
abbrev pub fcd_frame : Spandsp → ℕ → List ℕ → Accept
fcd_frame s frame_no octets =
    frame (0xFF ∷ 0x03 ∷ s.t4_fcd ∷ frame_no ∷ octets) (4 + length octets) true

-- The frames of a page, in the order in which they arrive.
abbrev pub arriving : Spandsp → (ℕ → List ℕ) → List ℕ → List Accept
arriving s page [] = []
arriving s page (i ∷ order) = fcd_frame s i (page i) ∷ arriving s page order

abbrev pub occurs : ℕ → List ℕ → Bool
occurs i [] = false
occurs i (j ∷ order) = i == j || occurs i order

take_whole : (xs : List ℕ) → take (length xs) xs ≡ xs
take_whole [] = refl
take_whole (x ∷ xs) = ap (λ t. x ∷ t) (take_whole xs)

-- What the frames that arrive leave in the store.
unfoldable arrived : (ℕ → List ℕ) → List ℕ → (ℕ → Option (List ℕ)) → ℕ → Option (List ℕ)
arrived page [] ecm = ecm
arrived page (i ∷ order) ecm = arrived page order (stored ecm i (some (page i)))

arrived_at :
    (page : ℕ → List ℕ) (order : List ℕ) (ecm : ℕ → Option (List ℕ)) (i : ℕ)
    → arrived page order ecm i ≡ (if occurs i order then some (page i) else ecm i)
unfolding arrived
arrived_at page [] ecm i = refl
arrived_at page (j ∷ order) ecm i =
    arrived_at page order (stored ecm j (some (page j))) i
    ∙ by_tests (occurs i order) (Bool-cases (i == j))
  where
    by_tests :
        (b : Bool)
        → ((i == j) ≡ true) ⊎ ((i == j) ≡ false)
        → (if b then some (page i) else (if i == j then some (page j) else ecm i))
          ≡ (if i == j || b then some (page i) else ecm i)
    by_tests true (inl e) = sym (ap (λ c. if c || true then some (page i) else ecm i) e)
    by_tests true (inr e) = sym (ap (λ c. if c || true then some (page i) else ecm i) e)
    by_tests false (inl e) =
        ap (λ c. if c then some (page j) else ecm i) e
        ∙ (ap (λ n. some (page n)) (sym ((==_iff i j).0 e))
            ∙ sym (ap (λ c. if c || false then some (page i) else ecm i) e))
    by_tests false (inr e) =
        ap (λ c. if c then some (page j) else ecm i) e
        ∙ sym (ap (λ c. if c || false then some (page i) else ecm i) e)

module _ {s : Spandsp} (right_type : bit_and s.t4_fcd 0xFE ≡ s.t4_fcd) where
  store_fcd-short :
      (i : ℕ) (octets : List ℕ) (f : Fax s)
      → length octets ≤ 256
      → store_fcd (0xFF ∷ 0x03 ∷ s.t4_fcd ∷ i ∷ octets) (4 + length octets) f
        ≡ returns (record f { ecm = stored f.ecm i (some octets) })
  unfolding store_fcd
  store_fcd-short i octets f h =
      let msg = 0xFF ∷ 0x03 ∷ s.t4_fcd ∷ i ∷ octets in
      let fits : ltb 260 (4 + length octets) ≡ false = ground arith in
      let long : ltb (4 + length octets) 4 ≡ false = ground arith in
      let size : 4 + length octets - 4 ≡ length octets = omega arith in
      let kept = λ (t : List ℕ). returns (record f { ecm = stored f.ecm i (some t) }) in
      ap
        (λ b.
          if b
          then returns f
          else if ltb (4 + length octets) 4
          then copies_too_much
          else kept (take (4 + length octets - 4) octets))
        fits
      ∙ (ap (λ b. if b then copies_too_much else kept (take (4 + length octets - 4) octets)) long
          ∙ ap kept (ap (λ n. take n octets) size ∙ take_whole octets))

  accept_fcd :
      (i : ℕ) (octets : List ℕ) (f : Fax s)
      → length octets ≤ 256
      → hdlc_accept (fcd_frame s i octets) f
        ≡ returns (record f { ecm = stored f.ecm i (some octets) })
  unfolding hdlc_accept accept_frame
  accept_fcd i octets f h =
      let msg = 0xFF ∷ 0x03 ∷ s.t4_fcd ∷ i ∷ octets in
      let len = 4 + length octets in
      ap
        (λ n.
          if n == s.t4_fcd
          then store_fcd msg len f
          else if n == s.t30_dcs
          then returns (check_rx_dcs msg len f)
          else returns f)
        right_type
      ∙ (ap
            (λ b.
              if b
              then store_fcd msg len f
              else if s.t4_fcd == s.t30_dcs
              then returns (check_rx_dcs msg len f)
              else returns f)
            (==_self s.t4_fcd)
          ∙ store_fcd-short i octets f h)

  arriving-stored :
      (page : ℕ → List ℕ) (order : List ℕ) (f : Fax s)
      → ((i : ℕ) → length (page i) ≤ 256)
      → hdlc_accepts (arriving s page order) f
        ≡ returns (record f { ecm = arrived page order f.ecm })
  unfolding hdlc_accepts arrived
  arriving-stored page [] f h = refl
  arriving-stored page (i ∷ order) f h =
      ap (and_then (hdlc_accepts (arriving s page order))) (accept_fcd i (page i) f (h i))
      ∙ arriving-stored page order (record f { ecm = stored f.ecm i (some (page i)) }) h

-- The octets of so many frames from the number `i` on.
abbrev pub page_from : (ℕ → List ℕ) → ℕ → ℕ → List ℕ
page_from page zero i = []
page_from page (suc n) i = page i ++ page_from page n (i + 1)

-- The eight bits of an octet, the lowest first, and those of octets.
abbrev pub bits_of : List ℕ → List ℕ
bits_of [] = []
bits_of (o ∷ octets) =
    (o % 2)
    ∷ (o / 2 % 2)
    ∷ (o / 4 % 2)
    ∷ (o / 8 % 2)
    ∷ (o / 16 % 2)
    ∷ (o / 32 % 2)
    ∷ (o / 64 % 2)
    ∷ (o / 128 % 2)
    ∷ bits_of octets

-- The T.4 decoder given bits, one after the other.
abbrev pub decoded : (s : Spandsp) → List ℕ → s.T4 → s.T4
decoded s [] t = t
decoded s (b ∷ bits) t = decoded s bits (s.t4_rx_put_bit t b).1

halves :
    (o : ℕ)
    → let h = o / 2 in
      (h / 2 ≡ o / 4)
      × (h / 2 / 2 ≡ o / 8)
      × (h / 2 / 2 / 2 ≡ o / 16)
      × (h / 2 / 2 / 2 / 2 ≡ o / 32)
      × (h / 2 / 2 / 2 / 2 / 2 ≡ o / 64)
      × (h / 2 / 2 / 2 / 2 / 2 / 2 ≡ o / 128)
halves o = (omega arith, omega arith, omega arith, omega arith, omega arith, omega arith)

put_octets-decoded :
    (s : Spandsp) (octets : List ℕ) (t : s.T4)
    → put_octets s octets t ≡ decoded s (bits_of octets) t
put_octets-decoded s [] t = refl
put_octets-decoded s (o ∷ octets) t =
    let (h4, h8, h16, h32, h64, h128) = halves o in
    rw (sym h128, sym h64, sym h32, sym h16, sym h8, sym h4) (put_octets-decoded s octets _)

module _ (s : Spandsp) where
  put_octets-append :
      (xs ys : List ℕ) (t : s.T4) → put_octets s (xs ++ ys) t ≡ put_octets s ys (put_octets s xs t)
  put_octets-append [] ys t = refl
  put_octets-append (x ∷ xs) ys t = put_octets-append xs ys _

  -- Of the numbers from `i` on the first `n` are in the store, and no other.
  put_frames-page :
      (page : ℕ → List ℕ) (ecm : ℕ → Option (List ℕ)) (all n i : ℕ) (t : s.T4)
      → n ≤ all
      → ((j : ℕ) → j < i + n → i ≤ j → ecm j ≡ some (page j))
      → ((j : ℕ) → i + n ≤ j → ecm j ≡ none)
      → put_frames s all i ecm t ≡ put_octets s (page_from page n i) t
  unfolding put_frames
  put_frames-page page ecm zero zero i t fits here beyond = refl
  put_frames-page page ecm zero (suc n) i t fits here beyond = absurd (omega arith)
  put_frames-page page ecm (suc all) zero i t fits here beyond =
      ap (λ x. put_frames s all (i + 1) ecm (put_frame s x t)) (beyond i (omega arith))
      ∙ put_frames-page page ecm all zero (i + 1) t (omega arith) (λ j h k. absurd (omega arith))
          (λ j h. beyond j (omega arith))
  put_frames-page page ecm (suc all) (suc n) i t fits here beyond =
      ap (λ x. put_frames s all (i + 1) ecm (put_frame s x t)) (here i (omega arith) (omega arith))
      ∙ (put_frames-page page ecm all n (i + 1) (put_octets s (page i) t) (omega arith)
            (λ j h k. here j (omega arith) (omega arith)) (λ j h. beyond j (omega arith))
          ∙ sym (put_octets-append (page i) (page_from page n (i + 1)) t))

-- The T.4 decoder set up for a page.
abbrev pub set_up : {s : Spandsp} → Fax s → s.T4
set_up {s} f = s.t4_rx_start_page (
    s.t4_rx_set_image_width
      (s.t4_rx_set_y_resolution
        (s.t4_rx_set_x_resolution (s.t4_rx_set_rx_encoding f.t4_state f.line_encoding)
          f.x_resolution)
        f.y_resolution)
      f.image_width)

module _ {s : Spandsp} (right_type : bit_and s.t4_fcd 0xFE ≡ s.t4_fcd) where
  -- A page in frames of at most 256 octets, with the numbers 0 to n - 1: if each of them arrives at least
  -- once behind the training, in any order and any number of times, then at the end of the page the T.4
  -- decoder, set up with the encoding, the resolutions and the width that were told, is given the bits of the frames in the order of their numbers, those of each octet from the
  -- lowest on, each once, and nothing else.
  pub page-put :
      (page : ℕ → List ℕ) (n : ℕ) (order : List ℕ) (f : Fax s)
      → f.error_correcting_mode ≡ true
      → n ≤ 256
      → ((i : ℕ) → length (page i) ≤ 256)
      → ((i : ℕ) → i < n → occurs i order ≡ true)
      → ((i : ℕ) → n ≤ i → occurs i order ≡ false)
      → (g : Fax s) × (hdlc_accepts (arriving s page order) (t4_begin f) ≡ returns g)
        × ((t4_end g).t4_state
            ≡ s.t4_rx_end_page (decoded s (bits_of (page_from page n 0)) (set_up f)))
  unfolding t4_end t4_begin
  page-put page n order f ecm_mode fits short present absent =
      let b = t4_begin f in
      let ecm = arrived page order b.ecm in
      (
        record b { ecm = ecm },
        arriving-stored right_type page order b short,
        ap (λ m. s.t4_rx_end_page (if m then put_frames s 256 0 ecm b.t4_state else b.t4_state))
              ecm_mode
            ∙ ap s.t4_rx_end_page (
                put_frames-page s page ecm 256 n 0 b.t4_state fits
                  (λ j h k.
                    arrived_at page order b.ecm j
                    ∙ ap (λ c. if c then some (page j) else none) (present j (omega arith)))
                  (λ j h.
                    arrived_at page order b.ecm j
                    ∙ ap (λ c. if c then some (page j) else none) (absent j (omega arith)))
                ∙ put_octets-decoded s (page_from page n 0) b.t4_state),
      )

-- An FCD frame of three octets, with its checksum right, makes `memcpy` copy a number of octets below 0.
pub short_fcd_copies_too_much :
    {s : Spandsp} (rest : List ℕ) (f : Fax s)
    → bit_and s.t4_fcd 0xFE ≡ s.t4_fcd
    → hdlc_accept (frame (0xFF ∷ 0x03 ∷ s.t4_fcd ∷ rest) 3 true) f ≡ copies_too_much
unfolding hdlc_accept accept_frame store_fcd
short_fcd_copies_too_much {s} rest f e =
    let msg = 0xFF ∷ 0x03 ∷ s.t4_fcd ∷ rest in
    ap
      (λ n.
        if n == s.t4_fcd
        then copies_too_much
        else if n == s.t30_dcs
        then returns (check_rx_dcs msg 3 f)
        else returns f)
      e
    ∙ ap
        (λ b.
          if b
          then copies_too_much
          else if s.t4_fcd == s.t30_dcs
          then returns (check_rx_dcs msg 3 f)
          else returns f)
        (==_self s.t4_fcd)
