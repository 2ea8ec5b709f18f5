-- ===== src/V110/Examples.antt =====
-- Four V.110 frames of ones and zeros.
use ras.Base.{ℕ, ◌≡◌, refl, zero, suc, List, [], ◌∷◌, ◌++◌}
use ras.V110.{frame_bits_cb}
use ras.V110.Reassembly.{frame_bits_cb-sequence}
use ras.V110.Layout.{Rows, Full, data_bits, v110_frame}

abbrev row_of : ℕ → List ℕ
row_of b = b ∷ 0 ∷ 1 ∷ 0 ∷ 1 ∷ b ∷ b ∷ []

abbrev rows_of : ℕ → Rows
rows_of b = record {
  row1 = row_of b;
  row2 = row_of 0;
  row3 = row_of 1;
  row4 = row_of b;
  middle = 1 ∷ 0 ∷ 0 ∷ b ∷ [];
  row6 = row_of 0;
  row7 = row_of b;
  row8 = row_of 1;
  row9 = row_of b;
}

rows_of-Full : (b : ℕ) → Full (rows_of b)
rows_of-Full b = record {
  full1 = refl;
  full2 = refl;
  full3 = refl;
  full4 = refl;
  full5 = refl;
  full6 = refl;
  full7 = refl;
  full8 = refl;
  full9 = refl;
}

abbrev zeros_of : ℕ → List ℕ
zeros_of zero = []
zeros_of (suc n) = 0 ∷ zeros_of n

frame_bits_cb-sequence_example :
    (let whole =
        ((data_bits (rows_of 0) ++ data_bits (rows_of 1)) ++ data_bits (rows_of 0))
        ++ data_bits (rows_of 1) in
      frame_bits_cb (v110_frame (0 ∷ 1 ∷ 1 ∷ []) (rows_of 1)) 80 (
        frame_bits_cb (v110_frame (1 ∷ 1 ∷ 0 ∷ []) (rows_of 0)) 80 (
          frame_bits_cb (v110_frame (1 ∷ 0 ∷ 1 ∷ []) (rows_of 1)) 80 (
            frame_bits_cb
              (v110_frame (0 ∷ 0 ∷ 0 ∷ []) (rows_of 0))
              80
              (record { rlp_frame_bits = zeros_of 240; frames = [] }))))
      ≡ record { rlp_frame_bits = whole; frames = whole ∷ [] })
frame_bits_cb-sequence_example =
    frame_bits_cb-sequence 0 1 1 0 (rows_of 0) (rows_of 1) (rows_of 0) (rows_of 1)
      (record { rlp_frame_bits = zeros_of 240; frames = [] }) (rows_of-Full 0) (rows_of-Full 1)
      (rows_of-Full 0) (rows_of-Full 1) refl
