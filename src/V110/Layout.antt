-- ===== src/V110/Layout.antt =====
-- The layout of GSM 08.20 for RLP frames in V.110 frames, and `osmo_v110_decode_rlp_frame` of
-- src/yate_v110.c on it.
use ras.Base.{
  ℕ, zero, suc, ◌+◌, ◌≡◌, refl, sym, ap, ap₂, ◌∙◌, some, List, [], ◌∷◌, ◌++◌, append-nil, length,
  take, drop, take-append, drop-append, drop-drop, arith,
}
use ras.V110.{slice, decode_rlp_frame}

-- The bits of a V.110 frame: the data bits of rows 1 to 4 and 6 to 9, seven each, with four more and the
-- bits E1 to E3 in row 5. The frame begins with eight zeros, and every row behind with a one.
pub record Rows : Type 0 where
  pub row1 : List ℕ
  pub row2 : List ℕ
  pub row3 : List ℕ
  pub row4 : List ℕ
  pub middle : List ℕ
  pub row6 : List ℕ
  pub row7 : List ℕ
  pub row8 : List ℕ
  pub row9 : List ℕ

pub record Full (r : Rows) : Type 0 where
  pub full1 : length r.row1 ≡ 7
  pub full2 : length r.row2 ≡ 7
  pub full3 : length r.row3 ≡ 7
  pub full4 : length r.row4 ≡ 7
  pub full5 : length r.middle ≡ 4
  pub full6 : length r.row6 ≡ 7
  pub full7 : length r.row7 ≡ 7
  pub full8 : length r.row8 ≡ 7
  pub full9 : length r.row9 ≡ 7

abbrev pub laid_out : List (List ℕ) → List ℕ
laid_out [] = []
laid_out (p ∷ pieces) = p ++ laid_out pieces

abbrev pub data_bits : Rows → List ℕ
data_bits r =
    laid_out (r.row1 ∷ r.row2 ∷ r.row3 ∷ r.row4 ∷ r.middle ∷ r.row6 ∷ r.row7 ∷ r.row8 ∷ r.row9 ∷ [])

abbrev pub v110_frame : List ℕ → Rows → List ℕ
v110_frame e r = laid_out (
    (0 ∷ 0 ∷ 0 ∷ 0 ∷ 0 ∷ 0 ∷ 0 ∷ 0 ∷ 1 ∷ [])
    ∷ r.row1
    ∷ (1 ∷ [])
    ∷ r.row2
    ∷ (1 ∷ [])
    ∷ r.row3
    ∷ (1 ∷ [])
    ∷ r.row4
    ∷ (1 ∷ [])
    ∷ e
    ∷ r.middle
    ∷ (1 ∷ [])
    ∷ r.row6
    ∷ (1 ∷ [])
    ∷ r.row7
    ∷ (1 ∷ [])
    ∷ r.row8
    ∷ (1 ∷ [])
    ∷ r.row9
    ∷ [])

-- The piece behind so many others.
abbrev pub behind : ℕ → List (List ℕ) → List (List ℕ)
behind zero pieces = pieces
behind (suc k) [] = []
behind (suc k) (p ∷ pieces) = behind k pieces

abbrev size_of : ℕ → List (List ℕ) → ℕ
size_of zero pieces = 0
size_of (suc k) [] = 0
size_of (suc k) (p ∷ pieces) = length p + size_of k pieces

drop_pieces :
    (k : ℕ) (pieces : List (List ℕ))
    → drop (size_of k pieces) (laid_out pieces) ≡ laid_out (behind k pieces)
drop_pieces zero pieces = refl
drop_pieces (suc k) [] = refl
drop_pieces (suc k) (p ∷ pieces) =
    drop-drop (length p) (size_of k pieces) (p ++ laid_out pieces)
    ∙ (ap (drop (size_of k pieces)) (drop-append p (laid_out pieces)) ∙ drop_pieces k pieces)

-- The slice that is just the piece behind the first `k`.
slice-piece :
    (k from count : ℕ) (pieces : List (List ℕ)) (p : List ℕ) (rest : List (List ℕ))
    → behind k pieces ≡ p ∷ rest
    → from ≡ size_of k pieces
    → count ≡ length p
    → slice from count (laid_out pieces) ≡ p
slice-piece k from count pieces p rest e f c =
    ap₂ (λ n m. take n (drop m (laid_out pieces))) c f
    ∙ (ap (take (length p)) (drop_pieces k pieces ∙ ap laid_out e) ∙ take-append p (laid_out rest))

-- The pieces of a frame, and where each row lies.
abbrev frame_pieces : List ℕ → Rows → List (List ℕ)
frame_pieces e r =
    (0 ∷ 0 ∷ 0 ∷ 0 ∷ 0 ∷ 0 ∷ 0 ∷ 0 ∷ 1 ∷ [])
    ∷ r.row1
    ∷ (1 ∷ [])
    ∷ r.row2
    ∷ (1 ∷ [])
    ∷ r.row3
    ∷ (1 ∷ [])
    ∷ r.row4
    ∷ (1 ∷ [])
    ∷ e
    ∷ r.middle
    ∷ (1 ∷ [])
    ∷ r.row6
    ∷ (1 ∷ [])
    ∷ r.row7
    ∷ (1 ∷ [])
    ∷ r.row8
    ∷ (1 ∷ [])
    ∷ r.row9
    ∷ []

pub decode-rows :
    (e : List ℕ) (r : Rows)
    → length e ≡ 3
    → Full r
    → decode_rlp_frame (v110_frame e r) 80 ≡ some (record { d_bits = data_bits r; e_bits = e })
unfolding decode_rlp_frame
decode-rows e r k f =
    let P = frame_pieces e r in
    let s1 : slice 9 7 (laid_out P) ≡ r.row1 =
      slice-piece 1 9 7 P r.row1 _ refl (omega arith) (omega arith) in
    let s2 : slice 17 7 (laid_out P) ≡ r.row2 =
      slice-piece 3 17 7 P r.row2 _ refl (omega arith) (omega arith) in
    let s3 : slice 25 7 (laid_out P) ≡ r.row3 =
      slice-piece 5 25 7 P r.row3 _ refl (omega arith) (omega arith) in
    let s4 : slice 33 7 (laid_out P) ≡ r.row4 =
      slice-piece 7 33 7 P r.row4 _ refl (omega arith) (omega arith) in
    let se : slice 41 3 (laid_out P) ≡ e =
      slice-piece 9 41 3 P e _ refl (omega arith) (omega arith) in
    let s5 : slice 44 4 (laid_out P) ≡ r.middle =
      slice-piece 10 44 4 P r.middle _ refl (omega arith) (omega arith) in
    let s6 : slice 49 7 (laid_out P) ≡ r.row6 =
      slice-piece 12 49 7 P r.row6 _ refl (omega arith) (omega arith) in
    let s7 : slice 57 7 (laid_out P) ≡ r.row7 =
      slice-piece 14 57 7 P r.row7 _ refl (omega arith) (omega arith) in
    let s8 : slice 65 7 (laid_out P) ≡ r.row8 =
      slice-piece 16 65 7 P r.row8 _ refl (omega arith) (omega arith) in
    let s9 : slice 73 7 (laid_out P) ≡ r.row9 =
      slice-piece 18 73 7 P r.row9 _ refl (omega arith) (omega arith) in
    let join = λ (x y : List ℕ). x ++ y in
    ap₂ (λ d x. some (record { d_bits = d; e_bits = x }))
      (ap₂ join s1 (
        ap₂ join s2 (
          ap₂ join s3 (
            ap₂ join s4 (
              ap₂ join s5
                (ap₂ join s6 (ap₂ join s7 (ap₂ join s8 (s9 ∙ sym (append-nil r.row9))))))))))
      se
