-- ===== src/V110/Reassembly.antt =====
-- Four V.110 frames make an RLP frame: the layout of GSM 08.20 against src/yate_v110.c.
use ras.Base.{
  ℕ, ◌+◌, ◌*◌, ◌≡◌, refl, sym, ap, ap₂, ◌∙◌, Option, none, some, List, [], ◌∷◌, ◌++◌, append_assoc,
  append-nil, if◌then◌else◌, length, length-append, length-drop, bit_or, ◌==◌, take, drop,
  take-append, drop-append, drop-drop, arith,
}
use ras.V110.{RlpFrame, write_at, Rlp, take_frame, frame_bits_cb}
use ras.V110.Layout.{Rows, Full, laid_out, data_bits, v110_frame, decode-rows}

length-data_bits : (r : Rows) → Full r → length (data_bits r) ≡ 60
length-data_bits r f = omega (
  arith,
  length-append r.row1
      (laid_out (r.row2 ∷ r.row3 ∷ r.row4 ∷ r.middle ∷ r.row6 ∷ r.row7 ∷ r.row8 ∷ r.row9 ∷ [])),
  length-append r.row2
      (laid_out (r.row3 ∷ r.row4 ∷ r.middle ∷ r.row6 ∷ r.row7 ∷ r.row8 ∷ r.row9 ∷ [])),
  length-append r.row3 (laid_out (r.row4 ∷ r.middle ∷ r.row6 ∷ r.row7 ∷ r.row8 ∷ r.row9 ∷ [])),
  length-append r.row4 (laid_out (r.middle ∷ r.row6 ∷ r.row7 ∷ r.row8 ∷ r.row9 ∷ [])),
  length-append r.middle (laid_out (r.row6 ∷ r.row7 ∷ r.row8 ∷ r.row9 ∷ [])),
  length-append r.row6 (laid_out (r.row7 ∷ r.row8 ∷ r.row9 ∷ [])),
  length-append r.row7 (laid_out (r.row8 ∷ r.row9 ∷ [])),
  length-append r.row8 (laid_out (r.row9 ∷ [])),
  length-append r.row9 [],
)

-- What is written behind the front of an array leaves the front as it is.
write_behind :
    (from : ℕ) (front bits memory : List ℕ)
    → length front ≡ from
    → length bits ≡ 60
    → write_at from bits (front ++ memory) ≡ (front ++ bits) ++ drop 60 memory
write_behind from front bits memory e k =
    let here : take from (front ++ memory) ≡ front =
      ap (λ n. take n (front ++ memory)) (sym e) ∙ take-append front memory in
    let left : drop (from + length bits) (front ++ memory) ≡ drop 60 memory =
      ap₂ (λ n m. drop (n + m) (front ++ memory)) (sym e) k
      ∙ (drop-drop (length front) 60 (front ++ memory) ∙ ap (drop 60) (drop-append front memory)) in
    ap₂ (λ x y. x ++ (bits ++ y)) here left ∙ sym (append_assoc front bits (drop 60 memory))

empty_of_length : (xs : List ℕ) → length xs ≡ 0 → xs ≡ []
empty_of_length [] e = refl
empty_of_length (x ∷ xs) e = absurd (omega arith)

none_left : (m : List ℕ) → length m ≡ 240 → drop 60 (drop 60 (drop 60 (drop 60 m))) ≡ []
none_left m size = empty_of_length _ (
    omega (
      arith,
      length-drop 60 m,
      length-drop 60 (drop 60 m),
      length-drop 60 (drop 60 (drop 60 m)),
      length-drop 60 (drop 60 (drop 60 (drop 60 m))),
    ))

-- A V.110 frame with the sequence number `fsi` in its bits E2 and E3.
module _ (x high low : ℕ) (r : Rows) (f : Full r) where
  frame_bits_cb-rows :
      (front memory : List ℕ) (frames : List (List ℕ)) (fsi : ℕ)
      → bit_or (high * 2) low ≡ fsi
      → length front ≡ fsi * 60
      → frame_bits_cb
          (v110_frame (x ∷ high ∷ low ∷ []) r)
          80
          (record { rlp_frame_bits = front ++ memory; frames = frames })
        ≡ (let bits = (front ++ data_bits r) ++ drop 60 memory in
            record {
              rlp_frame_bits = bits;
              frames = if fsi == 3 then frames ++ (bits ∷ []) else frames;
            })
  unfolding frame_bits_cb take_frame
  frame_bits_cb-rows front memory frames fsi e k =
      ap after_decode (decode-rows (x ∷ high ∷ low ∷ []) r refl f)
      ∙ (ap placed e
          ∙ ap sent_on
              (write_behind (fsi * 60) front (data_bits r) memory k (length-data_bits r f)))
    where
      after_decode : Option RlpFrame → Rlp
      after_decode d = elim d [
        | none ↦ record { rlp_frame_bits = front ++ memory; frames = frames }
        | some dfr ↦ take_frame dfr (record { rlp_frame_bits = front ++ memory; frames = frames })
      ]

      placed : ℕ → Rlp
      placed n =
          let bits = write_at (n * 60) (data_bits r) (front ++ memory) in
          record {
            rlp_frame_bits = bits;
            frames = if n == 3 then frames ++ (bits ∷ []) else frames;
          }

      sent_on : List ℕ → Rlp
      sent_on bits = record {
        rlp_frame_bits = bits;
        frames = if fsi == 3 then frames ++ (bits ∷ []) else frames;
      }

-- Let four V.110 frames arrive with the sequence numbers 0 to 3 in their bits E2 and E3, laid out as the
-- standard says. Then their data bits, each frame's rows in order, make one RLP frame of 240 bits in
-- this order, which is sent on once, whatever was in the array before.
pub frame_bits_cb-sequence :
    (x0 x1 x2 x3 : ℕ) (r0 r1 r2 r3 : Rows) (r : Rlp)
    → Full r0
    → Full r1
    → Full r2
    → Full r3
    → length r.rlp_frame_bits ≡ 240
    → (let whole = ((data_bits r0 ++ data_bits r1) ++ data_bits r2) ++ data_bits r3 in
        frame_bits_cb (v110_frame (x3 ∷ 1 ∷ 1 ∷ []) r3) 80 (
          frame_bits_cb (v110_frame (x2 ∷ 1 ∷ 0 ∷ []) r2) 80 (
            frame_bits_cb
              (v110_frame (x1 ∷ 0 ∷ 1 ∷ []) r1)
              80
              (frame_bits_cb (v110_frame (x0 ∷ 0 ∷ 0 ∷ []) r0) 80 r)))
        ≡ record { rlp_frame_bits = whole; frames = r.frames ++ (whole ∷ []) })
frame_bits_cb-sequence x0 x1 x2 x3 r0 r1 r2 r3 r f0 f1 f2 f3 size =
    let q0 = data_bits r0 in
    let q1 = data_bits r1 in
    let q2 = data_bits r2 in
    let m = r.rlp_frame_bits in
    let two = length-append q0 q1 in
    let three = length-append (q0 ++ q1) q2 in
    let l0 = length-data_bits r0 f0 in
    let l1 = length-data_bits r1 f1 in
    let l2 = length-data_bits r2 f2 in
    let third = frame_bits_cb (v110_frame (x2 ∷ 1 ∷ 0 ∷ []) r2) 80 in
    let fourth = frame_bits_cb (v110_frame (x3 ∷ 1 ∷ 1 ∷ []) r3) 80 in
    ap (λ t. fourth (third (frame_bits_cb (v110_frame (x1 ∷ 0 ∷ 1 ∷ []) r1) 80 t)))
      (frame_bits_cb-rows x0 0 0 r0 f0 [] m r.frames 0 refl refl)
    ∙ (ap (λ t. fourth (third t))
          (frame_bits_cb-rows x1 0 1 r1 f1 q0 (drop 60 m) r.frames 1 refl (omega arith))
        ∙ (ap fourth (
              frame_bits_cb-rows x2 1 0 r2 f2 (q0 ++ q1) (drop 60 (drop 60 m)) r.frames 2 refl
                (omega arith))
            ∙ (frame_bits_cb-rows x3 1 1 r3 f3 ((q0 ++ q1) ++ q2) (drop 60 (drop 60 (drop 60 m)))
                  r.frames 3 refl (omega arith)
                ∙ ap
                    (λ t.
                      let bits = (((q0 ++ q1) ++ q2) ++ data_bits r3) ++ t in
                      record { rlp_frame_bits = bits; frames = r.frames ++ (bits ∷ []) })
                    (none_left m size)
                ∙ ap (λ t. record { rlp_frame_bits = t; frames = r.frames ++ (t ∷ []) })
                    (append-nil (((q0 ++ q1) ++ q2) ++ data_bits r3)))))
