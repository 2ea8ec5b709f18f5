-- ===== src/Line/Concrete.antt =====
-- A codec that keeps to what is asked of libosmocore's, for the examples: each octet is a frame, and an
-- idle line is all ones.
use ras.Base.{ℕ, ◌≡◌, refl, ◌<◌, ◌≤◌, List, [], ◌∷◌, length, arith}
use ras.Line.{Decoding, no_frame, hdlc_frame, Sent, octets_sent, Hdlc, Reads, Fills}

abbrev one_frame : Unit {0} → List ℕ → ℕ → Decoding × ℕ × Unit {0}
one_frame d [] size = (no_frame, 0, d)
one_frame d (x ∷ xs) size = (hdlc_frame (x ∷ []), 1, d)

abbrev one_octet : Unit {0} → List ℕ → ℕ → Sent × ℕ × Unit {0}
one_octet e [] room = (octets_sent (0xFF ∷ []), 0, e)
one_octet e (x ∷ xs) room = (octets_sent (x ∷ []), 1, e)

abbrev pub octetwise : Hdlc
octetwise = record {
  Decoder = Unit {0};
  Encoder = Unit {0};
  isdnhdlc_decode = one_frame;
  isdnhdlc_encode = one_octet;
}

pub octetwise-Reads : Reads octetwise
octetwise-Reads = record {
  held = λ d. 0;
  few = λ d. omega arith;
  nearer = λ d x xs size. omega arith;
}

pub octetwise-Fills : Fills octetwise
octetwise-Fills = record { fills = filled }
  where
    filled :
        (e : Unit {0}) (src : List ℕ) (room : ℕ)
        → 0 < room
        → (out : List ℕ) × (count : ℕ) × (e' : Unit {0}) × (one_octet e src room
            ≡ (octets_sent out, count, e'))
          × (count ≤ length src)
          × (0 < length out)
          × (length out ≤ room)
    filled e [] room h = (0xFF ∷ [], 0, e, refl, omega arith, omega arith, omega arith)
    filled e (x ∷ xs) room h = (x ∷ [], 1, e, refl, omega arith, omega arith, omega arith)
