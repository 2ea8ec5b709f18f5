-- ===== src/V110.antt =====
-- The RLP frames in V.110 frames: `osmo_v110_decode_rlp_frame` and `frame_bits_cb` of src/yate_v110.c, less
-- what they print. The demultiplexer and the search for the frames are libosmocore's.
pub mod Layout
pub mod Examples
pub mod Reassembly
use ras.Base.{
  ℕ, ◌+◌, ◌*◌, bit_or, Option, none, some, List, [], ◌∷◌, ◌++◌, ◌==◌, ltb, if◌then◌else◌, length,
  get_or, take, drop,
}

-- So many bits from an index on.
abbrev pub slice : ℕ → ℕ → List ℕ → List ℕ
slice from count bits = take count (drop from bits)

-- `struct osmo_v110_decoded_rlp_frame`
pub record RlpFrame : Type 0 where
  pub d_bits : List ℕ
  pub e_bits : List ℕ

-- The result is nothing for -EINVAL.
unfoldable pub decode_rlp_frame : List ℕ → ℕ → Option RlpFrame
decode_rlp_frame ra_bits n_bits =
    if ltb n_bits 80
    then none
    else some (record {
      d_bits =
          slice (1 * 8 + 1) 7 ra_bits
          ++ (slice (2 * 8 + 1) 7 ra_bits
              ++ (slice (3 * 8 + 1) 7 ra_bits
                  ++ (slice (4 * 8 + 1) 7 ra_bits
                      ++ (slice (5 * 8 + 4) 4 ra_bits
                          ++ (slice (6 * 8 + 1) 7 ra_bits
                              ++ (slice (7 * 8 + 1) 7 ra_bits
                                  ++ (slice (8 * 8 + 1) 7 ra_bits
                                      ++ slice (9 * 8 + 1) 7 ra_bits)))))));
      e_bits = slice (5 * 8 + 1) 3 ra_bits;
    })

-- `memcpy` into an array.
abbrev pub write_at : ℕ → List ℕ → List ℕ → List ℕ
write_at from bits memory = take from memory ++ (bits ++ drop (from + length bits) memory)

-- `rlp_frame_bits`, and the bits of the frames that were sent on: `osmo_ubit2pbit` and
-- `osmo_revbytebits_8` make their octets.
pub record Rlp : Type 0 where
  pub rlp_frame_bits : List ℕ
  pub frames : List (List ℕ)

abbrev pub frame_sequence : RlpFrame → ℕ
frame_sequence dfr = bit_or (get_or dfr.e_bits 1 0 * 2) (get_or dfr.e_bits 2 0)

unfoldable pub take_frame : RlpFrame → Rlp → Rlp
take_frame dfr r =
    let rlp_fsi = frame_sequence dfr in
    let bits = write_at (rlp_fsi * 60) dfr.d_bits r.rlp_frame_bits in
    record {
      rlp_frame_bits = bits;
      frames = if rlp_fsi == 3 then r.frames ++ (bits ∷ []) else r.frames;
    }

unfoldable pub frame_bits_cb : List ℕ → ℕ → Rlp → Rlp
frame_bits_cb bits num_bits r = elim (decode_rlp_frame bits num_bits) [
  | none ↦ r
  | some dfr ↦ take_frame dfr r
]
