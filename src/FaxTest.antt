-- ===== src/FaxTest.antt =====
-- The program of src/fax_test.c, from the bits of the V.110 frames to the fax decoder, less what it
-- prints. The demultiplexer, the search for V.110 frames and their decoding are libosmocore's.
pub mod Search
pub mod Synced
pub mod Blocks
pub mod Picture
pub mod Received
pub mod Examples
use ras.Base.{
  ℕ, ◌+◌, Bool, true, false, Option, none, some, List, [], ◌∷◌, ◌++◌, ◌==◌, if◌then◌else◌, length,
  get_or,
}
use ras.Fax.Types.{Spandsp, Fax}
use ras.Fax.{Ended, returns, copies_too_much, and_then, span_fax_bits, span_in_sync}

-- What the program uses of libosmocore: the data bits of a V.110 frame, nothing for an error, and the
-- conversions between bits and octets.
pub record Bits : Type 0 where
  pub decode_frame : List ℕ → ℕ → Option (List ℕ)
  pub pbit2ubit : List ℕ → ℕ → List ℕ
  pub ubit2pbit : List ℕ → ℕ → List ℕ

abbrev pub syncword : List ℕ
syncword = 0x3E ∷ 0x37 ∷ 0x50 ∷ 0x96 ∷ 0xC1 ∷ 0xC8 ∷ 0xAF ∷ 0x69 ∷ []

-- The octets that `bytes` is compared with.
abbrev pub marker : List ℕ
marker = 0x33 ∷ 0x0f ∷ 0x33 ∷ 0x0f ∷ 0x33 ∷ 0x0f ∷ 0x33 ∷ 0x0f ∷ []

-- `memcmp(…) == 0` on lists of one length.
unfoldable pub same_octets : List ℕ → List ℕ → Bool
same_octets [] [] = true
same_octets [] (y ∷ ys) = false
same_octets (x ∷ xs) [] = false
same_octets (x ∷ xs) (y ∷ ys) = if x == y then same_octets xs ys else false

-- The globals. `frame_bits` holds the bits up to the index `bit`, which is its length.
pub record Receiver (s : Spandsp) : Type 0 where
  pub syncpos : ℕ
  pub frame_bits : List ℕ
  pub in_sync : Bool
  pub data_mode : Bool
  pub fax : Fax s

-- The two tests of `syncpos` on a bit; `word` is `syncword_bits`.
unfoldable pub next_syncpos : List ℕ → ℕ → ℕ → ℕ
next_syncpos word b syncpos =
    let from = if get_or word syncpos 0 == b then syncpos else 0 in
    if get_or word from 0 == b then from + 1 else from

unfoldable pub sync_found : {s : Spandsp} → Receiver s → Receiver s
sync_found r = record r {
  syncpos = 0;
  frame_bits = [];
  in_sync = true;
  fax = if r.in_sync then r.fax else span_in_sync r.fax;
}

-- The bits of a block, one after the other, to the fax decoder.
unfoldable pub put_bits : {s : Spandsp} → List ℕ → Fax s → Ended (Fax s)
put_bits [] f = returns f
put_bits (b ∷ bits) f = and_then (put_bits bits) (span_fax_bits b f)

abbrev pub with_fax : {s : Spandsp} → Receiver s → Fax s → Ended (Receiver s)
with_fax r f = returns (record r { fax = f })

module _ (lib : Bits) where
  abbrev pub syncword_bits : List ℕ
  syncword_bits = lib.pbit2ubit syncword 64

  abbrev pub is_marker : List ℕ → Bool
  is_marker block = same_octets marker (lib.ubit2pbit block 64)

  -- What is done with 64 bits.
  unfoldable pub take_block : {s : Spandsp} → List ℕ → Receiver s → Ended (Receiver s)
  take_block block r =
      if is_marker block
      then returns (record r { data_mode = true })
      else if r.data_mode
      then and_then (with_fax r) (put_bits block r.fax)
      else returns r

  -- A round of the loop.
  unfoldable pub take_bit : {s : Spandsp} → ℕ → Receiver s → Ended (Receiver s)
  take_bit b r =
      let bits = r.frame_bits ++ (b ∷ []) in
      let syncpos = next_syncpos syncword_bits b r.syncpos in
      let moved = record r { syncpos = syncpos; frame_bits = bits } in
      if syncpos == 64
      then returns (sync_found moved)
      else if length bits == 64
      then take_block bits (record moved { frame_bits = [] })
      else returns moved

  unfoldable pub take_bits : {s : Spandsp} → List ℕ → Receiver s → Ended (Receiver s)
  take_bits [] r = returns r
  take_bits (b ∷ bits) r = and_then (take_bits bits) (take_bit b r)

  unfoldable pub v110_bits_cb : {s : Spandsp} → List ℕ → ℕ → Receiver s → Ended (Receiver s)
  v110_bits_cb bits num_bits r = elim (lib.decode_frame bits num_bits) [
    | none ↦ returns r
    | some d_bits ↦ take_bits d_bits r
  ]
