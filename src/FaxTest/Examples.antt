-- ===== src/FaxTest/Examples.antt =====
-- Bits with the sync word in them, a marker and two blocks, on a decoder that keeps the bits.
use ras.Base.{
  ap, get_or, ℕ, zero, suc, ◌+◌, ◌*◌, ◌/◌, ◌%◌, ◌≡◌, refl, true, false, some, List, [], ◌∷◌, ◌++◌,
  take, drop, arith,
}
use ras.Fax.{and_then, span_in_sync}
use ras.Fax.Examples.{keeping, trained}
use ras.FaxTest.{
  syncword, Bits, Receiver, marker, syncword_bits, take_bits, take_bit, sync_found, next_syncpos,
}
use ras.FaxTest.Search.{search}
use ras.FaxTest.Synced.{Contains, take_bits_synced}
use ras.FaxTest.Blocks.{Quiet, joined, handed}
use ras.FaxTest.Picture.{Block, says_data, part_of_picture, raw, given}
use ras.FaxTest.Received.{take_bits_received}

-- The bits of an octet, the highest first, and of octets.
abbrev octet_bits : ℕ → ℕ → List ℕ
octet_bits zero o = []
octet_bits (suc k) o = octet_bits k (o / 2) ++ ((o % 2) ∷ [])

abbrev unpacked : List ℕ → List ℕ
unpacked [] = []
unpacked (o ∷ octets) = octet_bits 8 o ++ unpacked octets

abbrev octet : ℕ → List ℕ → ℕ
octet n [] = n
octet n (b ∷ bits) = octet (n * 2 + b) bits

abbrev packed : ℕ → List ℕ → List ℕ
packed zero bits = []
packed (suc k) bits = octet 0 (take 8 bits) ∷ packed k (drop 8 bits)

abbrev highest_first : Bits
highest_first = record {
  decode_frame = λ bits n. some bits;
  pbit2ubit = λ octets n. unpacked octets;
  ubit2pbit = λ bits n. packed 8 bits;
}

abbrev waiting : Receiver keeping
waiting = record {
  syncpos = 0;
  frame_bits = [];
  in_sync = false;
  data_mode = false;
  fax = record trained { error_correcting_mode = false };
}

abbrev scan : List ℕ
scan = unpacked (1 ∷ 2 ∷ 3 ∷ 4 ∷ 5 ∷ 6 ∷ 7 ∷ 8 ∷ [])

abbrev after_word : List Block
after_word = part_of_picture scan ∷ says_data (unpacked marker) ∷ []

take_bits_received_example :
    take_bits highest_first
      (unpacked syncword ++ (unpacked marker ++ joined (raw after_word)))
      waiting
    ≡ and_then
        (handed
          (record waiting { in_sync = true })
          (search (unpacked syncword) (unpacked marker ++ joined (raw after_word)) 0))
        (given scan (span_in_sync waiting.fax))
unfolding next_syncpos
take_bits_received_example =
    take_bits_received highest_first {s = keeping} (unpacked syncword) (unpacked marker) after_word
      waiting refl refl refl refl
      (refl, (λ e. omega (arith, ap (λ l. get_or l 0 0) e)), (refl, refl, tt)) (omega arith) refl
      refl refl

abbrev in_sync : Receiver keeping
in_sync = record waiting { in_sync = true; fax = span_in_sync waiting.fax }

take_bits_synced_example : Contains (syncword_bits highest_first) (syncword_bits highest_first)
unfolding take_bits take_bit next_syncpos sync_found
take_bits_synced_example =
    take_bits_synced highest_first refl (syncword_bits highest_first) waiting in_sync refl refl refl
      refl

-- Behind a single bit 0 the sync word is missed, and a whole one behind that is found.
sync_word_missed : Quiet (syncword_bits highest_first) (0 ∷ syncword_bits highest_first) 0
unfolding next_syncpos
sync_word_missed = omega arith

second_word_found :
    search
      (syncword_bits highest_first)
      (0 ∷ (syncword_bits highest_first ++ syncword_bits highest_first))
      0
    ≡ 64
unfolding search next_syncpos
second_word_found = refl
