-- ===== src/Yate/Examples.antt =====
-- The conversions of src/yate.c on a few codes.
use ras.Base.{ℕ, ◌≡◌, refl, inl, List, [], ◌∷◌, length, arith}
use ras.Yate.{alaw_slin_init, slin_to_alaw, alaw_to_slin, octets_of, SampleState, sample_input}
use ras.Yate.Lossless.{slin_to_alaw-alaw_to_slin}
use ras.Yate.Input.{result_of, sample_input-alaw}

abbrev codes : List ℕ
codes = 0x00 ∷ 0xd5 ∷ 0x2a ∷ 0x7f ∷ 0xff ∷ []

slin_to_alaw-alaw_to_slin_example :
    slin_to_alaw (0 ∷ []) (alaw_to_slin codes) ≡ (alaw_slin_init, codes)
slin_to_alaw-alaw_to_slin_example =
    slin_to_alaw-alaw_to_slin (0 ∷ []) codes (inl refl)
      (omega arith, (omega arith, (omega arith, (omega arith, (omega arith, tt)))))

abbrev fresh : SampleState
fresh = record { s2a = 0 ∷ []; out_sample_buf = [] }

-- The echo that the code has as a test.
abbrev echo : Unit {0} → List ℕ → List ℕ → Unit {0} × List ℕ
echo s out_buf in_buf = (s, in_buf)

sample_input-alaw_example :
    sample_input echo length (octets_of (alaw_to_slin codes)) fresh tt
    ≡ result_of echo length codes (codes, tt)
sample_input-alaw_example =
    sample_input-alaw echo length 0x00 (0xd5 ∷ 0x2a ∷ 0x7f ∷ 0xff ∷ []) fresh tt (inl refl)
      (omega arith, (omega arith, (omega arith, (omega arith, (omega arith, tt)))))
