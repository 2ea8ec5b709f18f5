-- ===== src/Yate.antt =====
-- The samples that the telephone exchange sends and takes: src/yate.c, less the registration of the
-- file descriptors and the conversions to and from floating point.
pub mod Codes
pub mod Examples
pub mod Table
pub mod Levels
pub mod Lossless
pub mod Input
pub mod Float
use ras.Base.{
  ℕ, zero, suc, ◌+◌, ◌-◌, ◌*◌, ◌/◌, ◌%◌, bit_xor, Bool, true, false, ◌&&◌, List, [], ◌∷◌, ◌++◌,
  Option, none, some, ◌==◌, ltb, leb, if◌then◌else◌, length, get_or, take, drop,
}
use ras.Yate.Table.{a2s}

-- A turn of the first loop of `yate_codec_alaw_slin_init`: `v` and `val` of `s2a[i] = val`. The
-- comparison is of `int`, so the 8 taken from `i` is added to the other side.
unfoldable pub rise : ℕ → ℕ → ℕ → ℕ × ℕ
rise i v val =
    if ltb v 0x7f && leb (get_or a2s val 0 + 8) i then (v + 1, bit_xor (v + 1) 0xd5) else (v, val)

-- The entries from `i` on, for so many turns.
unfoldable pub positive_side : ℕ → ℕ → ℕ → ℕ → List ℕ
positive_side zero i v val = []
positive_side (suc turns) i v val =
    let (v', val') = rise i v val in val' ∷ positive_side turns (i + 1) v' val'

-- The second loop.
unfoldable pub fall : ℕ → ℕ → ℕ → ℕ × ℕ
fall i v val =
    if ltb 0x80 v && leb (get_or a2s val 0 + 8) i then (v - 1, bit_xor (v - 1) 0xd5) else (v, val)

unfoldable pub negative_side : ℕ → ℕ → ℕ → ℕ → List ℕ
negative_side zero i v val = []
negative_side (suc turns) i v val =
    let (v', val') = fall i v val in val' ∷ negative_side turns (i + 1) v' val'

-- The array `s2a` behind `yate_codec_alaw_slin_init`.
unfoldable pub alaw_slin_init : List ℕ
alaw_slin_init = positive_side 32768 0 0 0xd5 ++ negative_side 32768 32768 0xff 0x2a

abbrev pub convert : List ℕ → List ℕ → List ℕ
convert table [] = []
convert table (x ∷ xs) = get_or table x 0 ∷ convert table xs

-- `yate_codec_slin_to_alaw`: the array `s2a`, filled on the first call, and the codes.
unfoldable pub slin_to_alaw : List ℕ → List ℕ → List ℕ × List ℕ
slin_to_alaw s2a samples =
    let s2a' = if get_or s2a 0 0 == 0 then alaw_slin_init else s2a in (s2a', convert s2a' samples)

-- `yate_codec_alaw_to_slin`
unfoldable pub alaw_to_slin : List ℕ → List ℕ
alaw_to_slin codes = convert a2s codes

-- 16-bit samples in memory, the low octet first, and an odd octet behind them.
abbrev pub samples_of : List ℕ → List ℕ
samples_of [] = []
samples_of (low ∷ []) = []
samples_of (low ∷ (high ∷ octets)) = (low + high * 256) ∷ samples_of octets

abbrev pub octets_of : List ℕ → List ℕ
octets_of [] = []
octets_of (x ∷ xs) = (x % 256) ∷ ((x / 256) ∷ octets_of xs)

-- What `yate_sample_input_cb` keeps between its calls.
pub record SampleState : Type 0 where
  pub s2a : List ℕ
  pub out_sample_buf : List ℕ

-- What a call returns, and the octets given to `write`, if any.
pub record SampleResult (S : Type 0) : Type 0 where
  pub code : Option ℕ
  pub written : List ℕ
  pub samples : SampleState
  pub handler : S

-- `yate_sample_input_cb` on the octets that `read` gave, none where it failed. `handle` is the
-- program's `handle_sample_buffer`: its state, `out_buf` as it is, and the samples. `wrote` is what
-- `write` returns for the octets. The result is `none` for -1. Where the number of octets is odd, the
-- last stays in the buffer, and goes back as it came.
unfoldable pub sample_input :
    {S : Type 0}
    → (S → List ℕ → List ℕ → S × List ℕ)
    → (List ℕ → ℕ)
    → List ℕ
    → SampleState
    → S
    → SampleResult S
sample_input handle wrote [] c s = record { code = none; written = []; samples = c; handler = s }
sample_input handle wrote (o ∷ os) c s =
    let octets = o ∷ os in
    let num_samples = length octets / 2 in
    let (s2a', in_buf) = slin_to_alaw c.s2a (samples_of octets) in
    let (s', out_buf) = handle s c.out_sample_buf in_buf in
    let out =
      octets_of (alaw_to_slin (take num_samples out_buf)) ++ drop (num_samples * 2) octets in
    record {
      code = if wrote out == length octets then some 0 else none;
      written = out;
      samples = record { s2a = s2a'; out_sample_buf = out_buf };
      handler = s';
    }
