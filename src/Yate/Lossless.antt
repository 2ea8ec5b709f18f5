-- ===== src/Yate/Lossless.antt =====
-- The two conversions of src/yate.c undo each other on A-law codes.
use ras.Base.{
  ℕ, ◌-◌, ◌≤◌, ◌<◌, bit_xor, ◌≡◌, refl, sym, ap, ap₂, ◌∙◌, ◌⊎◌, inl, inr, Bool, true, false, ◌&&◌,
  List, [], ◌∷◌, ◌==◌, ltb, leb, if◌then◌else◌, get_or, Octets, Bool-cases, arith,
}
use ras.Base.Table.{checked, checked_at}
use ras.Yate.Table.{a2s}
use ras.Yate.{alaw_slin_init, convert, slin_to_alaw, alaw_to_slin}
use ras.Yate.Levels.{filled}
use ras.Yate.Codes.{rising_level, falling_level, table_filled, at_rising, at_falling}

-- Each code is that of a level of one of the loops.
code_found :
    checked 256 (λ c.
      bit_xor (bit_xor c 0xd5) 0xd5 == c
      && ltb (bit_xor c 0xd5) 256
      && (if ltb (bit_xor c 0xd5) 128
          then ltb (get_or a2s c 0) 32768
          else leb 32768 (get_or a2s c 0) && ltb (get_or a2s c 0) 65536))
    ≡ true
unfolding checked
code_found = refl

-- What the check says of a code `c` with its number `v`, the number turned back, and the level.
abbrev in_order : ℕ → ℕ → ℕ → ℕ → Bool
in_order c v back level =
    back == c
    && ltb v 256
    && (if ltb v 128 then ltb level 32768 else leb 32768 level && ltb level 65536)

in_order_back : (c v back level : ℕ) → in_order c v back level ≡ true → (back ≡ c) × (v < 256)
in_order_back c v back level h = (ground arith, ground arith)

in_order_level :
    (c v back level : ℕ)
    → in_order c v back level ≡ true
    → ((v < 128) × (level < 32768)) ⊎ ((128 ≤ v) × (32768 ≤ level) × (level < 65536))
in_order_level c v back level h = by_test (Bool-cases (ltb v 128))
  where
    by_test :
        (ltb v 128 ≡ true) ⊎ (ltb v 128 ≡ false)
        → ((v < 128) × (level < 32768)) ⊎ ((128 ≤ v) × (32768 ≤ level) × (level < 65536))
    by_test (inl e) = inl (ground arith, ground arith)
    by_test (inr e) = inr (ground arith, ground arith, ground arith)

code_back : (c : ℕ) → c < 256 → get_or alaw_slin_init (get_or a2s c 0) 0 ≡ c
code_back c h =
    by_side (in_order_back c v _ level found).0 (in_order_back c v _ level found).1
      (in_order_level c v _ level found)
  where
    v : ℕ
    v = bit_xor c 0xd5

    level : ℕ
    level = get_or a2s c 0

    found : in_order c v (bit_xor v 0xd5) level ≡ true
    found = checked_at 256 _ c code_found h

    by_side :
        bit_xor v 0xd5 ≡ c
        → v < 256
        → ((v < 128) × (level < 32768)) ⊎ ((128 ≤ v) × (32768 ≤ level) × (level < 65536))
        → get_or alaw_slin_init level 0 ≡ c
    by_side code inside (inl (low, small)) =
        let at : rising_level v ≡ level = ap (λ t. get_or a2s t 0) code in
        ap (λ t. get_or alaw_slin_init t 0) (sym at)
        ∙ (at_rising v (omega arith) (omega (arith, at)) ∙ code)
    by_side code inside (inr (high, large, top)) =
        let same : 255 - (255 - v) ≡ v = omega arith in
        let at : falling_level (255 - v) ≡ level =
          ap (λ t. get_or a2s (bit_xor t 0xd5) 0) same ∙ ap (λ t. get_or a2s t 0) code in
        ap (λ t. get_or alaw_slin_init t 0) (sym at)
        ∙ (at_falling (255 - v) (omega arith) (omega (arith, at)) (omega (arith, at))
            ∙ (ap (λ t. bit_xor t 0xd5) same ∙ code))

pub convert-convert :
    (codes : List ℕ) → Octets codes → convert alaw_slin_init (convert a2s codes) ≡ codes
convert-convert [] h = refl
convert-convert (c ∷ codes) h = ap₂ (λ x xs. x ∷ xs) (code_back c h.0) (convert-convert codes h.1)

-- The array before the first call, or after it.
abbrev pub TableState : List ℕ → Type 0
TableState s2a = (get_or s2a 0 0 ≡ 0) ⊎ (s2a ≡ alaw_slin_init)

-- The array is filled by the first call, and each later call leaves it as it is.
pub first_entry : get_or alaw_slin_init 0 0 ≡ 0xd5
unfolding filled
first_entry = ap (λ t. get_or t 0 0) table_filled

pub filled_table :
    (s2a : List ℕ)
    → TableState s2a
    → (if get_or s2a 0 0 == 0 then alaw_slin_init else s2a) ≡ alaw_slin_init
filled_table s2a (inl e) = ap (λ n. if n == 0 then alaw_slin_init else s2a) e
filled_table s2a (inr e) =
    ap (λ t. if get_or t 0 0 == 0 then alaw_slin_init else t) e
    ∙ ap (λ n. if n == 0 then alaw_slin_init else alaw_slin_init) first_entry

-- On the first call of `yate_codec_slin_to_alaw` or a later one, the samples that
-- `yate_codec_alaw_to_slin` makes of octets are turned back into the same octets: the two conversions
-- lose nothing.
pub slin_to_alaw-alaw_to_slin :
    (s2a codes : List ℕ)
    → TableState s2a
    → Octets codes
    → slin_to_alaw s2a (alaw_to_slin codes) ≡ (alaw_slin_init, codes)
unfolding slin_to_alaw alaw_to_slin
slin_to_alaw-alaw_to_slin s2a codes h k =
    ap (λ t. (t, convert t (convert a2s codes))) (filled_table s2a h)
    ∙ ap (λ t. (alaw_slin_init, t)) (convert-convert codes k)
