-- ===== src/Yate/Codes.antt =====
-- The array of `yate_codec_alaw_slin_init` in src/yate.c at the levels of the two sides.
use ras.Base.{
  ℕ, zero, suc, ◌+◌, ◌-◌, ◌≤◌, ◌<◌, bit_xor, ◌≡◌, refl, ap, ap₂, ◌∙◌, Bool, true, false, ◌&&◌, List,
  [], ◌∷◌, ◌++◌, ltb, leb, if◌then◌else◌, length, get_or, arith,
}
use ras.Base.Table.{checked, checked_at}
use ras.Yate.Table.{a2s}
use ras.Yate.{rise, fall, positive_side, negative_side, alaw_slin_init}
use ras.Yate.Levels.{advance, filled, length-filled, Apart, filled_at_level}

-- The levels of the two loops, from the lowest, and the codes.
abbrev rising_code : ℕ → ℕ
rising_code d = bit_xor d 0xd5

abbrev pub rising_level : ℕ → ℕ
rising_level d = get_or a2s (rising_code d) 0

abbrev falling_code : ℕ → ℕ
falling_code d = bit_xor (255 - d) 0xd5

abbrev pub falling_level : ℕ → ℕ
falling_level d = get_or a2s (falling_code d) 0

levels_apart :
    checked 127 (λ d.
      ltb (rising_level d + 8) (rising_level (suc d))
      && ltb (falling_level d + 8) (falling_level (suc d)))
    ≡ true
unfolding checked
levels_apart = refl

rising-Apart : Apart rising_level
unfolding Apart
rising-Apart d h =
    by_test (rising_level d) (rising_level (suc d)) (falling_level d) (falling_level (suc d))
      (checked_at 127 _ d levels_apart h)
  where
    by_test : (a b a' b' : ℕ) → ltb (a + 8) b && ltb (a' + 8) b' ≡ true → a + 8 < b
    by_test a b a' b' e = ground arith

falling-Apart : Apart falling_level
unfolding Apart
falling-Apart d h =
    by_test (rising_level d) (rising_level (suc d)) (falling_level d) (falling_level (suc d))
      (checked_at 127 _ d levels_apart h)
  where
    by_test : (a b a' b' : ℕ) → ltb (a + 8) b && ltb (a' + 8) b' ≡ true → a' + 8 < b'
    by_test a b a' b' e = ground arith

rise-advance :
    (i d : ℕ)
    → ◌≡◌ {A = ℕ × ℕ}
        (rise i d (rising_code d))
        (advance rising_level i d, rising_code (advance rising_level i d))
unfolding rise
rise-advance i d = by_test (ltb d 127 && leb (rising_level d + 8) i)
  where
    by_test :
        (b : Bool)
        → ◌≡◌ {A = ℕ × ℕ}
            (if b then (d + 1, bit_xor (d + 1) 0xd5) else (d, rising_code d))
            ((if b then suc d else d), rising_code (if b then suc d else d))
    by_test true = let next : d + 1 ≡ suc d = omega arith in ap (λ t. (t, bit_xor t 0xd5)) next
    by_test false = refl

positive-filled :
    (turns i d : ℕ)
    → positive_side turns i d (rising_code d) ≡ filled rising_level rising_code turns i d
unfolding positive_side filled
positive-filled zero i d = refl
positive-filled (suc turns) i d =
    ap (λ r. r.1 ∷ positive_side turns (i + 1) r.0 r.1) (rise-advance i d)
    ∙ ap (λ t. rising_code (advance rising_level i d) ∷ t)
        (positive-filled turns (i + 1) (advance rising_level i d))

fall-advance :
    (i d : ℕ)
    → ◌≡◌ {A = ℕ × ℕ}
        (fall i (255 - d) (falling_code d))
        (255 - advance falling_level i d, falling_code (advance falling_level i d))
unfolding fall
fall-advance i d =
    let same : ltb 0x80 (255 - d) ≡ ltb d 127 = ground arith in
    ap
      (λ a.
        if a && leb (falling_level d + 8) i
        then (255 - d - 1, bit_xor (255 - d - 1) 0xd5)
        else (255 - d, falling_code d))
      same
    ∙ by_test (ltb d 127 && leb (falling_level d + 8) i)
  where
    by_test :
        (b : Bool)
        → ◌≡◌ {A = ℕ × ℕ}
            (if b then (255 - d - 1, bit_xor (255 - d - 1) 0xd5) else (255 - d, falling_code d))
            (255 - (if b then suc d else d), falling_code (if b then suc d else d))
    by_test true =
        let next : 255 - d - 1 ≡ 255 - suc d = omega arith in ap (λ t. (t, bit_xor t 0xd5)) next
    by_test false = refl

negative-filled :
    (turns i d : ℕ)
    → negative_side turns i (255 - d) (falling_code d) ≡ filled falling_level falling_code turns i d
unfolding negative_side filled
negative-filled zero i d = refl
negative-filled (suc turns) i d =
    ap (λ r. r.1 ∷ negative_side turns (i + 1) r.0 r.1) (fall-advance i d)
    ∙ ap (λ t. falling_code (advance falling_level i d) ∷ t)
        (negative-filled turns (i + 1) (advance falling_level i d))

pub table_filled :
    alaw_slin_init
    ≡ filled rising_level rising_code 32768 0 0 ++ filled falling_level falling_code 32768 32768 0
unfolding alaw_slin_init
table_filled = ap₂ (λ xs ys. xs ++ ys) (positive-filled 32768 0 0) (negative-filled 32768 32768 0)

get_or-before : (xs ys : List ℕ) (i : ℕ) → i < length xs → get_or (xs ++ ys) i 0 ≡ get_or xs i 0
get_or-before [] ys i h = absurd (omega arith)
get_or-before (x ∷ xs) ys zero h = refl
get_or-before (x ∷ xs) ys (suc i) h = get_or-before xs ys i (omega arith)

get_or-behind :
    (xs ys : List ℕ) (i : ℕ) → length xs ≤ i → get_or (xs ++ ys) i 0 ≡ get_or ys (i - length xs) 0
get_or-behind [] ys i h = let same : i ≡ i - 0 = omega arith in ap (λ t. get_or ys t 0) same
get_or-behind (x ∷ xs) ys zero h = absurd (omega arith)
get_or-behind (x ∷ xs) ys (suc i) h =
    let same : i - length xs ≡ suc i - suc (length xs) = omega arith in
    get_or-behind xs ys i (omega arith) ∙ ap (λ t. get_or ys t 0) same

pub at_rising :
    (d : ℕ)
    → d ≤ 127
    → rising_level d < 32768
    → get_or alaw_slin_init (rising_level d) 0 ≡ rising_code d
at_rising d top h =
    let first = filled rising_level rising_code 32768 0 0 in
    let second = filled falling_level falling_code 32768 32768 0 in
    ap (λ t. get_or t (rising_level d) 0) table_filled
    ∙ (get_or-before first second (rising_level d)
          (omega (arith, length-filled rising_level rising_code 32768 0 0))
        ∙ filled_at_level rising_level rising_code rising-Apart (rising_level d) 32768 0 0 d h
            (omega arith) top (omega arith) (omega arith))

pub at_falling :
    (d : ℕ)
    → d ≤ 127
    → 32768 ≤ falling_level d
    → falling_level d < 65536
    → get_or alaw_slin_init (falling_level d) 0 ≡ falling_code d
at_falling d top h k =
    let first = filled rising_level rising_code 32768 0 0 in
    let second = filled falling_level falling_code 32768 32768 0 in
    let all = length-filled rising_level rising_code 32768 0 0 in
    let ahead : falling_level d - length first ≡ falling_level d - 32768 = omega (arith, all) in
    ap (λ t. get_or t (falling_level d) 0) table_filled
    ∙ (get_or-behind first second (falling_level d) (omega (arith, all))
        ∙ (ap (λ t. get_or second t 0) ahead
            ∙ filled_at_level falling_level falling_code falling-Apart (falling_level d - 32768)
                32768 32768 0 d (omega arith) (omega arith) top (omega arith) (omega arith)))
