-- ===== src/Yate/Levels.antt =====
-- A table filled step by step along rising levels: each of the loops of `yate_codec_alaw_slin_init`
-- in src/yate.c, with the number of steps made instead of `v`.
use ras.Base.{
  ℕ, zero, suc, ◌+◌, ◌≤◌, ◌<◌, ◌≡◌, refl, sym, subst, ap, ◌∙◌, ◌⊎◌, inl, inr, true, false, ◌&&◌,
  List, [], ◌∷◌, ltb, leb, if◌then◌else◌, length, get_or, Bool-cases, arith,
}

-- The last step has the number 127.
abbrev pub advance : (ℕ → ℕ) → ℕ → ℕ → ℕ
advance level i d = if ltb d 127 && leb (level d + 8) i then suc d else d

unfoldable pub filled : (ℕ → ℕ) → (ℕ → ℕ) → ℕ → ℕ → ℕ → List ℕ
filled level entry zero i d = []
filled level entry (suc turns) i d =
    let d' = advance level i d in entry d' ∷ filled level entry turns (i + 1) d'

pub length-filled :
    (level entry : ℕ → ℕ) (turns i d : ℕ) → length (filled level entry turns i d) ≡ turns
unfolding filled
length-filled level entry zero i d = refl
length-filled level entry (suc turns) i d =
    omega (arith, length-filled level entry turns (i + 1) (advance level i d))

-- Levels more than 8 apart.
unfoldable pub Apart : (ℕ → ℕ) → Type 0
Apart level = (d : ℕ) → d < 127 → level d + 8 < level (suc d)

levels_far : (level : ℕ → ℕ) → Apart level → (d k : ℕ) → d < k → k ≤ 127 → level d + 8 < level k
unfolding Apart
levels_far level h d zero l m = absurd (omega arith)
levels_far level h d (suc k) l m = by_test (Bool-cases (ltb d k)) (levels_far level h d k)
  where
    by_test :
        (ltb d k ≡ true) ⊎ (ltb d k ≡ false)
        → (d < k → k ≤ 127 → level d + 8 < level k)
        → level d + 8 < level (suc k)
    by_test (inl e) rec = omega (arith, rec (ground arith) (omega arith), h k (omega arith))
    by_test (inr e) rec =
        let same : d ≡ k = ground arith in
        subst (λ t. level d + 8 < level (suc t)) same (h d (omega arith))

below_level : (level : ℕ → ℕ) (d k : ℕ) → d ≤ k → level d < level k → d < k
below_level level d k le l = by_test (Bool-cases (ltb d k))
  where
    by_test : (ltb d k ≡ true) ⊎ (ltb d k ≡ false) → d < k
    by_test (inl e) = ground arith
    by_test (inr e) = let same : d ≡ k = ground arith in absurd (omega (arith, ap level same))

-- Short of the level `k`, a step leads no further than to it, and the next level is near.
advance_keeps :
    (level : ℕ → ℕ) (i d k : ℕ)
    → Apart level
    → i < level k
    → k ≤ 127
    → d ≤ k
    → i ≤ level d + 8
    → (advance level i d ≤ k) × (i + 1 ≤ level (advance level i d) + 8)
unfolding Apart
advance_keeps level i d k h l top le near = by_test (Bool-cases (ltb d 127 && leb (level d + 8) i))
  where
    Kept : ℕ → Type 0
    Kept t = (t ≤ k) × (i + 1 ≤ level t + 8)

    by_test :
        (ltb d 127 && leb (level d + 8) i ≡ true) ⊎ (ltb d 127 && leb (level d + 8) i ≡ false)
        → Kept (advance level i d)
    by_test (inl e) =
        let inside : d < 127 = ground arith in
        let reached : level d + 8 ≤ i = ground arith in
        subst Kept (sym (ap (λ b. if b then suc d else d) e))
          (below_level level d k le (omega arith), omega (arith, h d inside))
    by_test (inr e) =
        let same : d ≡ k → level d ≡ level k = λ q. ap level q in
        subst Kept (sym (ap (λ b. if b then suc d else d) e)) (le, ground (arith, same))

-- At the level, there is no step left to make.
advance_at :
    (level : ℕ → ℕ) (d k : ℕ)
    → Apart level
    → k ≤ 127
    → d ≤ k
    → level k ≤ level d + 8
    → advance level (level k) d ≡ k
advance_at level d k h top le near = by_test (Bool-cases (ltb d k))
  where
    by_test : (ltb d k ≡ true) ⊎ (ltb d k ≡ false) → advance level (level k) d ≡ k
    by_test (inl e) = absurd (omega (arith, levels_far level h d k (ground arith) top))
    by_test (inr e) =
        let same : k ≡ d = ground arith in
        let stays : ltb k 127 && leb (level k + 8) (level k) ≡ false = ground arith in
        subst (λ t. advance level (level k) t ≡ k) same (ap (λ b. if b then suc k else k) stays)

-- Where a level lies, the table holds the number of that level: at the turn `i` with the level `k`
-- still ahead, no step has been missed.
pub filled_at_level :
    (level entry : ℕ → ℕ)
    → Apart level
    → (j turns i d k : ℕ) → j < turns
    → i + j ≡ level k
    → k ≤ 127
    → d ≤ k
    → i ≤ level d + 8
    → get_or (filled level entry turns i d) j 0 ≡ entry k
unfolding filled
filled_at_level level entry apart j zero i d k lt at top le near = absurd (omega arith)
filled_at_level level entry apart zero (suc turns) i d k lt at top le near =
    let here : i ≡ level k = omega arith in
    ap entry (ap (λ t. advance level t d) here ∙ advance_at level d k apart top le (omega arith))
filled_at_level level entry apart (suc j) (suc turns) i d k lt at top le near =
    let (below, next) = advance_keeps level i d k apart (omega arith) top le near in
    filled_at_level level entry apart j turns (i + 1) (advance level i d) k (omega arith)
      (omega arith) top below next
