-- ===== src/FaxTest/Search.antt =====
-- The search for the sync word (src/fax_test.c).
use ras.Base.{
  ℕ, zero, suc, ◌+◌, ◌≤◌, ◌<◌, ◌≡◌, refl, sym, ap, ◌∙◌, true, List, [], ◌∷◌, ◌++◌, append-nil,
  append_assoc, ◌==◌, length, get_or, take, ◌⊎◌, inl, inr, Bool-cases, arith,
}
use ras.FaxTest.{next_syncpos}

-- `syncpos` after bits that complete no sync word.
unfoldable pub search : List ℕ → List ℕ → ℕ → ℕ
search word [] syncpos = syncpos
search word (b ∷ bits) syncpos = search word bits (next_syncpos word b syncpos)

-- What came before ends with the first `syncpos` bits of the word.
abbrev pub EndsWith : List ℕ → List ℕ → Type 0
EndsWith before end = (rest : List ℕ) × (before ≡ rest ++ end)

take_next :
    (n : ℕ) (xs : List ℕ) → n < length xs → take (n + 1) xs ≡ take n xs ++ (get_or xs n 0 ∷ [])
take_next n [] h = absurd (omega arith)
take_next zero (x ∷ xs) h = refl
take_next (suc n) (x ∷ xs) h =
    let e : suc n + 1 ≡ suc (n + 1) = omega arith in
    rw e (ap (λ l. x ∷ l) (take_next n xs (omega arith)))

eq_of_test : (a b : ℕ) → (a == b) ≡ true → a ≡ b
eq_of_test a b h = ground arith

next_syncpos_cases :
    (word : List ℕ) (b syncpos : ℕ)
    → ((get_or word syncpos 0 ≡ b) × (next_syncpos word b syncpos ≡ syncpos + 1))
      ⊎ (((get_or word 0 0 ≡ b) × (next_syncpos word b syncpos ≡ 1))
          ⊎ (next_syncpos word b syncpos ≡ 0))
unfolding next_syncpos
next_syncpos_cases word b syncpos = elim (Bool-cases (get_or word syncpos 0 == b)) [
  | inl same ↦ inl (eq_of_test (get_or word syncpos 0) b same, rw (same, same))
  | inr differs ↦ elim (Bool-cases (get_or word 0 0 == b)) [
    | inl first ↦ inr (inl (eq_of_test (get_or word 0 0) b first, rw (differs, first)))
    | inr neither ↦ inr (inr (rw (differs, neither)))
  ]
]

pub step-EndsWith :
    (word before : List ℕ) (b syncpos : ℕ)
    → syncpos < length word
    → EndsWith before (take syncpos word)
    → EndsWith (before ++ (b ∷ [])) (take (next_syncpos word b syncpos) word)
step-EndsWith word before b syncpos h (rest, e) = elim (next_syncpos_cases word b syncpos) [
  | inl (same, next) ↦ (
    rest,
    ap (λ l. l ++ (b ∷ [])) e
        ∙ (append_assoc rest (take syncpos word) (b ∷ [])
            ∙ ap (λ l. rest ++ l)
                (ap (λ x. take syncpos word ++ (x ∷ [])) (sym same)
                  ∙ (sym (take_next syncpos word h) ∙ ap (λ n. take n word) (sym next)))),
  )
  | inr (inl (first, next)) ↦ (
    before,
    ap (λ l. before ++ l)
        (ap (λ x. x ∷ []) (sym first)
          ∙ (sym (take_next 0 word (omega arith)) ∙ ap (λ n. take n word) (sym next))),
  )
  | inr (inr none) ↦ (
    before ++ (b ∷ []),
    sym (append-nil (before ++ (b ∷ [])))
        ∙ ap (λ n. (before ++ (b ∷ [])) ++ take n word) (sym none),
  )
]

pub next_syncpos-le : (word : List ℕ) (b syncpos : ℕ) → next_syncpos word b syncpos ≤ syncpos + 1
unfolding next_syncpos
next_syncpos-le word b syncpos = ground arith
