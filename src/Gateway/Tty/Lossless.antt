-- ===== src/Gateway/Tty/Lossless.antt =====
-- The way of the sound through the text telephone (src/yate_tty.c, src/yate.c).
use ras.Base.{
  zeros, ℕ, zero, suc, ◌+◌, ◌*◌, ◌≡◌, ◌<◌, refl, sym, ap, ap₂, ◌∙◌, List, [], ◌∷◌, ◌++◌,
  append_assoc, length, ltb, length-append, take, drop, take_all, take-append, drop-append, get_or,
  Octets, arith,
}
use ras.Yate.{alaw_to_slin, slin_to_alaw, alaw_slin_init, convert}
use ras.Yate.Table.{a2s}
use ras.Yate.Lossless.{TableState, convert-convert, first_entry, filled_table}
use ras.Base.Table.{checked, checked_at}
use ras.Yate.Float.{Float, Exact, Words, slin_to_f32, f32_to_slin, clipped-quotient}
use ras.Gateway.Tty.{Tty, over, float_octets, floats, samples_for_modem, handle_sample_buffer}

drop-zeros : (k m : ℕ) → drop k (zeros (k + m)) ≡ zeros m
drop-zeros zero m = let e : 0 + m ≡ m = omega arith in rw e
drop-zeros (suc k) m = let e : suc k + m ≡ suc (k + m) = omega arith in rw e (drop-zeros k m)

-- The samples of 16 bits of the codes.
a2s_small : (c : ℕ) → c < 256 → get_or a2s c 0 < 65536
unfolding checked
a2s_small c h = ground (arith, checked_at 256 (λ c. ltb (get_or a2s c 0) 65536) c refl h)

Words-alaw_to_slin : (codes : List ℕ) → Octets codes → Words (alaw_to_slin codes)
unfolding alaw_to_slin
Words-alaw_to_slin [] h = tt
Words-alaw_to_slin (c ∷ codes) h = (a2s_small c h.0, Words-alaw_to_slin codes h.1)

length-alaw_to_slin : (codes : List ℕ) → length (alaw_to_slin codes) ≡ length codes
unfolding alaw_to_slin
length-alaw_to_slin [] = refl
length-alaw_to_slin (c ∷ codes) = ap suc (length-alaw_to_slin codes)

convert-append : (t xs ys : List ℕ) → convert t (xs ++ ys) ≡ convert t xs ++ convert t ys
convert-append t [] ys = refl
convert-append t (x ∷ xs) ys = ap (λ l. get_or t x 0 ∷ l) (convert-append t xs ys)

-- The code of the sample 0, so often.
abbrev pub silence : ℕ → List ℕ
silence zero = []
silence (suc n) = 0xd5 ∷ silence n

convert-zeros : (n : ℕ) → convert alaw_slin_init (zeros n) ≡ silence n
convert-zeros zero = refl
convert-zeros (suc n) = ap₂ (λ x xs. x ∷ xs) first_entry (convert-zeros n)

module _ (fl : Float) (exact : Exact fl) where
  still : ℕ → List fl.F
  still zero = []
  still (suc n) = fl.quotient 0 ∷ still n

  floats-zeros : (n : ℕ) → floats fl n (zeros (n * 4)) ≡ still n
  unfolding floats still
  floats-zeros zero = refl
  floats-zeros (suc n) =
      let e : suc n * 4 ≡ suc (suc (suc (suc (n * 4)))) = omega arith in
      rw e (ap₂ (λ x xs. x ∷ xs) exact.zeros (floats-zeros n))

  floats-float_octets :
      (fs : List fl.F) (n : ℕ) (rest : List ℕ)
      → floats fl (length fs + n) (float_octets fl fs ++ rest) ≡ fs ++ floats fl n rest
  unfolding floats float_octets
  floats-float_octets [] n rest = let e : 0 + n ≡ n = omega arith in rw e
  floats-float_octets (f ∷ fs) n rest =
      let e : suc (length fs) + n ≡ suc (length fs + n) = omega arith in
      let behind = float_octets fl fs ++ rest in
      rw e (
        ap (floats fl (suc (length fs + n))) (append_assoc (fl.octets f) (float_octets fl fs) rest)
        ∙ ap₂ (λ x xs. x ∷ xs)
            (ap fl.number (
                ap (λ k. take k (fl.octets f ++ behind)) (sym (exact.size f))
                ∙ take-append (fl.octets f) behind)
              ∙ exact.kept f)
            (ap (floats fl (length fs + n)) (
                ap (λ k. drop k (fl.octets f ++ behind)) (sym (exact.size f))
                ∙ drop-append (fl.octets f) behind)
              ∙ floats-float_octets fs n rest))

  length-float_octets : (fs : List fl.F) → length (float_octets fl fs) ≡ length fs * 4
  unfolding float_octets
  length-float_octets [] = omega arith
  length-float_octets (f ∷ fs) = omega (
    arith,
    length-append (fl.octets f) (float_octets fl fs),
    exact.size f,
    length-float_octets fs,
  )

  length-slin_to_f32 : (xs : List ℕ) → length (slin_to_f32 fl xs) ≡ length xs
  unfolding slin_to_f32
  length-slin_to_f32 [] = refl
  length-slin_to_f32 (x ∷ xs) = ap suc (length-slin_to_f32 xs)

  f32_to_slin-still :
      (xs : List ℕ) (n : ℕ)
      → Words xs
      → f32_to_slin fl (slin_to_f32 fl xs ++ still n) ≡ xs ++ zeros n
  unfolding f32_to_slin slin_to_f32 still
  f32_to_slin-still (x ∷ xs) n h =
      ap₂ (λ y ys. y ∷ ys) (clipped-quotient fl exact x h.0) (f32_to_slin-still xs n h.1)
  f32_to_slin-still [] zero h = refl
  f32_to_slin-still [] (suc n) h =
      ap₂ (λ y ys. y ∷ ys) (clipped-quotient fl exact 0 (omega arith)) (f32_to_slin-still [] n h)

  length-samples_for_modem : (xs : List ℕ) → length (samples_for_modem fl xs) ≡ length xs * 4
  length-samples_for_modem xs =
      length-float_octets (slin_to_f32 fl (alaw_to_slin xs))
      ∙ ap (λ n. n * 4) (length-slin_to_f32 (alaw_to_slin xs) ∙ length-alaw_to_slin xs)

  -- What is in the buffer behind the `read`.
  heard-eq :
      (xs ys : List ℕ)
      → let heard = samples_for_modem fl xs in
        over (take (length (xs ++ ys) * 4) heard) (zeros (length (xs ++ ys) * 4))
        ≡ heard ++ zeros (length ys * 4)
  heard-eq xs ys =
      let heard = samples_for_modem fl xs in
      let size = length-samples_for_modem xs in
      let n = length-append xs ys in
      let total : length (xs ++ ys) * 4 ≡ length heard + length ys * 4 = omega (arith, n, size) in
      ap (λ l. over l (zeros (length (xs ++ ys) * 4)))
        (take_all (length (xs ++ ys) * 4) heard (omega (arith, n, size)))
      ∙ ap (λ l. heard ++ l)
          (ap (λ k. drop (length heard) (zeros k)) total
            ∙ drop-zeros (length heard) (length ys * 4))

  back :
      (xs ys : List ℕ)
      → Octets xs
      → f32_to_slin fl
          (floats fl (length (xs ++ ys)) (samples_for_modem fl xs ++ zeros (length ys * 4)))
        ≡ alaw_to_slin xs ++ zeros (length ys)
  back xs ys h =
      let fs = slin_to_f32 fl (alaw_to_slin xs) in
      let count : length (xs ++ ys) ≡ length fs + length ys = omega (
        arith,
        length-append xs ys,
        length-slin_to_f32 (alaw_to_slin xs),
        length-alaw_to_slin xs,
      ) in
      ap (λ k. f32_to_slin fl (floats fl k (float_octets fl fs ++ zeros (length ys * 4)))) count
      ∙ (ap (f32_to_slin fl) (
            floats-float_octets fs (length ys) (zeros (length ys * 4))
            ∙ ap (λ l. fs ++ l) (floats-zeros (length ys)))
          ∙ f32_to_slin-still (alaw_to_slin xs) (length ys) (Words-alaw_to_slin xs h))

  -- Let the floating-point operations be exact and the table of src/yate.c be empty or filled. If the
  -- sending minimodem has just what the receiving one is given for the first of the octets that come from the
  -- line, then those octets go back to the line, unchanged, and behind them the code of silence, as
  -- many in all as have come; and the receiving minimodem is given all that have come.
  pub handle_sample_buffer-lossless :
      (xs ys : List ℕ) (t : Tty)
      → TableState t.s2a
      → Octets xs
      → handle_sample_buffer fl (samples_for_modem fl xs) (xs ++ ys) t ≡ (
        record t {
          s2a = alaw_slin_init;
          modem_samples = t.modem_samples ++ samples_for_modem fl (xs ++ ys);
        },
        xs ++ silence (length ys),
      )
  unfolding handle_sample_buffer slin_to_alaw alaw_to_slin
  handle_sample_buffer-lossless xs ys t h k =
      let given = record t { modem_samples = t.modem_samples ++ samples_for_modem fl (xs ++ ys) } in
      let sound : f32_to_slin fl (
            floats fl (length (xs ++ ys)) (
              over (take (length (xs ++ ys) * 4) (samples_for_modem fl xs))
                (zeros (length (xs ++ ys) * 4))))
          ≡ alaw_to_slin xs ++ zeros (length ys) =
        ap (λ l. f32_to_slin fl (floats fl (length (xs ++ ys)) l)) (heard-eq xs ys)
        ∙ back xs ys k in
      ap₂ (λ table samples. (record given { s2a = table }, convert table samples))
        (filled_table t.s2a h) sound
      ∙ ap (λ l. (record given { s2a = alaw_slin_init }, l)) (codes xs (length ys) k)
    where
      codes :
          (xs : List ℕ) (n : ℕ)
          → Octets xs
          → convert alaw_slin_init (alaw_to_slin xs ++ zeros n) ≡ xs ++ silence n
      codes xs n k =
          convert-append alaw_slin_init (alaw_to_slin xs) (zeros n)
          ∙ ap₂ (λ a b. a ++ b) (convert-convert xs k) (convert-zeros n)
