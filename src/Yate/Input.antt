-- ===== src/Yate/Input.antt =====
-- `yate_sample_input_cb` of src/yate.c on samples of A-law codes.
use ras.Base.{
  ℕ, ◌+◌, ◌*◌, ◌/◌, ◌%◌, ◌≡◌, refl, sym, ap, ap₂, ◌∙◌, List, [], ◌∷◌, ◌++◌, append-nil, none, some,
  ◌==◌, if◌then◌else◌, length, take, drop, Octets, arith,
}
use ras.Yate.Table.{a2s}
use ras.Yate.{
  convert, alaw_slin_init, slin_to_alaw, alaw_to_slin, samples_of, octets_of, SampleState,
  SampleResult, sample_input,
}
use ras.Yate.Lossless.{TableState, slin_to_alaw-alaw_to_slin}

samples_of-octets_of : (xs : List ℕ) → samples_of (octets_of xs) ≡ xs
samples_of-octets_of [] = refl
samples_of-octets_of (x ∷ xs) =
    let whole : x % 256 + x / 256 * 256 ≡ x = omega arith in
    ap₂ (λ y ys. y ∷ ys) whole (samples_of-octets_of xs)

length-octets_of : (xs : List ℕ) → length (octets_of xs) ≡ length xs * 2
length-octets_of [] = refl
length-octets_of (x ∷ xs) = omega (arith, length-octets_of xs)

length-convert : (table xs : List ℕ) → length (convert table xs) ≡ length xs
length-convert table [] = refl
length-convert table (x ∷ xs) = omega (arith, length-convert table xs)

drop_none : (xs : List ℕ) → drop (length xs) xs ≡ []
drop_none [] = refl
drop_none (x ∷ xs) = drop_none xs

-- What a call makes of the octets that are read, in terms of the samples in them.
module _ {S : Type 0} (handle : S → List ℕ → List ℕ → S × List ℕ) (wrote : List ℕ → ℕ) where
  -- The result for codes: `out_buf` is what the handler leaves.
  abbrev pub result_of : List ℕ → List ℕ × S → SampleResult S
  result_of codes (out_buf, s) =
      let out = octets_of (alaw_to_slin (take (length codes) out_buf)) in
      record {
        code = if wrote out == length codes * 2 then some 0 else none;
        written = out;
        samples = record { s2a = alaw_slin_init; out_sample_buf = out_buf };
        handler = s;
      }

  -- The result in terms of what is computed from the octets.
  from_parts : S → SampleState → ℕ → ℕ → List ℕ × List ℕ → List ℕ → SampleResult S
  from_parts s c num_samples len (s2a', in_buf) odd =
      let (s', out_buf) = handle s c.out_sample_buf in_buf in
      let out = octets_of (alaw_to_slin (take num_samples out_buf)) ++ odd in
      record {
        code = if wrote out == len then some 0 else none;
        written = out;
        samples = record { s2a = s2a'; out_sample_buf = out_buf };
        handler = s';
      }

  -- Let the exchange send the samples of a line's octets, at least one. Then the program's handler gets
  -- just those octets, and what goes back to the exchange are the samples of as many octets of the buffer
  -- that the handler leaves; the call fails where `write` takes a different number of octets.
  pub sample_input-alaw :
      (code : ℕ) (codes : List ℕ) (c : SampleState) (s : S)
      → TableState c.s2a
      → Octets (code ∷ codes)
      → sample_input handle wrote (octets_of (alaw_to_slin (code ∷ codes))) c s
        ≡ result_of (code ∷ codes) (
          (handle s c.out_sample_buf (code ∷ codes)).1,
          (handle s c.out_sample_buf (code ∷ codes)).0,
        )
  unfolding sample_input alaw_to_slin from_parts
  sample_input-alaw code codes c s h k =
      let all = code ∷ codes in
      let octets = octets_of (convert a2s all) in
      let len : length octets ≡ length all * 2 =
        length-octets_of (convert a2s all) ∙ ap (λ n. n * 2) (length-convert a2s all) in
      let num : length octets / 2 ≡ length all = omega (arith, len) in
      let read : slin_to_alaw c.s2a (samples_of octets) ≡ (alaw_slin_init, all) =
        ap (slin_to_alaw c.s2a) (samples_of-octets_of (convert a2s all))
        ∙ slin_to_alaw-alaw_to_slin c.s2a all h k in
      let even : drop (length octets / 2 * 2) octets ≡ [] =
        ap (λ n. drop n octets) (ap (λ n. n * 2) num ∙ sym len) ∙ drop_none octets in
      let out = octets_of (convert a2s (take (length all) (handle s c.out_sample_buf all).1)) in
      ap
        (λ n.
          from_parts s c n (length octets) (slin_to_alaw c.s2a (samples_of octets))
            (drop (length octets / 2 * 2) octets))
        num
      ∙ (ap
            (λ n.
              from_parts s c (length all) n (slin_to_alaw c.s2a (samples_of octets))
                (drop (length octets / 2 * 2) octets))
            len
          ∙ (ap
                (λ r.
                  from_parts s c (length all) (length all * 2) r
                    (drop (length octets / 2 * 2) octets))
                read
              ∙ (ap (from_parts s c (length all) (length all * 2) (alaw_slin_init, all)) even
                  ∙ ap
                      (λ t. record {
                        code = if wrote t == length all * 2 then some 0 else none;
                        written = t;
                        samples = record {
                          s2a = alaw_slin_init;
                          out_sample_buf = (handle s c.out_sample_buf all).1;
                        };
                        handler = (handle s c.out_sample_buf all).0;
                      })
                      (append-nil out))))
