-- ===== src/X75/Read.antt =====
-- What `x75_decode` makes of any octets (src/x75/x75_subr.c).
use ras.Base.{
  Octets, ℕ, ◌%◌, ◌<◌, ◌≡◌, ◌≢◌, subst, Bool, true, false, Option, some, [], ◌∷◌, if◌then◌else◌,
  ltb, get_or, drop, arith, Bool-cases, inl, inr,
}
use ras.Osmo.{Osmo, Documented, Msgb}
use ras.X75.Types.{Mode, illegal, frame_type, Frame, modulus_of}
use ras.X75.Frame.{without_spf, decode_standard, decode_extended, decode}
use ras.X75.Codec.{addressed, mode_of}
use ras.X75.Carry.{carries_nr}

-- An unnumbered code is none of the types that carry an N(R).
unnumbered_no_nr : (x : ℕ) → x % 4 ≡ 3 → carries_nr (frame_type x) ≡ false
unfolding frame_type
unnumbered_no_nr x h = ground arith

octet-ne-illegal : (x : ℕ) → x < 256 → frame_type x ≢ illegal
unfolding frame_type
octet-ne-illegal x h = ground arith

abbrev Good : Bool → Frame → Type 0
Good e f = (carries_nr f.type ≡ true → f.nr < modulus_of e) × (f.type ≢ illegal)

without_spf-mod : (x : ℕ) → x % 4 ≡ 3 → without_spf x % 4 ≡ 3
without_spf-mod x h = omega arith

standard-Good : (d0 : ℕ) (f : Frame) → d0 < 256 → Good false (decode_standard d0 f)
unfolding decode_standard
standard-Good d0 f h = (
  ground (arith, unnumbered_no_nr (without_spf d0), without_spf-mod d0),
  ground (arith, octet-ne-illegal (d0 % 16), octet-ne-illegal (without_spf d0)),
)

extended-Good :
    ⦃o : Osmo⦄ (skb : Msgb) (f : Frame) {g : Frame} {rest : Msgb}
    → get_or skb 0 0 < 256
    → decode_extended skb f ≡ some (g, rest)
    → Good true g
unfolding decode_extended
extended-Good skb f h e =
    let d0 = get_or skb 0 0 in
    (
      ground (arith, unnumbered_no_nr (without_spf d0), without_spf-mod d0),
      ground (arith, octet-ne-illegal (d0 % 16), octet-ne-illegal (without_spf d0)),
    )

pub frame_of_some :
    {f g : Frame} {b c : Msgb} → ◌≡◌ {A = Option (Frame × Msgb)} (some (f, b)) (some (g, c)) → f ≡ g
frame_of_some e = cc

-- Every element of a buffer is an octet.
second-Octets : (b : Msgb) → Octets b → get_or (drop 1 b) 0 0 < 256
second-Octets [] h = omega arith
second-Octets (x ∷ []) h = omega arith
second-Octets (x ∷ y ∷ b) h = h.1.0

module _ ⦃o : Osmo⦄ (doc : Documented o) where
  Good-of_mode :
      (e p d : Bool) (skb : Msgb) (g : Frame) {f : Frame} {rest : Msgb}
      → Octets skb
      → decode (mode_of e p d) skb g ≡ some (f, rest)
      → Good e f
  unfolding decode
  Good-of_mode e p d skb g h q = elim (Bool-cases (ltb (o.msgb_headlen skb) 2)) [
    | inl short ↦ absurd (ground arith)
    | inr long ↦ by_format e (o.msgb_pull skb 1) (rw doc.pull (second-Octets skb h)) (rw long at q)
  ]
    where
      by_format :
          (e : Bool) (r : Msgb)
          → get_or r 0 0 < 256
          → {f : Frame} {rest : Msgb}
          → (if e
              then decode_extended r (addressed (mode_of e p d) (get_or skb 0 0) g)
              else some (
                decode_standard (get_or r 0 0) (addressed (mode_of e p d) (get_or skb 0 0) g),
                o.msgb_pull r 1,
              ))
            ≡ some (f, rest)
          → Good e f
      by_format true r l u = extended-Good r _ l u
      by_format false r l u =
          subst (Good false) (frame_of_some u) (standard-Good (get_or r 0 0) _ l)

  -- Of a buffer of octets, whatever they are, `x75_decode` makes no frame of type X75_ILLEGAL; and
  -- the N(R) of an I, RR, RNR or REJ frame that it reads is below the modulus.
  pub decode_good :
      (m : Mode) (skb : Msgb) (g : Frame) {f : Frame} {rest : Msgb}
      → Octets skb
      → decode m skb g ≡ some (f, rest)
      → (carries_nr f.type ≡ true → f.nr < modulus_of m.extended) × (f.type ≢ illegal)
  decode_good m skb g h e = Good-of_mode m.extended m.mlp m.dce skb g h e
