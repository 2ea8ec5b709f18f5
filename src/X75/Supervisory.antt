-- ===== src/X75/Supervisory.antt =====
-- The control octets of the supervisory frames RR, RNR and REJ (src/x75/x75_subr.c).
use ras.Base.{ℕ, zero, suc, ◌+◌, ◌*◌, ◌<◌, ◌≡◌, ap, Bool, true, false, [], ◌∷◌, arith}
use ras.X75.Types.{frame_type, Frame}
use ras.X75.Frame.{spf, epf, decode_standard, control_octets}
use ras.X75.Octets.{extended_control, standard_supervisory}
use ras.X75.Codec.{mode_of}

-- The supervisory frames are numbered RR, RNR, REJ; their codes are `4 k + 1`.
pub standard_octets :
    (p d poll : Bool) (k vr : ℕ)
    → k < 3
    → vr < 8
    → control_octets (mode_of false p d) (k * 4 + 1) poll vr ≡ (k * 4 + 1 + spf poll + vr * 32) ∷ []
unfolding control_octets
standard_octets p d poll zero vr h l =
    ap (λ x. x ∷ []) (standard_supervisory poll 0 vr (omega arith) l)
standard_octets p d poll (suc zero) vr h l =
    ap (λ x. x ∷ []) (standard_supervisory poll 1 vr (omega arith) l)
standard_octets p d poll (suc (suc zero)) vr h l =
    ap (λ x. x ∷ []) (standard_supervisory poll 2 vr (omega arith) l)
standard_octets p d poll (suc (suc (suc k))) vr h l = absurd (omega arith)

pub extended_octets :
    (p d poll : Bool) (k vr : ℕ)
    → k < 3
    → vr < 128
    → control_octets (mode_of true p d) (k * 4 + 1) poll vr ≡ (k * 4 + 1) ∷ (vr * 2 + epf poll) ∷ []
unfolding control_octets
extended_octets p d poll zero vr h l = ap (λ x. 1 ∷ x ∷ []) (extended_control poll vr l)
extended_octets p d poll (suc zero) vr h l = ap (λ x. 5 ∷ x ∷ []) (extended_control poll vr l)
extended_octets p d poll (suc (suc zero)) vr h l = ap (λ x. 9 ∷ x ∷ []) (extended_control poll vr l)
extended_octets p d poll (suc (suc (suc k))) vr h l = absurd (omega arith)

pub supervisory_read :
    (poll : Bool) (k vr : ℕ) (f : Frame)
    → k < 3
    → vr < 8
    → let x = k * 4 + 1 + spf poll + vr * 32 in
      decode_standard x f
      ≡ record f { type = frame_type (k * 4 + 1); nr = vr; pf = poll; control0 = x }
unfolding decode_standard
supervisory_read true k vr f h l = ground arith
supervisory_read false k vr f h l = ground arith
