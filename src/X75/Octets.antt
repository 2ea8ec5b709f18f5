-- ===== src/X75/Octets.antt =====
-- The octets of a control field as sums: no two of the bits that the code joins by `|` overlap.
use ras.Base.{ℕ, ◌+◌, ◌*◌, ◌<◌, bit_or, ◌≡◌, refl, Bool, true, false, ◌==◌, ==_iff, u8}
use ras.Base.Table.{checked, checked_at}
use ras.X75.Frame.{spf, epf}

-- A law of two numbers, checked at every pair.
all_pairs :
    (n : ℕ) (p : ℕ → ℕ → Bool) (x y : ℕ)
    → checked n (λ a. checked n (p a)) ≡ true
    → x < n
    → y < n
    → p x y ≡ true
all_pairs n p x y h hx hy = checked_at n (p x) y (checked_at n (λ a. checked n (p a)) x h hx) hy

abbrev standard_sum : Bool → ℕ → ℕ → Bool
standard_sum poll vs vr =
    u8 (bit_or (u8 (bit_or (spf poll) (vr * 32))) (vs * 2)) == spf poll + vr * 32 + vs * 2

standard_table : (poll : Bool) → checked 8 (λ vs. checked 8 (standard_sum poll vs)) ≡ true
unfolding checked
standard_table true = refl
standard_table false = refl

pub standard_iframe :
    (poll : Bool) (vs vr : ℕ)
    → vs < 8
    → vr < 8
    → u8 (bit_or (u8 (bit_or (spf poll) (vr * 32))) (vs * 2)) ≡ spf poll + vr * 32 + vs * 2
standard_iframe poll vs vr h k =
    (==_iff _ _).0 (all_pairs 8 (standard_sum poll) vs vr (standard_table poll) h k)

abbrev extended_sum : Bool → ℕ → Bool
extended_sum poll vr = u8 (bit_or (epf poll) (vr * 2)) == epf poll + vr * 2

extended_table : (poll : Bool) → checked 128 (extended_sum poll) ≡ true
unfolding checked
extended_table true = refl
extended_table false = refl

pub extended_iframe :
    (poll : Bool) (vr : ℕ) → vr < 128 → u8 (bit_or (epf poll) (vr * 2)) ≡ epf poll + vr * 2
extended_iframe poll vr h =
    (==_iff _ _).0 (checked_at 128 (extended_sum poll) vr (extended_table poll) h)

abbrev control_sum : Bool → ℕ → Bool
control_sum poll vr = bit_or (u8 (vr * 2)) (epf poll) == vr * 2 + epf poll

control_table : (poll : Bool) → checked 128 (control_sum poll) ≡ true
unfolding checked
control_table true = refl
control_table false = refl

pub extended_control :
    (poll : Bool) (vr : ℕ) → vr < 128 → bit_or (u8 (vr * 2)) (epf poll) ≡ vr * 2 + epf poll
extended_control poll vr h =
    (==_iff _ _).0 (checked_at 128 (control_sum poll) vr (control_table poll) h)

abbrev supervisory_sum : Bool → ℕ → ℕ → Bool
supervisory_sum poll t vr =
    u8 (bit_or (bit_or (t * 4 + 1) (spf poll)) (vr * 32)) == t * 4 + 1 + spf poll + vr * 32

supervisory_table : (poll : Bool) → checked 4 (λ t. checked 8 (supervisory_sum poll t)) ≡ true
unfolding checked
supervisory_table true = refl
supervisory_table false = refl

-- RR, RNR and REJ are the codes `t * 4 + 1` for t = 0, 1, 2.
pub standard_supervisory :
    (poll : Bool) (t vr : ℕ)
    → t < 4
    → vr < 8
    → u8 (bit_or (bit_or (t * 4 + 1) (spf poll)) (vr * 32)) ≡ t * 4 + 1 + spf poll + vr * 32
standard_supervisory poll t vr h k = (==_iff _ _).0 (
    checked_at 8 (supervisory_sum poll t) vr
      (checked_at 4 (λ a. checked 8 (supervisory_sum poll a)) t (supervisory_table poll) h) k)
