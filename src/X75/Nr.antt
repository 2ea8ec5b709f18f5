-- ===== src/X75/Nr.antt =====
-- What the loop of `x75_validate_nr` tests (src/x75/x75_subr.c).
use ras.Base.{ℕ, zero, suc, ◌+◌, ◌%◌, ◌≤◌, ◌<◌, ◌≡◌, ◌↔◌, Bool, true, leb, arith}
use ras.X75.Types.{X75Cb, modulus, modulus_of}
use ras.X75.Queues.{validate_nr_loop, validate_nr}
use ras.X75.Ring.{dist, dist-lt, dist_self, eq_of_dist_zero, next-lt, dist-next}

validate_nr_loop-eq :
    (f : ℕ) (e : Bool) (vs nr vc : ℕ)
    → vs < modulus_of e
    → nr < modulus_of e
    → vc < modulus_of e
    → dist (modulus_of e) vc vs < f
    → validate_nr_loop f (modulus_of e) vs nr vc
      ≡ leb (dist (modulus_of e) vc nr) (dist (modulus_of e) vc vs)
unfolding validate_nr_loop
validate_nr_loop-eq zero e vs nr vc h k l d = absurd (omega arith)
validate_nr_loop-eq (suc f) e vs nr vc h k l d = ground (
  arith,
  validate_nr_loop-eq f e vs nr ((vc + 1) % modulus_of e),
  next-lt e vc,
  dist-next e vc vs,
  dist-next e vc nr,
  dist_self e vc,
  eq_of_dist_zero e vc nr,
)

pub validate_nr-eq :
    (c : X75Cb) (nr : ℕ)
    → c.va < modulus c
    → c.vs < modulus c
    → nr < modulus c
    → validate_nr nr c ≡ leb (dist (modulus c) c.va nr) (dist (modulus c) c.va c.vs)
unfolding validate_nr
validate_nr-eq c nr h k l =
    validate_nr_loop-eq (modulus c) c.mode.extended c.vs nr c.va k l h
      (dist-lt c.mode.extended c.va c.vs)

-- With V(A), V(S) and N(R) below the modulus, `x75_validate_nr` is true of N(R) exactly if,
-- counting up from V(A) round the modulus, N(R) is no further away than V(S).
pub validate_nr_iff :
    (c : X75Cb) (nr : ℕ)
    → c.va < modulus c
    → c.vs < modulus c
    → nr < modulus c
    → (validate_nr nr c ≡ true) ↔ (dist (modulus c) c.va nr ≤ dist (modulus c) c.va c.vs)
validate_nr_iff c nr h k l = ground (arith, validate_nr-eq c nr h k l)
