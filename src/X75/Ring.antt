-- ===== src/X75/Ring.antt =====
-- Sequence numbers go round at the modulus: how far one is ahead of another.
use ras.Base.{ℕ, suc, ◌+◌, ◌-◌, ◌%◌, ◌≤◌, ◌<◌, ◌≡◌, ◌≢◌, Bool, true, false, arith}
use ras.X75.Types.{modulus_of}

-- How many steps lead from `a` up to `b`.
unfoldable pub dist : ℕ → ℕ → ℕ → ℕ
dist m a b = (b + m - a) % m

pub dist-lt : (e : Bool) (a b : ℕ) → dist (modulus_of e) a b < modulus_of e
unfolding dist
dist-lt true a b = omega arith
dist-lt false a b = omega arith

pub dist_self : (e : Bool) (a : ℕ) → a < modulus_of e → dist (modulus_of e) a a ≡ 0
unfolding dist
dist_self true a h = omega arith
dist_self false a h = omega arith

pub eq_of_dist_zero :
    (e : Bool) (a b : ℕ) → a < modulus_of e → b < modulus_of e → dist (modulus_of e) a b ≡ 0 → a ≡ b
unfolding dist
eq_of_dist_zero true a b h k z = omega arith
eq_of_dist_zero false a b h k z = omega arith

pub next-lt : (e : Bool) (a : ℕ) → (a + 1) % modulus_of e < modulus_of e
next-lt true a = omega arith
next-lt false a = omega arith

-- A step towards another number shortens the way by one.
pub dist-next :
    (e : Bool) (a b : ℕ)
    → a < modulus_of e
    → b < modulus_of e
    → a ≢ b
    → dist (modulus_of e) ((a + 1) % modulus_of e) b + 1 ≡ dist (modulus_of e) a b
unfolding dist
dist-next true a b h k n = omega arith
dist-next false a b h k n = omega arith

-- `k` steps from `a` are the distance `k`, if they do not go round.
pub dist-add :
    (e : Bool) (a k : ℕ)
    → a < modulus_of e
    → k < modulus_of e
    → dist (modulus_of e) a ((a + k) % modulus_of e) ≡ k
unfolding dist
dist-add true a k h l = omega arith
dist-add false a k h l = omega arith

-- The distances from one number add up, where the first does not pass the second.
pub dist-split :
    (e : Bool) (a b c : ℕ)
    → a < modulus_of e
    → b < modulus_of e
    → c < modulus_of e
    → dist (modulus_of e) a b ≤ dist (modulus_of e) a c
    → dist (modulus_of e) a b + dist (modulus_of e) b c ≡ dist (modulus_of e) a c
unfolding dist
dist-split true a b c h k l p = omega arith
dist-split false a b c h k l p = omega arith

pub add-zero_mod : (e : Bool) (a n : ℕ) → a < modulus_of e → n ≡ 0 → a ≡ (a + n) % modulus_of e
add-zero_mod true a n h z = omega arith
add-zero_mod false a n h z = omega arith

pub next-add :
    (e : Bool) (a n : ℕ)
    → ((a + 1) % modulus_of e + n) % modulus_of e ≡ (a + (n + 1)) % modulus_of e
next-add true a n = omega arith
next-add false a n = omega arith

pub ne_of_dist : (e : Bool) (a b d : ℕ) → a < modulus_of e → dist (modulus_of e) a b ≡ suc d → a ≢ b
unfolding dist
ne_of_dist true a b d h k p = omega arith
ne_of_dist false a b d h k p = omega arith

pub next_of_dist_one :
    (e : Bool) (a b : ℕ)
    → a < modulus_of e
    → b < modulus_of e
    → dist (modulus_of e) a b ≡ 1
    → (a + 1) % modulus_of e ≡ b
unfolding dist
next_of_dist_one true a b h k p = omega arith
next_of_dist_one false a b h k p = omega arith

pub closer_by_one :
    (e : Bool) (a b d : ℕ)
    → a < modulus_of e
    → b < modulus_of e
    → dist (modulus_of e) a b ≡ suc d
    → dist (modulus_of e) ((a + 1) % modulus_of e) b ≡ d
closer_by_one e a b d h k p = omega (arith, dist-next e a b h k (ne_of_dist e a b d h p))

-- What lies `k` further on than `b` is `k` further away from `a`, short of the modulus.
pub dist-plus :
    (e : Bool) (a b k : ℕ)
    → a < modulus_of e
    → b < modulus_of e
    → dist (modulus_of e) a b + k < modulus_of e
    → dist (modulus_of e) a ((b + k) % modulus_of e) ≡ dist (modulus_of e) a b + k
unfolding dist
dist-plus true a b k h l p = omega arith
dist-plus false a b k h l p = omega arith

pub add_dist :
    (e : Bool) (a b : ℕ)
    → a < modulus_of e
    → b < modulus_of e
    → (a + dist (modulus_of e) a b) % modulus_of e ≡ b
unfolding dist
add_dist true a b h k = omega arith
add_dist false a b h k = omega arith

pub add_mod-lt : (e : Bool) (a k : ℕ) → (a + k) % modulus_of e < modulus_of e
add_mod-lt true a k = omega arith
add_mod-lt false a k = omega arith

pub modulus_pos : (e : Bool) → 0 < modulus_of e
modulus_pos true = omega arith
modulus_pos false = omega arith
