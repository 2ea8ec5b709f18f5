-- ===== src/Message/Fuel.antt =====
-- The fuel of the loop of `yate_message_parse_parameters` (src/yate_message.c).
use ras.Base.{
  ℕ, zero, suc, ◌+◌, ◌-◌, ◌<◌, ◌≡◌, refl, ap, Bool, true, false, Option, none, some, List, [], ◌∷◌,
  length, ◌==◌, if◌then◌else◌, arith,
}
use ras.Message.{
  Params, Parsing, parsed, so_far, extend, c_string, find, colon, cut_key, parse_parameter,
  parse_round, parse_loop, parse_parameters,
}

-- What lies behind the octet found is shorter.
abbrev pub Shorter : ℕ → Option (List ℕ × List ℕ) → Type 0
Shorter n none = Unit {0}
Shorter n (some (before, after)) = length after < n

extend-Shorter :
    (x n : ℕ) (r : Option (List ℕ × List ℕ)) → Shorter n r → Shorter (suc n) (extend x r)
extend-Shorter x n none h = tt
extend-Shorter x n (some (before, after)) h = omega arith

either-Shorter :
    (b : Bool) (n : ℕ) (r s : Option (List ℕ × List ℕ))
    → Shorter n r
    → Shorter n s
    → Shorter n (if b then r else s)
either-Shorter true n r s h k = h
either-Shorter false n r s h k = k

find-Shorter : (c n : ℕ) (xs : List ℕ) → Shorter (length xs) (find c n xs)
unfolding find
find-Shorter c zero xs = tt
find-Shorter c (suc n) [] = tt
find-Shorter c (suc n) (x ∷ xs) =
    either-Shorter (x == c) (suc (length xs)) (some ([], xs)) (extend x (find c n xs)) (omega arith)
      (extend-Shorter x (length xs) (find c n xs) (find-Shorter c n xs))

-- That a loop with two amounts of fuel ends, alike.
abbrev EndsAlike : Parsing → Parsing → Type 0
EndsAlike a b = (r : Bool × Params) × (a ≡ parsed r) × (b ≡ parsed r)

parse_round-ends :
    (loop more : ℕ → Option (List ℕ) → ℕ → List ℕ → Params → Parsing)
    → (k : ℕ) (type : Option (List ℕ)) (n : ℕ) (start : List ℕ) (p : Params)
    → (r : Option (List ℕ × List ℕ)) → Shorter (length start) r
    → ((j : ℕ) (t : Option (List ℕ)) (m : ℕ) (s : List ℕ) (q : Params)
        → length s < length start
        → EndsAlike (loop j t m s q) (more j t m s q))
    → EndsAlike (parse_round loop k type n start p r) (parse_round more k type n start p r)
unfolding parse_round
parse_round-ends loop more k type n start p none h ends = (_, refl, refl)
parse_round-ends loop more k type n start p (some (before, after)) h ends =
    let argument = c_string before in
    ends (k + 1) (if k == 1 then some (cut_key argument) else type) (n - length before) after
      (parse_parameter argument p) h

parse_loop-ends :
    (f g k : ℕ) (type : Option (List ℕ)) (n : ℕ) (start : List ℕ) (p : Params)
    → length start < f
    → length start < g
    → EndsAlike (parse_loop f k type n start p) (parse_loop g k type n start p)
unfolding parse_loop
parse_loop-ends zero g k type n start p h l = absurd (omega arith)
parse_loop-ends (suc f) zero k type n start p h l = absurd (omega arith)
parse_loop-ends (suc f) (suc g) k type n start p h l =
    parse_round-ends (parse_loop f) (parse_loop g) k type n start p (find colon n start)
      (find-Shorter colon n start)
      (λ j t m s q short. parse_loop-ends f g j t m s q (omega arith) (omega arith))

-- With more rounds than there are octets in the memory, the loop of `yate_message_parse_parameters` has
-- ended, whatever the octets are, and its result is that of the call.
pub parse_parameters-ends :
    (buf : List ℕ) (len : ℕ) (p : Params) (f : ℕ)
    → length buf < f
    → (r : Bool × Params) × (parse_loop f 0 none len buf p ≡ parsed r)
      × (parse_parameters buf len p ≡ r)
unfolding parse_parameters
parse_parameters-ends buf len p f h =
    let (r, ends, enough) = parse_loop-ends f (suc (length buf)) 0 none len buf p h (omega arith) in
    (r, ends, ap so_far enough)
