-- ===== src/Message/Reply.antt =====
-- Which messages `yate_message_parse_incoming` answers (src/yate_message.c).
use ras.Base.{
  ℕ, zero, suc, ◌+◌, ◌-◌, ◌≤◌, ◌<◌, ◌≡◌, ◌≢◌, refl, ap, ◌∙◌, Bool, true, false, Option, none, some,
  List, [], ◌∷◌, ◌++◌, ==_of_ne, ==_self, if◌then◌else◌, length, length-append, arith,
}
use ras.Message.{
  Params, Parsing, so_far, c_string, find, colon, call_execute, cut_key, is_call_execute,
  parse_parameter, parse_loop, parse_round, parse_parameters, answer, identified, parse_message,
  parse_incoming, same_string,
}

-- None of the octets is the one named.
abbrev pub Without : ℕ → List ℕ → Type 0
Without c [] = Unit {0}
Without c (x ∷ xs) = (x ≢ c) × Without c xs

find-Without :
    (c n : ℕ) (xs ys : List ℕ)
    → Without c xs
    → length xs < n
    → find c n (xs ++ (c ∷ ys)) ≡ some (xs, ys)
unfolding find
find-Without c zero xs ys w l = absurd (omega arith)
find-Without c (suc n) [] ys w l = rw (==_self c)
find-Without c (suc n) (x ∷ xs) ys w l =
    rw (==_of_ne x c w.0, find-Without c n xs ys w.1 (omega arith))

c_string-Without : (xs : List ℕ) → Without 0 xs → c_string xs ≡ xs
unfolding c_string
c_string-Without [] w = refl
c_string-Without (x ∷ xs) w = rw (==_of_ne x 0 w.0, c_string-Without xs w.1)

call_execute-Without : Without colon call_execute
call_execute-Without = ground arith

-- The round of an argument behind the second, by what the next rounds do.
round_stays :
    (loop : ℕ → Option (List ℕ) → ℕ → List ℕ → Params → Parsing)
    → (k : ℕ) (type : Option (List ℕ)) (n : ℕ) (start : List ℕ) (p : Params)
    → (r : Option (List ℕ × List ℕ)) → 1 < k
    → ((m : ℕ) (s : List ℕ) (q : Params)
        → (so_far (loop (k + 1) type m s q)).0 ≡ is_call_execute type)
    → (so_far (parse_round loop k type n start p r)).0 ≡ is_call_execute type
unfolding parse_round
round_stays loop k type n start p none h next = refl
round_stays loop k type n start p (some (before, after)) h next =
    let argument = c_string before in
    let m = n - length before in
    let q = parse_parameter argument p in
    ap (λ b. (so_far (loop (k + 1) (if b then some (cut_key argument) else type) m after q)).0)
      (==_of_ne k 1 (λ e. omega arith))
    ∙ next m after q

-- Behind the second argument the type stays.
type_stays :
    (f k : ℕ) (type : Option (List ℕ)) (n : ℕ) (start : List ℕ) (p : Params)
    → 1 < k
    → (so_far (parse_loop f k type n start p)).0 ≡ is_call_execute type
unfolding parse_loop
type_stays zero k type n start p h = refl
type_stays (suc f) k type n start p h =
    round_stays (parse_loop f) k type n start p (find colon n start) h
      (λ m s q. type_stays f (k + 1) type m s q (omega arith))

cut-call_execute : is_call_execute (some (cut_key (c_string call_execute))) ≡ true
unfolding is_call_execute cut_key c_string find same_string
cut-call_execute = refl

-- A first argument, a second that is the type answered, and more.
executes :
    (f : ℕ) (time tail : List ℕ) (n : ℕ) (p : Params)
    → Without colon time
    → length time + 13 ≤ n
    → (so_far (
        parse_loop (suc (suc f)) 0 none n (time ++ (colon ∷ (call_execute ++ (colon ∷ tail)))) p)).0
      ≡ true
unfolding parse_loop parse_round find
executes f time tail n p w l =
    let rest = call_execute ++ (colon ∷ tail) in
    let p1 = parse_parameter (c_string time) p in
    let p2 = parse_parameter (c_string call_execute) p1 in
    let m = n - length time in
    let first = find-Without colon n time rest w (omega arith) in
    let second = find-Without colon m call_execute tail call_execute-Without (omega arith) in
    ap (λ r. (so_far (parse_round (parse_loop (suc f)) 0 none n (time ++ (colon ∷ rest)) p r)).0)
      first
    ∙ ap (λ r. (so_far (parse_round (parse_loop f) 1 none m rest p1 r)).0) second
    ∙ type_stays f 2 (some (cut_key (c_string call_execute))) (m - 12) tail p2 (omega arith)
    ∙ cut-call_execute

parameters_execute :
    (time tail : List ℕ) (n : ℕ) (p : Params)
    → Without colon time
    → length time + 13 ≤ n
    → (parse_parameters (time ++ (colon ∷ (call_execute ++ (colon ∷ tail)))) n p).0 ≡ true
unfolding parse_parameters
parameters_execute time tail n p w l =
    let buf = time ++ (colon ∷ (call_execute ++ (colon ∷ tail))) in
    let longer : length buf ≡ suc (length time + length (call_execute ++ (colon ∷ tail))) =
      omega (arith, length-append time (colon ∷ (call_execute ++ (colon ∷ tail)))) in
    ap (λ f. (so_far (parse_loop (suc f) 0 none n buf p)).0) longer
    ∙ executes (length time + length (call_execute ++ (colon ∷ tail))) time tail n p w l

answer-true : (id : List ℕ) (r : Bool × Params) → r.0 ≡ true → (answer id r).0 ≡ some (c_string id)
unfolding answer
answer-true id (true, p) h = refl
answer-true id (false, p) h = cc

-- A message of a head, an identifier, a time, the type `call.execute` and more, parted by colons,
-- of which the octets up to the colon behind the type may be looked at, is answered with its
-- identifier, whatever parameters follow; the head, the identifier and the time have no colon, and
-- the identifier no octet 0.
pub parse_incoming-call_execute :
    (head id time tail : List ℕ) (len : ℕ) (p : Params)
    → Without colon head
    → Without colon id
    → Without 0 id
    → Without colon time
    → length head + length id + length time + 15 ≤ len
    → (parse_incoming
        (head ++ (colon ∷ (id ++ (colon ∷ (time ++ (colon ∷ (call_execute ++ (colon ∷ tail))))))))
        len
        p).0
      ≡ some id
unfolding parse_incoming parse_message identified
parse_incoming-call_execute head id time tail len p wh wi zi wt l =
    let args = time ++ (colon ∷ (call_execute ++ (colon ∷ tail))) in
    let n = len - length head - 1 in
    ap (λ r. (parse_message len r p).0)
      (find-Without colon len head (id ++ (colon ∷ args)) wh (omega arith))
    ∙ ap (λ r. (identified n r p).0) (find-Without colon n id args wi (omega arith))
    ∙ answer-true id (parse_parameters args (n - length id - 1) p)
        (parameters_execute time tail (n - length id - 1) p wt (omega arith))
    ∙ ap some (c_string-Without id zi)
