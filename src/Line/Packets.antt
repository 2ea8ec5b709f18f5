-- ===== src/Line/Packets.antt =====
-- The packet on its way and those in the queue, round by round of the second loop of
-- `handle_sample_buffer` in src/yate_x75.c and src/yate_hdlc_ppp.c.
use ras.Base.{
  ℕ, zero, suc, ◌+◌, ◌-◌, ◌≤◌, ◌<◌, ◌≡◌, refl, sym, subst, ap, ap₂, ◌∙◌, ◌⊎◌, inl, inr, Bool, true,
  false, List, [], ◌∷◌, ◌++◌, append-nil, append_assoc, ◌==◌, ==_iff, ==_of_ne, if◌then◌else◌,
  length, length-drop, take, drop, take-append-drop, take_all, drop-drop, Bool-cases, arith,
}
use ras.Line.{Tx, dequeued, next_packet, rest_of_packet, move_on}

abbrev pub concat : List (List ℕ) → List ℕ
concat [] = []
concat (p ∷ packets) = p ++ concat packets

-- The octets that wait, in the order of the packets.
abbrev pub waiting : Tx → List ℕ
waiting t = rest_of_packet t ++ concat t.isdn_hdlc_tx_queue

-- No packet is on its way, or some of its octets are left.
abbrev pub Sound : Tx → Type 0
Sound t = (t.tx_len ≡ 0) ⊎ ((t.tx_pos < t.tx_len) × (t.tx_len ≡ length t.tx_buf))

idle_rest : (t : Tx) → t.tx_len ≡ 0 → rest_of_packet t ≡ []
idle_rest t e =
    let none_left : t.tx_len - t.tx_pos ≡ 0 = omega arith in
    ap (λ n. take n (drop t.tx_pos t.tx_buf)) none_left

busy_rest : (t : Tx) → t.tx_len ≡ length t.tx_buf → rest_of_packet t ≡ drop t.tx_pos t.tx_buf
busy_rest t e =
    take_all (t.tx_len - t.tx_pos) (drop t.tx_pos t.tx_buf)
      (omega (arith, length-drop t.tx_pos t.tx_buf))

dequeued-waiting :
    (queue : List (List ℕ)) (t : Tx)
    → t.tx_len ≡ 0
    → t.isdn_hdlc_tx_queue ≡ queue
    → (waiting (dequeued queue t) ≡ waiting t) × Sound (dequeued queue t)
dequeued-waiting [] t e q = (refl, inl e)
dequeued-waiting (m ∷ queue) t e q =
    let whole : take (length m - 0) m ≡ m = take_all (length m - 0) m (omega arith) in
    (
      ap (λ r. r ++ concat queue) whole ∙ sym (ap₂ (λ r q. r ++ concat q) (idle_rest t e) q),
      sound m,
    )
  where
    sound : (m : List ℕ) → (length m ≡ 0) ⊎ ((0 < length m) × (length m ≡ length m))
    sound [] = inl refl
    sound (x ∷ xs) = inr (omega arith, refl)

pub next_packet-waiting :
    (t : Tx) → Sound t → (waiting (next_packet t) ≡ waiting t) × Sound (next_packet t)
unfolding next_packet
next_packet-waiting t s = by_test (Bool-cases (t.tx_len == 0))
  where
    Kept : Tx → Type 0
    Kept u = (waiting u ≡ waiting t) × Sound u

    by_test : (t.tx_len == 0 ≡ true) ⊎ (t.tx_len == 0 ≡ false) → Kept (next_packet t)
    by_test (inl e) =
        subst Kept (sym (ap (λ b. if b then dequeued t.isdn_hdlc_tx_queue t else t) e))
          (dequeued-waiting t.isdn_hdlc_tx_queue t ((==_iff t.tx_len 0).0 e) refl)
    by_test (inr e) =
        subst Kept (sym (ap (λ b. if b then dequeued t.isdn_hdlc_tx_queue t else t) e)) (refl, s)

take_none : (n : ℕ) (xs : List ℕ) → xs ≡ [] → take n xs ++ xs ≡ xs
take_none zero xs e = refl
take_none (suc n) [] e = refl
take_none (suc n) (x ∷ xs) e = absurd (omega (arith, ap length e))

-- A packet's octets less those that are sent now.
ahead : ℕ → Tx → Bool → Tx
ahead count t b =
    if b then record t { tx_pos = 0; tx_len = 0 } else record t { tx_pos = t.tx_pos + count }

move_on-idle : (count : ℕ) (t : Tx) → t.tx_len ≡ 0 → move_on count t ≡ t
unfolding move_on
move_on-idle count t e =
    ap
      (λ n.
        if n == 0
        then t
        else if t.tx_pos + count == t.tx_len
        then record t { tx_pos = 0; tx_len = 0 }
        else record t { tx_pos = t.tx_pos + count })
      e

move_on-busy :
    (count : ℕ) (t : Tx)
    → 0 < t.tx_len
    → move_on count t ≡ ahead count t (t.tx_pos + count == t.tx_len)
unfolding move_on ahead
move_on-busy count t h =
    ap (λ b. if b then t else ahead count t (t.tx_pos + count == t.tx_len))
      (==_of_ne t.tx_len 0 (λ q. absurd (omega arith)))

-- What the encoder takes and what is left are what there was.
Continues : ℕ → Tx → Tx → Type 0
Continues count t u =
    (take count (rest_of_packet t) ++ rest_of_packet u ≡ rest_of_packet t) × Sound u

ahead-Continues :
    (count : ℕ) (t : Tx)
    → t.tx_pos < t.tx_len
    → t.tx_len ≡ length t.tx_buf
    → count ≤ length (rest_of_packet t)
    → (b : Bool) → t.tx_pos + count == t.tx_len ≡ b
    → Continues count t (ahead count t b)
unfolding ahead Continues
ahead-Continues count t p e h true q =
    let all : t.tx_pos + count ≡ t.tx_len = ground arith in
    let left = length-drop t.tx_pos t.tx_buf in
    (
      append-nil (take count (rest_of_packet t))
          ∙ take_all count (rest_of_packet t) (omega (arith, left, ap length (busy_rest t e))),
      inl refl,
    )
ahead-Continues count t p e h false q =
    let u = record t { tx_pos = t.tx_pos + count } in
    let left = length-drop t.tx_pos t.tx_buf in
    let inside : t.tx_pos + count ≤ t.tx_len = omega (arith, left, ap length (busy_rest t e)) in
    (
      ap₂ (λ xs ys. take count xs ++ ys) (busy_rest t e)
            (busy_rest u e ∙ drop-drop t.tx_pos count t.tx_buf)
          ∙ (take-append-drop count (drop t.tx_pos t.tx_buf) ∙ sym (busy_rest t e)),
      inr (ground arith, e),
    )

move_on-Continues :
    (count : ℕ) (t : Tx)
    → Sound t
    → count ≤ length (rest_of_packet t)
    → Continues count t (move_on count t)
unfolding Continues
move_on-Continues count t (inl e) h =
    subst (Continues count t) (sym (move_on-idle count t e))
      (take_none count (rest_of_packet t) (idle_rest t e), inl e)
move_on-Continues count t (inr (p, e)) h =
    subst (Continues count t) (sym (move_on-busy count t (omega arith)))
      (ahead-Continues count t p e h (t.tx_pos + count == t.tx_len) refl)

move_on-queue : (count : ℕ) (t : Tx) → (move_on count t).isdn_hdlc_tx_queue ≡ t.isdn_hdlc_tx_queue
unfolding move_on
move_on-queue count t = by_tests (t.tx_len == 0) (t.tx_pos + count == t.tx_len)
  where
    by_tests :
        (a b : Bool)
        → (if a
            then t
            else if b
            then record t { tx_pos = 0; tx_len = 0 }
            else record t { tx_pos = t.tx_pos + count }).isdn_hdlc_tx_queue
          ≡ t.isdn_hdlc_tx_queue
    by_tests true b = refl
    by_tests false true = refl
    by_tests false false = refl

pub move_on-waiting :
    (count : ℕ) (t : Tx)
    → Sound t
    → count ≤ length (rest_of_packet t)
    → (take count (rest_of_packet t) ++ waiting (move_on count t) ≡ waiting t)
      × Sound (move_on count t)
unfolding Continues
move_on-waiting count t s h =
    let (goes_on, sound) = move_on-Continues count t s h in
    let u = move_on count t in
    (
      sym (
            append_assoc (take count (rest_of_packet t)) (rest_of_packet u)
              (concat u.isdn_hdlc_tx_queue))
          ∙ ap₂ (λ r q. r ++ concat q) goes_on (move_on-queue count t),
      sound,
    )
