-- ===== src/Ppp/Read.antt =====
-- `pppd_input_cb` of src/ppp/pppd.c: the loop over the octets of one read, and reads one after the
-- other.
use ras.Base.{
  ℕ, zero, suc, ◌+◌, ◌≤◌, ◌<◌, ◌≡◌, refl, sym, ap, ◌∙◌, Bool, true, false, List, [], ◌∷◌, ◌++◌,
  some, ◌==◌, ==_of_ne, length, append_assoc, length-append, length-drop, drop-append, drop, arith,
}
use mathlib.Core.Option.{some-injective}
use ras.Ppp.{
  ppp_flag, temp_pack_size, Rfc1662, between_packets, take_flag, take_octet, Returned, frame,
  decode_loop, rfc1662_decode, Input, done, queue_packet, input_loop,
}
use ras.Ppp.Stream.{stream, Decoded, all_read, ended, decoded}

unfoldable pub after_decode : ℕ → List ℕ → List (List ℕ) → Returned × ℕ × Rfc1662 → Input
after_decode fuel rest queued (rv, count, s) =
    input_loop fuel (drop count rest) (queue_packet rv queued) s

-- A round, by what the loop's condition says.
round : ℕ → List ℕ → List (List ℕ) → Rfc1662 → Bool → Input
round fuel rest queued s true = done queued s
round fuel rest queued s false =
    after_decode fuel rest queued (rfc1662_decode temp_pack_size rest 0 s)

pub one_round :
    (fuel : ℕ) (rest : List ℕ) (queued : List (List ℕ)) (s : Rfc1662) (r : Returned × ℕ × Rfc1662)
    → 2 ≤ length rest
    → decode_loop temp_pack_size 0 0 rest s ≡ r
    → input_loop (suc fuel) rest queued s ≡ after_decode fuel rest queued r
unfolding input_loop rfc1662_decode after_decode round
one_round fuel rest queued s r h e =
    let several = ==_of_ne (length rest) 1 (λ q. absurd (omega arith)) in
    ap (round fuel rest queued s) several ∙ ap (after_decode fuel rest queued) e

input_done :
    (fuel : ℕ) (rest : List ℕ) (queued : List (List ℕ)) (s : Rfc1662)
    → length rest ≡ 1
    → 0 < fuel
    → input_loop fuel rest queued s ≡ done queued s
unfolding input_loop rfc1662_decode after_decode round
input_done zero rest queued s h k = absurd (omega arith)
input_done (suc fuel) rest queued s h k = ap (λ n. round fuel rest queued s (n == 1)) h

drop_both : (xs ys zs : List ℕ) → drop (length xs + length ys) (xs ++ (ys ++ zs)) ≡ zs
drop_both xs ys zs =
    ap (λ n. drop n (xs ++ (ys ++ zs))) (sym (length-append xs ys))
    ∙ (ap (drop (length (xs ++ ys))) (sym (append_assoc xs ys zs)) ∙ drop-append (xs ++ ys) zs)

-- A call that passes over `over` and then finds what `Decoded` says takes the loop to its end, if a
-- loop with one round less does so behind the packet.
module _ (fuel : ℕ) (over : List ℕ) (ch : ℕ) (src : List ℕ) (queued : List (List ℕ)) (s : Rfc1662)
    (end : List (List ℕ) × Rfc1662) where
  ends_by_calls :
      0 < fuel
      → 2 ≤ length (over ++ ch ∷ src)
      → decode_loop temp_pack_size 0 0 (over ++ ch ∷ src) s
        ≡ decode_loop temp_pack_size (length over) 0 (ch ∷ src) s
      → ((before after p : List ℕ)
          → ch ∷ src ≡ before ++ ppp_flag ∷ after
          → stream after (queue_packet (frame p) queued) between_packets ≡ some end
          → input_loop fuel (ppp_flag ∷ after) (queue_packet (frame p) queued) between_packets
            ≡ done end.0 end.1)
      → Decoded (length over) 0 (ch ∷ src) queued s end
      → input_loop (suc fuel) (over ++ ch ∷ src) queued s ≡ done end.0 end.1
  unfolding after_decode
  ends_by_calls h long pass k (all_read e q) =
      let behind = length-drop (length over + length src) (over ++ ch ∷ src) in
      one_round fuel (over ++ ch ∷ src) queued s _ long (pass ∙ e)
      ∙ (input_done fuel (drop (length over + length src) (over ++ ch ∷ src)) queued end.1
            (omega (arith, behind, length-append over (ch ∷ src))) h
          ∙ ap (λ t. done t end.1) q)
  ends_by_calls h long pass k (ended before after p e split r) =
      one_round fuel (over ++ ch ∷ src) queued s _ long (pass ∙ e)
      ∙ (ap (λ t. input_loop fuel t (queue_packet (frame p) queued) between_packets)
            (ap (λ t. drop (length over + length before) (over ++ t)) split
              ∙ drop_both over before (ppp_flag ∷ after))
          ∙ k before after p split r)

-- Behind a packet, the flag at its end is read again.
from_flag :
    (fuel : ℕ) (src : List ℕ) (queued : List (List ℕ)) (end : List (List ℕ) × Rfc1662)
    → length src < fuel
    → stream src queued between_packets ≡ some end
    → input_loop fuel (ppp_flag ∷ src) queued between_packets ≡ done end.0 end.1
unfolding stream decode_loop take_octet take_flag
from_flag zero src queued end h k = absurd (omega arith)
from_flag (suc fuel) [] queued end h k =
    input_done (suc fuel) (ppp_flag ∷ []) queued between_packets refl (omega arith)
    ∙ ap (λ t. done t.0 t.1) (some-injective _ _ k)
from_flag (suc fuel) (ch ∷ src) queued end h k =
    ends_by_calls fuel (ppp_flag ∷ []) ch src queued between_packets end (omega arith) (omega arith)
      refl
      (λ before after p split r.
        from_flag fuel after (queue_packet (frame p) queued) end
          (omega (arith, ap length split, length-append before (ppp_flag ∷ after))) r)
      (decoded (ch ∷ src) 1 0 queued between_packets end k)

-- With as many rounds as octets, and one, the loop of `pppd_input_cb` over a read of two octets or
-- more comes to its end, and has queued what reading each octet once gives, if the buffer is large
-- enough for all.
pub input_loop-stream :
    (fuel : ℕ) (read : List ℕ) (queued : List (List ℕ)) (s : Rfc1662)
    (end : List (List ℕ) × Rfc1662)
    → 2 ≤ length read
    → length read < fuel
    → stream read queued s ≡ some end
    → input_loop fuel read queued s ≡ done end.0 end.1
input_loop-stream zero read queued s end h l k = absurd (omega arith)
input_loop-stream (suc fuel) [] queued s end h l k = absurd (omega arith)
input_loop-stream (suc fuel) (ch ∷ src) queued s end h l k =
    ends_by_calls fuel [] ch src queued s end (omega arith) h refl
      (λ before after p split r.
        from_flag fuel after (queue_packet (frame p) queued) end
          (omega (arith, ap length split, length-append before (ppp_flag ∷ after))) r)
      (decoded (ch ∷ src) 0 0 queued s end k)
