-- ===== src/X75/Ack.antt =====
-- What the loop of `x75_frames_acked` does to the queue (src/x75/x75_subr.c).
use ras.Base.{
  ℕ, zero, suc, ◌+◌, ◌%◌, ◌≤◌, ◌<◌, ◌≡◌, refl, sym, ap, ◌∙◌, false, List, [], ◌∷◌, length, drop,
  min, ==_of_ne, ◌==◌, Bool-cases, ==_iff, inl, inr, arith,
}
use native.Mathlib.Nat.{le_of_lt}
use ras.Osmo.{Osmo, Documented, Queue}
use ras.X75.Types.{X75Cb, modulus}
use ras.X75.Queues.{free_acked, frames_acked_loop, frames_acked}
use ras.X75.Ring.{
  dist, ne_of_dist, dist-lt, dist_self, eq_of_dist_zero, next-lt, dist-next, add-zero_mod, next-add,
}

-- The link with V(A) at `a`, and with the frames `q` to be acknowledged, rightly counted.
abbrev pub awaiting : X75Cb → ℕ → Queue → X75Cb
awaiting c a q = record c { va = a; ack_queue = q; ack_queue_count = length q }

module _ ⦃o : Osmo⦄ (doc : Documented o) where
  free_acked-awaiting :
      (c : X75Cb) (a : ℕ) (b : List ℕ) (q : Queue)
      → free_acked (awaiting c a (b ∷ q)) ≡ awaiting c ((a + 1) % modulus c) q
  unfolding free_acked
  free_acked-awaiting c a b q = ground (arith, doc.dequeue b q (suc (length q)))

  frames_acked_loop-eq :
      (f d nr : ℕ) (c : X75Cb) (a : ℕ) (q : Queue)
      → a < modulus c
      → nr < modulus c
      → dist (modulus c) a nr ≡ d
      → d ≤ f
      → frames_acked_loop f nr (awaiting c a q)
        ≡ awaiting c ((a + min (length q) d) % modulus c) (drop d q)
  unfolding frames_acked_loop
  frames_acked_loop-eq zero zero nr c a q h k e l =
      ap (λ v. awaiting c v q) (add-zero_mod c.mode.extended a _ h (omega arith))
  frames_acked_loop-eq zero (suc d) nr c a q h k e l = absurd (omega arith)
  frames_acked_loop-eq (suc f) zero nr c a q h k e l = ground (
    arith,
    eq_of_dist_zero c.mode.extended a nr h k e,
    add-zero_mod c.mode.extended a (min (length q) 0) h,
  )
  frames_acked_loop-eq (suc f) (suc d) nr c a [] h k e l =
      ap (λ v. awaiting c v []) (add-zero_mod c.mode.extended a _ h (omega arith))
  frames_acked_loop-eq (suc f) (suc d) nr c a (b ∷ q) h k e l =
      let differ = ne_of_dist c.mode.extended a nr d h e in
      let closer : dist (modulus c) ((a + 1) % modulus c) nr ≡ d =
        omega (arith, dist-next c.mode.extended a nr h k differ) in
      let more : (suc (length q) == 0) ≡ false = ==_of_ne (suc (length q)) 0 (λ p. omega arith) in
      rw
        (
          more,
          ==_of_ne a nr differ,
          free_acked-awaiting c a b q,
          frames_acked_loop-eq f d nr c ((a + 1) % modulus c) q (next-lt c.mode.extended a) k closer
              (omega arith),
        )
        (ap (λ v. awaiting c v (drop d q))
          (next-add c.mode.extended a (min (length q) d)
            ∙ ap (λ n. (a + n) % modulus c) (omega arith)))

  -- With the frames to be acknowledged rightly counted, and V(A) and N(R) below the modulus,
  -- `x75_frames_acked` frees from the head of the queue as many frames as N(R) is ahead of V(A),
  -- or all if there are fewer, moves V(A) up by as many, and changes nothing else.
  pub frames_acked-eq :
      (c : X75Cb) (nr : ℕ)
      → c.ack_queue_count ≡ length c.ack_queue
      → c.va < modulus c
      → nr < modulus c
      → let d = dist (modulus c) c.va nr in
        frames_acked nr c
        ≡ awaiting c ((c.va + min (length c.ack_queue) d) % modulus c) (drop d c.ack_queue)
  unfolding frames_acked
  frames_acked-eq c nr n h k =
      let e = c.mode.extended in
      let d = dist (modulus c) c.va nr in
      let q = c.ack_queue in
      let counted : c ≡ awaiting c c.va q = ap (λ m. record c { ack_queue_count = m }) n in
      let looped =
        frames_acked_loop-eq (modulus c) d nr c c.va q h k refl (le_of_lt (dist-lt e c.va nr)) in
      elim (Bool-cases (c.va == nr)) [
        | inl same ↦
            let z : d ≡ 0 =
              ap (dist (modulus c) c.va) (sym ((==_iff c.va nr).0 same)) ∙ dist_self e c.va h in
            rw (same, z)
              (counted
                ∙ ap (λ v. awaiting c v q) (add-zero_mod e c.va (min (length q) 0) h (omega arith)))
        | inr differ ↦ rw differ (ap (frames_acked_loop (modulus c) nr) counted ∙ looped)
      ]
