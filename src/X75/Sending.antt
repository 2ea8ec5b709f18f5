-- ===== src/X75/Sending.antt =====
-- The loop of `x75_kick` (src/x75/x75_out.c).
use ras.Base.{
  ℕ, zero, suc, ◌+◌, ◌%◌, ◌≤◌, ◌<◌, ◌≡◌, sym, ap, ◌∙◌, true, false, Option, none, some, List, [],
  ◌∷◌, ◌++◌, append_assoc, length, length-append, take, drop, min, ◌==◌, ==_self, ==_of_ne,
  if◌then◌else◌, arith,
}
use ras.Osmo.{Osmo, Documented, HasMemory, Msgb, Queue}
use ras.X75.Types.{command, Event, X75Cb, modulus}
use ras.X75.Frame.{address_tx, iframe_octets}
use ras.X75.Send.{send_iframe}
use ras.X75.Queues.{dequeue_write, enqueue_ack}
use ras.X75.Kick.{Outcome, returns, send_and_keep, kick_round, kick_next, kick_loop}
use ras.X75.Ring.{dist, next-lt, ne_of_dist, next-add, next_of_dist_one, closer_by_one}

-- The I frame with the octets `skb` and the number `v`.
abbrev pub iframe : X75Cb → ℕ → Msgb → Event
iframe c v skb =
    Event.data_transmit (address_tx c.mode command ∷ (iframe_octets c.mode false v c.vr ++ skb))

-- The I frames of a list of buffers, numbered from `v` on.
unfoldable pub iframes : X75Cb → ℕ → Queue → List Event
iframes c v [] = []
iframes c v (b ∷ bs) = iframe c v b ∷ iframes c ((v + 1) % modulus c) bs

-- The link in the loop: V(S) at `v`, the frames `w` to be sent and `q` to be acknowledged, rightly
-- counted, and the calls `ev` made so far.
abbrev pub flight : X75Cb → ℕ → Queue → Queue → List Event → X75Cb
flight c v w q ev = record c {
  vs = v;
  write_queue = w;
  write_queue_count = length w;
  ack_queue = q;
  ack_queue_count = length q;
  events = ev;
}

module _ ⦃o : Osmo⦄ (doc : Documented o) where
  pub dequeue_write-flight :
      (c : X75Cb) (v : ℕ) (b : Msgb) (w q : Queue) (ev : List Event)
      → dequeue_write (flight c v (b ∷ w) q ev) ≡ (some b, flight c v w q ev)
  unfolding dequeue_write
  dequeue_write-flight c v b w q ev = rw (doc.dequeue b w (suc (length w))) (
      ap
        (λ m. (
          some b,
          record c {
            vs = v;
            write_queue = w;
            write_queue_count = m;
            ack_queue = q;
            ack_queue_count = length q;
            events = ev;
          },
        ))
        (omega arith))

  dequeue_write-empty :
      (c : X75Cb) (v : ℕ) (q : Queue) (ev : List Event)
      → dequeue_write (flight c v [] q ev) ≡ (none, flight c v [] q ev)
  unfolding dequeue_write
  dequeue_write-empty c v q ev = rw (doc.dequeue_empty 0)

  send_and_keep-flight :
      (c : X75Cb) (v : ℕ) (b : Msgb) (w q : Queue) (ev : List Event)
      → c.callbacks.data_transmit ≡ true
      → send_and_keep b b (flight c v w q ev)
        ≡ flight c ((v + 1) % modulus c) w (q ++ (b ∷ [])) (ev ++ (iframe c v b ∷ []))
  unfolding send_and_keep send_iframe enqueue_ack
  send_and_keep-flight c v b w q ev t =
      simp (t, doc.push, doc.enqueue)
        (ap
          (λ m. record c {
            vs = (v + 1) % modulus c;
            write_queue = w;
            write_queue_count = length w;
            ack_queue = q ++ (b ∷ []);
            ack_queue_count = m;
            events = ev ++ (iframe c v b ∷ []);
          })
          (omega (arith, length-append q (b ∷ []))))

  module _ (mem : HasMemory o) where
    kick_round-flight :
        (loop : Option Msgb → X75Cb → Outcome) (c : X75Cb) (end v : ℕ) (b : Msgb) (w q : Queue)
        (ev : List Event)
        → c.callbacks.data_transmit ≡ true
        → let v' = (v + 1) % modulus c in
          let sent = flight c v' w (q ++ (b ∷ [])) (ev ++ (iframe c v b ∷ [])) in
          kick_round loop end b (o.msgb_copy b) (flight c v w q ev)
          ≡ (if v' == end then returns sent else kick_next loop (dequeue_write sent))
    unfolding kick_round
    kick_round-flight loop c end v b w q ev t =
        ap (λ s. kick_round loop end b s (flight c v w q ev)) (mem.copy b)
        ∙ ap (λ (s : X75Cb). if s.vs == end then returns s else kick_next loop (dequeue_write s))
            (send_and_keep-flight c v b w q ev t)

    pub kick_loop-eq :
        (f d : ℕ) (c : X75Cb) (end v : ℕ) (b : Msgb) (w q : Queue) (ev : List Event)
        → c.callbacks.data_transmit ≡ true
        → v < modulus c
        → end < modulus c
        → dist (modulus c) v end ≡ suc d
        → suc d ≤ f
        → kick_loop f end (some b) (flight c v w q ev)
          ≡ returns (
              flight c
                ((v + suc (min (length w) d)) % modulus c)
                (drop d w)
                (q ++ (b ∷ take d w))
                (ev ++ iframes c v (b ∷ take d w)))
    unfolding kick_loop iframes
    kick_loop-eq zero d c end v b w q ev t h k e l = absurd (omega arith)
    kick_loop-eq (suc f) zero c end v b w q ev t h k e l =
        let last = next_of_dist_one c.mode.extended v end h k e in
        kick_round-flight (kick_loop f end) c end v b w q ev t
        ∙ rw (last, ==_self end)
            (ap (λ u. returns (flight c u w (q ++ (b ∷ [])) (ev ++ (iframe c v b ∷ []))))
              (sym last ∙ ap (λ n. (v + n) % modulus c) (omega arith)))
    kick_loop-eq (suc f) (suc d) c end v b [] q ev t h k e l =
        let v' = (v + 1) % modulus c in
        let closer = closer_by_one c.mode.extended v end (suc d) h k e in
        kick_round-flight (kick_loop f end) c end v b [] q ev t
        ∙ rw
            (
              ==_of_ne v' end
                  (ne_of_dist c.mode.extended v' end d (next-lt c.mode.extended v) closer),
              dequeue_write-empty c v' (q ++ (b ∷ [])) (ev ++ (iframe c v b ∷ [])),
            )
            (ap (λ u. returns (flight c u [] (q ++ (b ∷ [])) (ev ++ (iframe c v b ∷ []))))
              (ap (λ n. (v + n) % modulus c) (omega arith)))
    kick_loop-eq (suc f) (suc d) c end v b (b' ∷ w) q ev t h k e l =
        let v' = (v + 1) % modulus c in
        let q' = q ++ (b ∷ []) in
        let ev' = ev ++ (iframe c v b ∷ []) in
        let closer = closer_by_one c.mode.extended v end (suc d) h k e in
        kick_round-flight (kick_loop f end) c end v b (b' ∷ w) q ev t
        ∙ rw
            (
              ==_of_ne v' end
                  (ne_of_dist c.mode.extended v' end d (next-lt c.mode.extended v) closer),
              dequeue_write-flight c v' b' w q' ev',
              kick_loop-eq f d c end v' b' w q' ev' t (next-lt c.mode.extended v) k closer
                  (omega arith),
              append_assoc q (b ∷ []) (b' ∷ take d w),
              append_assoc ev (iframe c v b ∷ []) (iframes c v' (b' ∷ take d w)),
            )
            (ap
              (λ u. returns (
                flight c u (drop d w) (q ++ (b ∷ b' ∷ take d w))
                  (ev ++ (iframe c v b ∷ iframes c v' (b' ∷ take d w)))))
              (next-add c.mode.extended v (suc (min (length w) d))
                ∙ ap (λ n. (v + n) % modulus c) (omega arith)))
