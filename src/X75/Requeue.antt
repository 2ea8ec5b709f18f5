-- ===== src/X75/Requeue.antt =====
-- What `x75_requeue_frames` does to both queues (src/x75/x75_subr.c).
use ras.Base.{
  ℕ, suc, ◌+◌, ◌≡◌, sym, ap, ap₂, ◌∙◌, none, some, [], ◌∷◌, ◌++◌, append_assoc, append-nil, length,
  arith,
}
use ras.Osmo.{Osmo, Documented, Msgb, Queue}
use ras.X75.Types.{X75Cb}
use ras.X75.Queues.{dequeue_ack, enqueue_write, requeue_round, requeue_loop, requeue_frames}

-- The link with the frames `w` to be sent and `q` to be acknowledged, and their counters.
abbrev pub queued : X75Cb → Queue → ℕ → Queue → X75Cb
queued c w n q = record c {
  write_queue = w;
  write_queue_count = n;
  ack_queue = q;
  ack_queue_count = length q;
}

module _ ⦃o : Osmo⦄ (doc : Documented o) where
  pub dequeue_ack-queued :
      (c : X75Cb) (w : Queue) (n : ℕ) (b : Msgb) (q : Queue)
      → dequeue_ack (queued c w n (b ∷ q)) ≡ (some b, queued c w n q)
  unfolding dequeue_ack
  dequeue_ack-queued c w n b q = rw (doc.dequeue b q (suc (length q))) (
      ap
        (λ m. (
          some b,
          record c { write_queue = w; write_queue_count = n; ack_queue = q; ack_queue_count = m },
        ))
        (omega arith))

  pub dequeue_ack-empty :
      (c : X75Cb) (w : Queue) (n : ℕ) → dequeue_ack (queued c w n []) ≡ (none, queued c w n [])
  unfolding dequeue_ack
  dequeue_ack-empty c w n = rw (doc.dequeue_empty 0)

  pub enqueue_write-queued :
      (c : X75Cb) (w : Queue) (n : ℕ) (b : Msgb) (q : Queue)
      → enqueue_write b (queued c w n q) ≡ queued c (w ++ (b ∷ [])) (n + 1) q
  unfolding enqueue_write
  enqueue_write-queued c w n b q = rw (doc.enqueue w b n)

  requeue_loop-eq :
      (q : Queue) (c : X75Cb) (w : Queue) (n : ℕ)
      → requeue_loop (suc (length q)) (queued c w n q) ≡ queued c (w ++ q) (n + length q) []
  unfolding requeue_loop
  requeue_loop-eq [] c w n =
      ap (requeue_round (requeue_loop 0)) (dequeue_ack-empty c w n)
      ∙ ap₂ (λ v m. queued c v m []) (sym (append-nil w)) (omega arith)
  requeue_loop-eq (b ∷ q) c w n =
      ap (requeue_round (requeue_loop (suc (length q)))) (dequeue_ack-queued c w n b q)
      ∙ ap (requeue_loop (suc (length q))) (enqueue_write-queued c w n b q)
      ∙ requeue_loop-eq q c (w ++ (b ∷ [])) (n + 1)
      ∙ ap₂ (λ v m. queued c v m []) (append_assoc w (b ∷ []) q) (omega arith)

  -- With the frames to be acknowledged rightly counted, `x75_requeue_frames` empties that queue,
  -- appends its frames in their order behind the frames to be sent, counts them there, and
  -- changes nothing else.
  pub requeue_frames-eq :
      (c : X75Cb)
      → c.ack_queue_count ≡ length c.ack_queue
      → requeue_frames c
        ≡ queued c (c.write_queue ++ c.ack_queue) (c.write_queue_count + length c.ack_queue) []
  unfolding requeue_frames
  requeue_frames-eq c n =
      let counted : c ≡ queued c c.write_queue c.write_queue_count c.ack_queue =
        ap (λ m. record c { ack_queue_count = m }) n in
      ap (requeue_loop (suc (length c.ack_queue))) counted
      ∙ requeue_loop-eq c.ack_queue c c.write_queue c.write_queue_count
