-- ===== src/X75/Queues.antt =====
-- The queues of frames to send and of frames to be acknowledged (src/x75/x75_subr.c).
-- Each `while` runs on fuel.
use ras.Base.{ℕ, zero, suc, ◌+◌, ◌%◌, Bool, true, not, ◌&&◌, Option, none, some, length}
use ras.Base.{◌==◌, if◌then◌else◌}
use ras.Osmo.{Osmo, Msgb}
use ras.X75.Types.{X75Cb, modulus}

-- The loop of `x75_validate_nr` from `vc` on.
unfoldable pub validate_nr_loop : ℕ → ℕ → ℕ → ℕ → ℕ → Bool
validate_nr_loop zero m vs nr vc = nr == vs
validate_nr_loop (suc f) m vs nr vc =
    let rest = validate_nr_loop f m vs nr ((vc + 1) % m) in
    if vc == vs then nr == vs else if nr == vc then true else rest

unfoldable pub validate_nr : ℕ → X75Cb → Bool
unfolding validate_nr_loop
validate_nr nr c = validate_nr_loop (modulus c) (modulus c) c.vs nr c.va

module _ ⦃o : Osmo⦄ where
  -- `msgb_queue_free` empties the lists; the counters beside them stay.
  unfoldable pub clear_queues : X75Cb → X75Cb
  clear_queues c = record c {
    write_queue = o.msgb_queue_free c.write_queue;
    ack_queue = o.msgb_queue_free c.ack_queue;
  }

  -- The calls of `msgb_dequeue_count` and `msgb_enqueue_count` on the two queues.
  unfoldable pub dequeue_ack : X75Cb → Option Msgb × X75Cb
  dequeue_ack c =
      let (skb, q, n) = o.msgb_dequeue_count c.ack_queue c.ack_queue_count in
      (skb, record c { ack_queue = q; ack_queue_count = n })

  unfoldable pub dequeue_write : X75Cb → Option Msgb × X75Cb
  dequeue_write c =
      let (skb, q, n) = o.msgb_dequeue_count c.write_queue c.write_queue_count in
      (skb, record c { write_queue = q; write_queue_count = n })

  unfoldable pub enqueue_ack : Msgb → X75Cb → X75Cb
  enqueue_ack skb c =
      let (q, n) = o.msgb_enqueue_count c.ack_queue skb c.ack_queue_count in
      record c { ack_queue = q; ack_queue_count = n }

  unfoldable pub enqueue_write : Msgb → X75Cb → X75Cb
  enqueue_write skb c =
      let (q, n) = o.msgb_enqueue_count c.write_queue skb c.write_queue_count in
      record c { write_queue = q; write_queue_count = n }

  -- One round of the loop of `x75_frames_acked`.
  unfoldable pub free_acked : X75Cb → X75Cb
  unfolding dequeue_ack
  free_acked c = let (skb, c') = dequeue_ack c in record c' { va = (c'.va + 1) % modulus c' }

  unfoldable pub frames_acked_loop : ℕ → ℕ → X75Cb → X75Cb
  frames_acked_loop zero nr c = c
  frames_acked_loop (suc f) nr c =
      let rest = frames_acked_loop f nr (free_acked c) in
      if not (c.ack_queue_count == 0) && not (c.va == nr) then rest else c

  unfoldable pub frames_acked : ℕ → X75Cb → X75Cb
  frames_acked nr c = if not (c.va == nr) then frames_acked_loop (modulus c) nr c else c

  -- A round of the loop of `x75_requeue_frames`, by what was taken off the queue.
  unfoldable pub requeue_round : (X75Cb → X75Cb) → Option Msgb × X75Cb → X75Cb
  requeue_round loop (none, c) = c
  requeue_round loop (some skb, c) = loop (enqueue_write skb c)

  unfoldable pub requeue_loop : ℕ → X75Cb → X75Cb
  unfolding requeue_round
  requeue_loop zero c = c
  requeue_loop (suc f) c = requeue_round (requeue_loop f) (dequeue_ack c)

  unfoldable pub requeue_frames : X75Cb → X75Cb
  requeue_frames c = requeue_loop (suc (length c.ack_queue)) c
