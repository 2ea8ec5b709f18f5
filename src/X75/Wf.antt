-- ===== src/X75/Wf.antt =====
-- The invariant of a link that carries data, and the operations on its queues
-- (src/x75/x75_out.c, src/x75/x75_subr.c).
use ras.Base.{
  ℕ, ◌+◌, ◌%◌, ◌≤◌, ◌<◌, ◌≡◌, refl, ap, ◌∙◌, true, ◌++◌, length, take, drop, min, length-append,
  length-take, length-drop, ◌⊎◌, inl, inr, Bool-cases, arith,
}
use ras.Osmo.{Osmo, Documented, HasMemory}
use ras.X75.Types.{X75Cb, modulus, modulus_of}
use ras.X75.Timer.{start_t1timer}
use ras.X75.Kick.{returns, kick_start, kick_end, may_send, kick}
use ras.X75.Queues.{validate_nr, frames_acked, requeue_frames}
use ras.X75.Ring.{dist, dist_self, dist-add, dist-split, dist-plus, add_dist, add_mod-lt}
use ras.X75.Nr.{validate_nr_iff}
use ras.X75.Ack.{frames_acked-eq}
use ras.X75.Requeue.{requeue_frames-eq}
use ras.X75.Sending.{flight, iframes}
use ras.X75.Window.{kicked, room, kick-eq, armed, InRange, kick_start-lt}
use ras.X75.Core.{Core, core}

-- The queues are counted rightly, the sequence numbers are below the modulus, and the window is
-- between 1 and the modulus less one. The frames that await acknowledgement fit the window, and
-- are those from V(A) to V(S), unless there is none.
pub record Wf (k : Core) : Type 0 where
  pub write_counted : k.write_queue_count ≡ length k.write_queue
  pub ack_counted : k.ack_queue_count ≡ length k.ack_queue
  pub vs_lt : k.vs < modulus_of k.mode.extended
  pub vr_lt : k.vr < modulus_of k.mode.extended
  pub va_lt : k.va < modulus_of k.mode.extended
  pub window_pos : 0 < k.window
  pub window_lt : k.window < modulus_of k.mode.extended
  pub fits : length k.ack_queue ≤ k.window
  pub outstanding :
      (length k.ack_queue ≡ 0) ⊎ (length k.ack_queue ≡ dist (modulus_of k.mode.extended) k.va k.vs)
  pub transmits : k.transmits ≡ true

module _ ⦃o : Osmo⦄ (doc : Documented o) where
  -- Moving the frames that await acknowledgement back to the write queue keeps the invariant.
  pub requeue_frames-Wf : (c : X75Cb) → Wf (core c) → Wf (core (requeue_frames c))
  requeue_frames-Wf c w =
      rw (requeue_frames-eq doc c w.ack_counted)
        (ground (arith, length-append c.write_queue c.ack_queue))

  acked_outstanding :
      (c : X75Cb) (nr : ℕ)
      → Wf (core c)
      → nr < modulus c
      → dist (modulus c) c.va nr ≤ dist (modulus c) c.va c.vs
      → let d = dist (modulus c) c.va nr in
        let left = length (drop d c.ack_queue) in
        (left ≡ 0)
        ⊎ (left ≡ dist (modulus c) ((c.va + min (length c.ack_queue) d) % modulus c) c.vs)
  acked_outstanding c nr w h v =
      let e = c.mode.extended in
      let d = dist (modulus c) c.va nr in
      elim w.outstanding [
        | inl p ↦ inl (omega (arith, length-drop d c.ack_queue))
        | inr p ↦
            let there : (c.va + min (length c.ack_queue) d) % modulus c ≡ nr =
              ap (λ n. (c.va + n) % modulus c) (omega arith) ∙ add_dist e c.va nr w.va_lt h in
            inr (
              rw there (
                omega (
                  arith,
                  length-drop d c.ack_queue,
                  dist-split e c.va nr c.vs w.va_lt h w.vs_lt v,
                )))
      ]

  -- Freeing the frames before an N(R) below the modulus that `x75_validate_nr` accepts leaves a
  -- well-formed link well formed.
  pub frames_acked-Wf :
      (c : X75Cb) (nr : ℕ)
      → Wf (core c)
      → nr < modulus c
      → validate_nr nr c ≡ true
      → Wf (core (frames_acked nr c))
  frames_acked-Wf c nr w h v =
      let d = dist (modulus c) c.va nr in
      let valid = (validate_nr_iff c nr w.va_lt w.vs_lt h).0 v in
      rw (frames_acked-eq doc c nr w.ack_counted w.va_lt h) (record {
        write_counted = w.write_counted;
        ack_counted = refl;
        vs_lt = w.vs_lt;
        vr_lt = w.vr_lt;
        va_lt = add_mod-lt c.mode.extended c.va (min (length c.ack_queue) d);
        window_pos = w.window_pos;
        window_lt = w.window_lt;
        fits = omega (arith, length-drop d c.ack_queue, w.fits);
        outstanding = acked_outstanding c nr w h valid;
        transmits = w.transmits;
      })

abbrev pub in_range : {c : X75Cb} → Wf (core c) → InRange c
in_range w = record { vs_lt = w.vs_lt; vr_lt = w.vr_lt; va_lt = w.va_lt }

-- How far the window reaches from where the numbers start.
kick_room :
    ⦃o : Osmo⦄ (c : X75Cb)
    → Wf (core c)
    → (length c.ack_queue + room c ≡ c.window)
      × (dist (modulus c) c.va (kick_start c) ≡ length c.ack_queue)
kick_room c w =
    let e = c.mode.extended in
    ground (
      arith,
      dist_self e c.va w.va_lt,
      dist-add e c.va c.window w.va_lt w.window_lt,
      dist-split e c.va c.vs (kick_end c) w.va_lt w.vs_lt (add_mod-lt e c.va c.window),
    )

module _ ⦃o : Osmo⦄ (doc : Documented o) (mem : HasMemory o) where
  pub core-armed : (c : X75Cb) → core (armed c) ≡ core c
  unfolding start_t1timer
  core-armed c = ground arith

  sent_outstanding :
      (c : X75Cb)
      → Wf (core c)
      → let n = min (length c.write_queue) (room c) in
        length (c.ack_queue ++ take (room c) c.write_queue)
        ≡ dist (modulus c) c.va ((kick_start c + n) % modulus c)
  sent_outstanding c w =
      let n = min (length c.write_queue) (room c) in
      let e = c.mode.extended in
      let (full, at) = kick_room c w in
      omega (
        arith,
        length-append c.ack_queue (take (room c) c.write_queue),
        length-take (room c) c.write_queue,
        dist-plus e c.va (kick_start c) n w.va_lt (kick_start-lt c (in_range w))
            (omega (arith, w.window_lt)),
      )

  pub kicked-Wf : (c : X75Cb) → Wf (core c) → Wf (core (kicked c))
  kicked-Wf c w =
      let n = min (length c.write_queue) (room c) in
      rw
        (core-armed (
          flight c ((kick_start c + n) % modulus c) (drop (room c) c.write_queue)
            (c.ack_queue ++ take (room c) c.write_queue)
            (c.events ++ iframes c (kick_start c) (take (room c) c.write_queue))))
        (record {
          write_counted = refl;
          ack_counted = refl;
          vs_lt = add_mod-lt c.mode.extended (kick_start c) n;
          vr_lt = w.vr_lt;
          va_lt = w.va_lt;
          window_pos = w.window_pos;
          window_lt = w.window_lt;
          fits = omega (
            arith,
            length-append c.ack_queue (take (room c) c.write_queue),
            length-take (room c) c.write_queue,
            (kick_room c w).0,
          );
          outstanding = inr (sent_outstanding c w);
          transmits = w.transmits;
        })

  -- From a well-formed link `x75_kick` returns, and the link is well formed again: it is never
  -- handed a null pointer, the program does not exit, and no more frames than the window allows
  -- await acknowledgement.
  pub kick-Wf : (c : X75Cb) → Wf (core c) → (c' : X75Cb) × (kick c ≡ returns c') × Wf (core c')
  unfolding kick
  kick-Wf c w = elim (Bool-cases (may_send c)) [
    | inl go ↦ (
      kicked c,
      kick-eq doc mem c (record { write_counted = w.write_counted; ack_counted = w.ack_counted })
          w.transmits (in_range w) go,
      kicked-Wf c w,
    )
    | inr idle ↦ (c, rw (idle, kick), w)
  ]
