-- ===== src/X75/Life/Untouched.antt =====
-- What leaves the standing of a link alone: the frames sent, the queues, and `x75_kick` where T1
-- runs (src/x75/x75_out.c, src/x75/x75_subr.c).
use ras.Base.{
  ℕ, zero, suc, ◌≡◌, refl, subst, ap, ◌*◌, ◌∙◌, Bool, true, false, Option, none, some, List, [],
  ◌∷◌, ◌++◌, append-nil, ◌==◌, if◌then◌else◌, ◌⊎◌, inl, inr, Bool-cases, arith,
}
use ras.Osmo.{Osmo, Msgb, t1timer_expiry}
use ras.X75.Types.{Kind, command, response, Event, X75Cb, modulus}
use ras.X75.Timer.{start_t1timer}
use ras.X75.Send.{call, data_transmit, transmit_buffer, send_control, transmit_frmr, send_iframe}
use ras.X75.Queues.{
  clear_queues, dequeue_ack, dequeue_write, enqueue_ack, enqueue_write, free_acked,
  frames_acked_loop, frames_acked, requeue_round, requeue_loop, requeue_frames,
}
use ras.X75.Kick.{
  Outcome, returns, exits, copies_null, send_and_keep, kick_next, kick_round, kick_loop, kick_done,
  set_ack_pending, kick_start, kick_end, may_send, kick, enquiry_response, timeout_response,
  check_need_response,
}
use ras.X75.Frame.{control_octets, frmr_octets}
use ras.X75.Life.{left, upper, Standing, standing}

pub upper-append : (es fs : List Event) → upper (es ++ fs) ≡ upper es ++ upper fs
upper-append [] fs = refl
upper-append (Event.data_transmit b ∷ es) fs = upper-append es fs
upper-append (Event.data_indication b ∷ es) fs =
    ap (λ l. Event.data_indication b ∷ l) (upper-append es fs)
upper-append (Event.connect_confirmation r ∷ es) fs =
    ap (λ l. Event.connect_confirmation r ∷ l) (upper-append es fs)
upper-append (Event.connect_indication r ∷ es) fs =
    ap (λ l. Event.connect_indication r ∷ l) (upper-append es fs)
upper-append (Event.disconnect_confirmation r ∷ es) fs =
    ap (λ l. Event.disconnect_confirmation r ∷ l) (upper-append es fs)
upper-append (Event.disconnect_indication r ∷ es) fs =
    ap (λ l. Event.disconnect_indication r ∷ l) (upper-append es fs)

-- A branch leaves what both its sides leave.
pub standing-either :
    (b : Bool) (x y : X75Cb) {s : Standing}
    → standing x ≡ s
    → standing y ≡ s
    → standing (if b then x else y) ≡ s
standing-either true x y p q = p
standing-either false x y p q = q

standing-data_transmit : (b : Msgb) (c : X75Cb) → standing (data_transmit b c) ≡ standing c
unfolding data_transmit
standing-data_transmit b c =
    standing-either c.callbacks.data_transmit (call (Event.data_transmit b) c) c
      (ap (λ l. record (standing c) { told = l })
        (upper-append c.events (Event.data_transmit b ∷ []) ∙ append-nil (upper c.events)))
      refl

module _ ⦃o : Osmo⦄ where
  standing-transmit_buffer :
      (b : Msgb) (k : Kind) (c : X75Cb) → standing (transmit_buffer b k c) ≡ standing c
  unfolding transmit_buffer
  standing-transmit_buffer b k c = standing-data_transmit _ c

  pub standing-send_control :
      (t : ℕ) (poll : Bool) (k : Kind) (c : X75Cb) → standing (send_control t poll k c) ≡ standing c
  unfolding send_control
  standing-send_control t poll k c =
      elim (o.msgb_alloc 23)
        as (λ m.
          standing (elim m [
            | none ↦ c
            | some skb ↦ transmit_buffer (o.msgb_put skb (control_octets c.mode t poll c.vr)) k c
          ])
          ≡ standing c) [
            | none ↦ refl
            | some skb ↦
                standing-transmit_buffer (o.msgb_put skb (control_octets c.mode t poll c.vr)) k c
          ]

  pub standing-transmit_frmr : (c : X75Cb) → standing (transmit_frmr c) ≡ standing c
  unfolding transmit_frmr
  standing-transmit_frmr c =
      let octets = frmr_octets c.mode c.frmr_data c.frmr_type c.vs c.vr in
      elim (o.msgb_alloc 27)
        as (λ m.
          standing
            (elim m [ none ↦ c | some skb ↦ transmit_buffer (o.msgb_put skb octets) response c ])
          ≡ standing c) [
            | none ↦ refl
            | some skb ↦ standing-transmit_buffer (o.msgb_put skb octets) response c
          ]

  pub standing-enquiry_response : (c : X75Cb) → standing (enquiry_response c) ≡ standing c
  unfolding enquiry_response
  standing-enquiry_response c = standing-send_control 0x01 true response c

  pub standing-timeout_response : (c : X75Cb) → standing (timeout_response c) ≡ standing c
  unfolding timeout_response
  standing-timeout_response c = standing-send_control 0x01 false response c

  pub standing-check_need_response :
      (k : Option Kind) (pf : Bool) (c : X75Cb) → standing (check_need_response k pf c) ≡ standing c
  unfolding check_need_response
  standing-check_need_response (some command) true c = standing-enquiry_response c
  standing-check_need_response (some command) false c = refl
  standing-check_need_response (some response) pf c = refl
  standing-check_need_response none pf c = refl

  pub standing-clear_queues : (c : X75Cb) → standing (clear_queues c) ≡ standing c
  unfolding clear_queues
  standing-clear_queues c = refl

  pub standing-enqueue_write : (b : Msgb) (c : X75Cb) → standing (enqueue_write b c) ≡ standing c
  unfolding enqueue_write
  standing-enqueue_write b c = refl

  standing-frames_acked_loop :
      (f nr : ℕ) (c : X75Cb) → standing (frames_acked_loop f nr c) ≡ standing c
  unfolding frames_acked_loop free_acked
  standing-frames_acked_loop zero nr c = refl
  standing-frames_acked_loop (suc f) nr c =
      ground (arith, standing-frames_acked_loop f nr (free_acked c))

  pub standing-frames_acked : (nr : ℕ) (c : X75Cb) → standing (frames_acked nr c) ≡ standing c
  unfolding frames_acked
  standing-frames_acked nr c = ground (arith, standing-frames_acked_loop (modulus c) nr c)

  standing-requeue_round :
      (loop : X75Cb → X75Cb) (m : Option Msgb) (c : X75Cb)
      → ((d : X75Cb) → standing (loop d) ≡ standing d)
      → standing (requeue_round loop (m, c)) ≡ standing c
  unfolding requeue_round
  standing-requeue_round loop none c h = refl
  standing-requeue_round loop (some skb) c h =
      h (enqueue_write skb c) ∙ standing-enqueue_write skb c

  standing-requeue_loop : (f : ℕ) (c : X75Cb) → standing (requeue_loop f c) ≡ standing c
  unfolding requeue_loop dequeue_ack
  standing-requeue_loop zero c = refl
  standing-requeue_loop (suc f) c =
      standing-requeue_round (requeue_loop f) (dequeue_ack c).0 (dequeue_ack c).1
        (standing-requeue_loop f)

  pub standing-requeue_frames : (c : X75Cb) → standing (requeue_frames c) ≡ standing c
  unfolding requeue_frames
  standing-requeue_frames c = standing-requeue_loop _ c

  standing-send_and_keep : (b b' : Msgb) (c : X75Cb) → standing (send_and_keep b b' c) ≡ standing c
  unfolding send_and_keep enqueue_ack send_iframe
  standing-send_and_keep b b' c = standing-transmit_buffer _ command c

  standing-kick_round :
      (loop : Option Msgb → X75Cb → Outcome) (end : ℕ) (b : Msgb) (m : Option Msgb) (c : X75Cb)
      → ((n : Option Msgb) (d : X75Cb) → standing (left (loop n d)) ≡ standing d)
      → standing (left (kick_round loop end b m c)) ≡ standing c
  unfolding kick_round kick_next dequeue_write
  standing-kick_round loop end b none c h = refl
  standing-kick_round loop end b (some b') c h = elim (Bool-cases (sent.vs == end)) [
    | inl done ↦ rw done (standing-send_and_keep b b' c)
    | inr more ↦ rw more (go (dequeue_write sent).0 ∙ standing-send_and_keep b b' c)
  ]
    where
      sent : X75Cb
      sent = send_and_keep b b' c

      go :
          (m : Option Msgb)
          → standing (left (kick_next loop (m, (dequeue_write sent).1))) ≡ standing sent
      go none = refl
      go (some n) = h (some n) (dequeue_write sent).1

  standing-kick_loop :
      (f end : ℕ) (m : Option Msgb) (c : X75Cb) → standing (left (kick_loop f end m c)) ≡ standing c
  unfolding kick_loop
  standing-kick_loop zero end m c = refl
  standing-kick_loop (suc f) end none c = refl
  standing-kick_loop (suc f) end (some b) c =
      standing-kick_round (kick_loop f end) end b (o.msgb_copy b) c (standing-kick_loop f end)

  -- T1 runs, now if not before.
  abbrev pub with_t1 : Standing → Standing
  with_t1 s =
      let deleted = o.osmo_timer_del s.t1timer in
      let set_up = o.osmo_timer_setup deleted (some t1timer_expiry) in
      record s { t1timer = o.osmo_timer_schedule set_up 0 (s.t1 * 1000); t1timer_running = true }

  pub standing-start_t1timer : (c : X75Cb) → standing (start_t1timer c) ≡ with_t1 (standing c)
  unfolding start_t1timer
  standing-start_t1timer c = refl

  -- What `x75_kick` may do to the standing: start T1, if it does not run.
  abbrev pub KickedOn : Standing → Standing → Type 0
  KickedOn s s' = (s' ≡ s) ⊎ ((s.t1timer_running ≡ false) × (s' ≡ with_t1 s))

  started :
      (b : Bool) (x : X75Cb)
      → x.t1timer_running ≡ b
      → KickedOn (standing x) (standing (if b then x else start_t1timer x))
  started true x e = inl refl
  started false x e = inr (e, standing-start_t1timer x)

  standing-kick_done : (r : Outcome) → KickedOn (standing (left r)) (standing (left (kick_done r)))
  unfolding kick_done
  standing-kick_done (exits c) = inl refl
  standing-kick_done (copies_null c) = inl refl
  standing-kick_done (returns c) = started c.t1timer_running (set_ack_pending false c) refl

  standing-dequeue_write : (c : X75Cb) → standing (dequeue_write c).1 ≡ standing c
  unfolding dequeue_write
  standing-dequeue_write c = refl

  kick_either :
      (b : Bool) (r : Outcome) (c : X75Cb)
      → KickedOn (standing c) (standing (left r))
      → KickedOn (standing c) (standing (left (if b then r else returns c)))
  kick_either true r c k = k
  kick_either false r c k = inl refl

  -- `x75_kick`, however it ends.
  pub standing-kick : (c : X75Cb) → KickedOn (standing c) (standing (left (kick c)))
  unfolding kick
  standing-kick c =
      let (skb, taken) = dequeue_write (record c { vs = kick_start c }) in
      let sent = kick_loop (modulus c) (kick_end c) skb taken in
      let same : standing (left sent) ≡ standing c =
        standing-kick_loop (modulus c) (kick_end c) skb taken
        ∙ standing-dequeue_write (record c { vs = kick_start c }) in
      kick_either (may_send c) (kick_done sent) c
        (subst (λ s. KickedOn s (standing (left (kick_done sent)))) same (standing-kick_done sent))
