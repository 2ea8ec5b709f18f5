-- ===== src/Gateway/X75/Flow.antt =====
-- The flow control between the TCP connection and the link in src/yate_x75.c.
use ras.Base.{
  ℕ, ◌+◌, ◌≤◌, ◌≡◌, refl, sym, subst, ap, ◌∙◌, inl, inr, Bool, true, false, not, if◌then◌else◌,
  List, [], ◌∷◌, length, length-drop, take, drop, ◌++◌, Bool-cases, arith,
}
use ras.Osmo.{Osmo, Documented, HasMemory}
use ras.X75.Types.{
  State, disconnected, awaiting_connection, awaiting_disconnection, data_transfer, frame_reject,
  X75Cb, connect_confirmation, connect_indication, disconnect_confirmation, disconnect_indication,
  data_indication, data_transmit,
}
use ras.X75.Types
use ras.X75.Queues.{enqueue_write}
use ras.X75.Kick.{Outcome, returns, exits, copies_null, may_send, kick}
use ras.X75.Sending.{flight}
use ras.X75.Window.{kick-eq, kicked, room, armed}
use ras.X75.Timer.{start_t1timer}
use mathlib.Core.Bool.{true≢false}
use ras.X75.Iface.{data_dispatch, data_request}
use ras.X75.Core.{core}
use ras.X75.Wf.{Wf, in_range, kicked-Wf}
use ras.X75.Input.{enqueue_write-Wf}
use ras.Line.{Hdlc}
use ras.Gateway.X75.{
  Gateway, Ended, ended, exited, null_copied, tcp_disconnected, max_write_queue, read_block_size,
  carries_data, x75_can_write, call_back, call_backs, on_link, telnet_read, telnet_rx_cb,
}

module _ ⦃o : Osmo⦄ (doc : Documented o) (mem : HasMemory o) where
  armed-count : (c : X75Cb) → (armed c).write_queue_count ≡ c.write_queue_count
  unfolding start_t1timer
  armed-count c = ground arith

  -- `x75_kick` leaves no more frames to be sent than there were.
  kick_at_most :
      (c : X75Cb)
      → Wf (core c)
      → (c' : X75Cb) × (kick c ≡ returns c')
        × Wf (core c')
        × (c'.write_queue_count ≤ c.write_queue_count)
  unfolding kick
  kick_at_most c w = elim (Bool-cases (may_send c)) [
    | inl go ↦ (
      kicked c,
      kick-eq doc mem c (record { write_counted = w.write_counted; ack_counted = w.ack_counted })
          w.transmits (in_range w) go,
      kicked-Wf doc mem c w,
      omega (
        arith,
        armed-count (flight c _ (drop (room c) c.write_queue) _ _),
        length-drop (room c) c.write_queue,
        w.write_counted,
      ),
    )
    | inr idle ↦ (c, rw (idle, kick), w, omega arith)
  ]

  request_at_most :
      (skb : List ℕ) (c : X75Cb)
      → Wf (core c)
      → carries_data c.state ≡ true
      → (c' : X75Cb) × ((data_request skb c).1 ≡ returns c')
        × Wf (core c')
        × (c'.write_queue_count ≤ c.write_queue_count + 1)
  unfolding data_request enqueue_write
  request_at_most skb c w s =
      let queued : (enqueue_write skb c).write_queue_count ≡ c.write_queue_count + 1 =
        ap (λ r. r.1) (doc.enqueue c.write_queue skb c.write_queue_count) in
      let (c', ends, w', fewer) =
        kick_at_most (enqueue_write skb c) (enqueue_write-Wf doc mem skb c w) in
      (c', by_state c.state s ∙ ends, w', omega (arith, queued))
    where
      by_state :
          (t : State)
          → carries_data t ≡ true
          → (data_dispatch t skb c).1 ≡ kick (enqueue_write skb c)
      by_state data_transfer e = refl
      by_state frame_reject e = refl
      by_state disconnected e = absurd (true≢false (sym e))
      by_state awaiting_connection e = absurd (true≢false (sym e))
      by_state awaiting_disconnection e = absurd (true≢false (sym e))

module _ (h : Hdlc) (wrote : ℕ → ℕ) where
  call_backs-link :
      (events : List Types.Event) (g : Gateway h)
      → (call_backs h wrote events g).x75_instance ≡ g.x75_instance
  unfolding call_backs call_back
  call_backs-link [] g = refl
  call_backs-link (connect_confirmation c ∷ events) g = call_backs-link events _
  call_backs-link (connect_indication c ∷ events) g = call_backs-link events _
  call_backs-link (disconnect_confirmation c ∷ events) g = call_backs-link events _
  call_backs-link (disconnect_indication c ∷ events) g = call_backs-link events _
  call_backs-link (data_transmit skb ∷ events) g = call_backs-link events _
  call_backs-link (data_indication skb ∷ events) g = call_backs-link events _ ∙ by_test g.telnet
    where
      by_test :
          (b : Bool)
          → (if b
              then record g { telnet_out = g.telnet_out ++ take (wrote (length skb)) skb }
              else g).x75_instance
            ≡ g.x75_instance
      by_test true = refl
      by_test false = refl

module _ (h : Hdlc) (wrote : ℕ → ℕ) ⦃o : Osmo⦄ (doc : Documented o) (mem : HasMemory o) where
  -- The program is ended well: the link is well formed, with at most nine frames to be sent.
  abbrev pub Bounded : Gateway h → Type 0
  Bounded g = Wf (core g.x75_instance) × (g.x75_instance.write_queue_count ≤ 9)

  can_write_parts :
      (c : X75Cb)
      → x75_can_write c ≡ true
      → (carries_data c.state ≡ true) × (c.write_queue_count ≤ max_write_queue)
  unfolding x75_can_write
  can_write_parts c e = (ground arith, ground arith)

  on_link-request :
      (octets : List ℕ) (g : Gateway h)
      → Bounded g
      → x75_can_write g.x75_instance ≡ true
      → (g' : Gateway h) × (on_link h wrote (λ c. (data_request octets c).1) g ≡ ended g')
        × Bounded g'
  unfolding on_link
  on_link-request octets g (w, few) e =
      let link = record (g.x75_instance) { events = [] } in
      let (state, room_left) = can_write_parts g.x75_instance e in
      let (c, ends, w', more) = request_at_most doc mem octets link w state in
      let after = record g { x75_instance = record c { events = [] } } in
      let same = call_backs-link h wrote c.events after in
      (
        call_backs h wrote c.events after,
        ap by_outcome ends,
        subst (λ l. Wf (core l) × (l.write_queue_count ≤ 9)) (sym same) (w', omega arith),
      )
    where
      by_outcome : Outcome → Ended (Gateway h)
      by_outcome r = elim r [
        | returns c ↦
            ended
              (call_backs h wrote c.events (record g { x75_instance = record c { events = [] } }))
        | exits c ↦ exited
        | copies_null c ↦ null_copied
      ]

  telnet_read-Bounded :
      (octets : List ℕ) (g : Gateway h)
      → Bounded g
      → x75_can_write g.x75_instance ≡ true
      → (g' : Gateway h) × (telnet_read h wrote octets g ≡ ended g') × Bounded g'
  unfolding telnet_read
  telnet_read-Bounded [] g b e = (record g { phase = tcp_disconnected }, refl, b)
  telnet_read-Bounded (x ∷ xs) g b e = on_link-request (take read_block_size (x ∷ xs)) g b e

  -- On a well-formed link with at most nine frames to be sent, `telnet_rx_cb` returns and leaves it so,
  -- whatever is read, and the program neither exits nor hands on a null pointer. Nine is one more than
  -- X75_FLOW_CONTROL_MAX_WRITE_QUEUE says. Frames that the link takes back to send them again are not
  -- spoken of: they can make the queue longer.
  pub telnet_rx_cb-Bounded :
      (octets : List ℕ) (g : Gateway h)
      → Bounded g
      → (g' : Gateway h) × (telnet_rx_cb h wrote octets g ≡ ended g') × Bounded g'
  unfolding telnet_rx_cb
  telnet_rx_cb-Bounded octets g b = elim (Bool-cases (x75_can_write g.x75_instance)) [
    | inl can ↦
        let (g', ends, b') = telnet_read-Bounded octets g b can in
        (g', ap (λ t. if not t then ended g else telnet_read h wrote octets g) can ∙ ends, b')
    | inr full ↦ (g, ap (λ t. if not t then ended g else telnet_read h wrote octets g) full, b)
  ]
