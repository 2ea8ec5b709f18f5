-- ===== src/X75/Reconnect.antt =====
-- `x75_clear_queues` and the counters beside the queues (src/x75/x75_subr.c), on a link that is
-- released while frames wait, and set up again.
use ras.Base.{
  ℕ, ◌<◌, ◌≡◌, ◌≢◌, ap, ◌∙◌, Bool, true, false, Option, none, some, [], if◌then◌else◌, arith,
}
use ras.Osmo.{Osmo, Documented, Msgb, Queue}
use ras.X75.Types.{
  Condition, disconnected, data_transfer, disc, sabm, Frame, X75Cb, modulus, modulus_of,
}
use ras.X75.Timer.{start_t1timer, stop_t1timer, stop_t2timer}
use ras.X75.Send.{send_control, connect_indication, disconnect_indication}
use ras.X75.Queues.{clear_queues, dequeue_write}
use ras.X75.Kick.{returns, copies_null, kick_loop, kick_done, kick_start, kick_end, may_send, kick}
use ras.X75.In.{reset_link, send_ua, send_dm, accept_link, state0_dispatch, state0_machine}
use ras.X75.Transfer.{on_disc, state3_dispatch, state3_machine, state_machine, input_decoded}

-- A link on which nothing waits any more, but on which frames to be sent are still counted.
record IsStale (c : X75Cb) : Type 0 where
  emptied : c.write_queue ≡ []
  still_counted : c.write_queue_count ≢ 0
  standard : c.mode.extended ≡ false
  window_pos : 0 < c.window
  window_lt : c.window < 8

module _ ⦃o : Osmo⦄ (doc : Documented o) where
  on_disc-IsStale :
      (f : Frame) (c : X75Cb)
      → c.write_queue_count ≢ 0
      → c.mode.extended ≡ false
      → 0 < c.window
      → c.window < 8
      → IsStale (on_disc f c)
  unfolding on_disc send_ua send_control start_t1timer stop_t2timer clear_queues
      disconnect_indication
  on_disc-IsStale f c n e p l = ground (arith, doc.queue_free c.write_queue)

  on_disc_rest :
      (f : Frame) (c : X75Cb)
      → ((on_disc f c).state ≡ disconnected) × ((on_disc f c).condition ≡ c.condition)
  unfolding on_disc send_ua send_control start_t1timer stop_t2timer clear_queues
      disconnect_indication
  on_disc_rest f c = ground arith

  accept_link-IsStale : (pf : Bool) (c : X75Cb) → IsStale c → IsStale (accept_link pf c)
  unfolding accept_link send_ua send_control reset_link stop_t1timer stop_t2timer connect_indication
  accept_link-IsStale pf c s = ground arith

  accept_link_rest :
      (pf : Bool) (c : X75Cb)
      → let c' = accept_link pf c in (c'.vs ≡ 0) × (c'.va ≡ 0) × (c'.condition.peer_rx_busy ≡ false)
  unfolding accept_link send_ua send_control reset_link stop_t1timer stop_t2timer connect_indication
  accept_link_rest pf c = ground arith

  stale_may_send :
      (c : X75Cb)
      → IsStale c
      → (c.vs ≡ 0) × (c.va ≡ 0) × (c.condition.peer_rx_busy ≡ false)
      → may_send c ≡ true
  stale_may_send c s h = ground arith

  kick_busy : (c : X75Cb) → c.condition.peer_rx_busy ≡ true → kick c ≡ returns c
  unfolding kick
  kick_busy c h = ground arith

  loop_from_null :
      (e : Bool) (end : ℕ) (skb : Option Msgb) (c : X75Cb)
      → skb ≡ none
      → kick_done (kick_loop (modulus_of e) end skb c) ≡ copies_null c
  unfolding kick_loop kick_done
  loop_from_null true end skb c h = rw h
  loop_from_null false end skb c h = rw h

  dequeue_write-none : (c : X75Cb) → c.write_queue ≡ [] → (dequeue_write c).0 ≡ none
  unfolding dequeue_write
  dequeue_write-none c h =
      ap (λ q. (o.msgb_dequeue_count q c.write_queue_count).0) h
      ∙ ap (λ (r : Option Msgb × Queue × ℕ). r.0) (doc.dequeue_empty c.write_queue_count)

  kick_stale :
      (c : X75Cb)
      → IsStale c
      → (c.vs ≡ 0) × (c.va ≡ 0) × (c.condition.peer_rx_busy ≡ false)
      → (c' : X75Cb) × (kick c ≡ copies_null c')
  unfolding kick
  kick_stale c s h =
      let from = record c { vs = kick_start c } in
      let (skb, taken) = dequeue_write from in
      let goes : may_send c ≡ true = stale_may_send c s h in
      (
        taken,
        ap (λ b. if b then kick_done (kick_loop (modulus c) (kick_end c) skb taken) else returns c)
              goes
            ∙ loop_from_null c.mode.extended (kick_end c) skb taken
                (dequeue_write-none from s.emptied),
      )

  -- In the data transfer state and standard mode, with a window from 1 to 7, let the peer be busy
  -- and frames to be sent be counted. On a DISC frame the call returns, and on a SABM frame that
  -- comes next `x75_kick` hands the null pointer of the empty queue to `msgb_copy`.
  pub reconnect_copies_null :
      (f1 f2 : Frame) (b1 b2 : Msgb) (c : X75Cb)
      → c.state ≡ data_transfer
      → c.condition.peer_rx_busy ≡ true
      → c.write_queue_count ≢ 0
      → c.mode.extended ≡ false
      → 0 < c.window
      → c.window < 8
      → f1.type ≡ disc
      → f2.type ≡ sabm
      → (c1 : X75Cb) × (c2 : X75Cb) × (input_decoded (some (f1, b1)) c ≡ returns c1)
        × (input_decoded (some (f2, b2)) c1 ≡ copies_null c2)
  unfolding input_decoded state_machine state3_machine state3_dispatch state0_machine
  reconnect_copies_null f1 f2 b1 b2 c st busy n e p l d m =
      let c1 = on_disc f1 c in
      let up = accept_link f2.pf c1 in
      let (down, same) = on_disc_rest f1 c in
      let stale = on_disc-IsStale f1 c n e p l in
      let (c2, crash) =
        kick_stale up (accept_link-IsStale f2.pf c1 stale) (accept_link_rest f2.pf c1) in
      let released : state_machine c.state b1 f1 c ≡ c1 =
        ap (λ s. state_machine s b1 f1 c) st ∙ ap (λ t. state3_dispatch t b1 f1 c) d in
      let accepted : state_machine c1.state b2 f2 c1 ≡ up =
        ap (λ s. state_machine s b2 f2 c1) down
        ∙ (ap (λ t. state0_dispatch t f2 c1) m
            ∙ ap (λ x. if x then send_dm f2.pf c1 else up) stale.standard) in
      (
        c1,
        c2,
        ap kick released ∙ kick_busy c1 (ap (λ (k : Condition). k.peer_rx_busy) same ∙ busy),
        ap kick accepted ∙ crash,
      )
