-- ===== src/X75/Kick.antt =====
-- Sending what the window allows, and the replies (src/x75/x75_out.c).
use ras.Base.{ℕ, zero, suc, ◌+◌, ◌%◌, Bool, true, false, not, ◌&&◌, Option, none, some}
use ras.Base.{◌==◌, if◌then◌else◌, ◌▹◌}
use ras.Osmo.{Osmo, Msgb}
use ras.X75.Types.{Kind, command, response, no_condition, X75Cb, modulus}
use ras.X75.Timer.{start_t1timer, stop_t1timer, stop_t2timer}
use ras.X75.Send.{send_control, send_iframe}
use ras.X75.Queues.{frames_acked, dequeue_write, enqueue_ack}

-- How a call ends that may send I frames: it returns; a buffer could not be copied, and the
-- program exits; or `msgb_copy` was handed the null pointer of an empty queue.
pub data Outcome : Type 0 where
  returns : X75Cb → Outcome
  exits : X75Cb → Outcome
  copies_null : X75Cb → Outcome

abbrev pub set_ack_pending : Bool → X75Cb → X75Cb
set_ack_pending b c = record c { condition = record (c.condition) { ack_pending = b } }

abbrev pub set_rejected : Bool → X75Cb → X75Cb
set_rejected b c = record c { condition = record (c.condition) { rejected = b } }

abbrev pub set_peer_rx_busy : Bool → X75Cb → X75Cb
set_peer_rx_busy b c = record c { condition = record (c.condition) { peer_rx_busy = b } }

module _ ⦃o : Osmo⦄ where
  -- What the body of the loop does with a frame and its copy.
  unfoldable pub send_and_keep : Msgb → Msgb → X75Cb → X75Cb
  send_and_keep skb skbn c =
      let sent = send_iframe skbn false c in
      enqueue_ack skb (record sent { vs = (sent.vs + 1) % modulus sent })

  -- The end of a round: the loop goes on with the next frame, if there is one.
  unfoldable pub kick_next : (Option Msgb → X75Cb → Outcome) → Option Msgb × X75Cb → Outcome
  kick_next loop (none, c) = returns c
  kick_next loop (some skb, c) = loop (some skb) c

  -- A round, by the copy of the frame; `vs` has reached `end` in the last.
  unfoldable pub kick_round :
      (Option Msgb → X75Cb → Outcome) → ℕ → Msgb → Option Msgb → X75Cb → Outcome
  kick_round loop end skb none c = exits c
  kick_round loop end skb (some skbn) c =
      let c' = send_and_keep skb skbn c in
      if c'.vs == end then returns c' else kick_next loop (dequeue_write c')

  -- The `do … while`, from the frame (or null pointer) in `skb`.
  unfoldable pub kick_loop : ℕ → ℕ → Option Msgb → X75Cb → Outcome
  unfolding kick_round kick_next
  kick_loop zero end skb c = returns c
  kick_loop (suc f) end none c = copies_null c
  kick_loop (suc f) end (some skb) c = kick_round (kick_loop f end) end skb (o.msgb_copy skb) c

  -- After the loop.
  unfoldable pub kick_done : Outcome → Outcome
  kick_done (returns c) =
      let c' = set_ack_pending false c in
      returns (if c'.t1timer_running then c' else start_t1timer c')
  kick_done (exits c) = exits c
  kick_done (copies_null c) = copies_null c

  abbrev pub kick_start : X75Cb → ℕ
  kick_start c = if c.ack_queue_count == 0 then c.va else c.vs

  abbrev pub kick_end : X75Cb → ℕ
  kick_end c = (c.va + c.window) % modulus c

  -- What `x75_kick` tests: the peer takes frames, the window is open, there is one to send.
  abbrev pub may_send : X75Cb → Bool
  may_send c =
      not c.condition.peer_rx_busy
      && not (kick_start c == kick_end c)
      && not (c.write_queue_count == 0)

  unfoldable pub kick : X75Cb → Outcome
  unfolding kick_done
  kick c =
      let (skb, taken) = dequeue_write (record c { vs = kick_start c }) in
      let sent = kick_done (kick_loop (modulus c) (kick_end c) skb taken) in
      if may_send c then sent else returns c

  -- X75_SABM and the other codes are written out.
  unfoldable pub establish_data_link : X75Cb → X75Cb
  establish_data_link c =
      let cleared = record c { condition = no_condition; n2count = 0 } in
      send_control (if cleared.mode.extended then 0x6F else 0x2F) true command cleared
      ▹ start_t1timer
      ▹ stop_t2timer

  unfoldable pub enquiry_response : X75Cb → X75Cb
  enquiry_response c = c ▹ send_control 0x01 true response ▹ set_ack_pending false

  unfoldable pub timeout_response : X75Cb → X75Cb
  timeout_response c = c ▹ send_control 0x01 false response ▹ set_ack_pending false

  abbrev clear_n2count : X75Cb → X75Cb
  clear_n2count c = record c { n2count = 0 }

  unfoldable pub check_iframes_acked : ℕ → X75Cb → X75Cb
  check_iframes_acked nr c =
      if c.vs == nr
      then c ▹ frames_acked nr ▹ stop_t1timer ▹ clear_n2count
      else if not (c.va == nr)
      then c ▹ frames_acked nr ▹ start_t1timer
      else c

  unfoldable pub check_need_response : Option Kind → Bool → X75Cb → X75Cb
  check_need_response (some command) true c = enquiry_response c
  check_need_response type pf c = c
