-- ===== src/X75/Retry.antt =====
-- Expiries of T1 one after another, on a link that waits for an answer (src/x75/x75_timer.c).
use ras.Base.{ℕ, zero, suc, ◌+◌, ◌<◌, ◌≡◌, ap, ◌∙◌, Bool, true, false, [], ◌==◌, arith}
use ras.Osmo.{Osmo, Documented}
use ras.X75.Types.{
  State, disconnected, data_transfer, awaiting_connection, awaiting_disconnection, frame_reject,
  X75Cb,
}
use ras.X75.Timer.{start_t1timer}
use ras.X75.Send.{send_control, transmit_frmr, disconnect_indication, disconnect_confirmation}
use ras.X75.Queues.{clear_queues}
use ras.X75.Kick.{Outcome, returns, exits, copies_null}
use ras.X75.Expiry.{
  give_up, give_up_release, retry_connection, retry_release, retry_frmr, t1_dispatch, t1_expires,
}

-- The states that wait for an answer to a frame that is sent again when T1 runs out.
abbrev pub waits : State → Bool
waits awaiting_connection = true
waits awaiting_disconnection = true
waits frame_reject = true
waits _ = false

-- The next expiry, if the last one returned.
abbrev pub and_then : (X75Cb → Outcome) → Outcome → Outcome
and_then f (returns c) = f c
and_then f (exits c) = exits c
and_then f (copies_null c) = copies_null c

-- T1 runs out `n` times, with nothing else between. A timer that has run out is not pending.
unfoldable pub t1_runs_out : ⦃o : Osmo⦄ → ℕ → X75Cb → Outcome
t1_runs_out zero c = returns c
t1_runs_out ⦃o⦄ (suc n) c =
    and_then (t1_runs_out n) (t1_expires (record c { t1timer = o.osmo_timer_del c.t1timer }))

pub record Waits (c : X75Cb) (k : ℕ) : Type 0 where
  pub waiting : waits c.state ≡ true
  pub running : c.t1timer_running ≡ true
  pub left : c.n2count + k ≡ c.n2
  pub small : c.n2 < 65536

pub record GivenUp (c : X75Cb) : Type 0 where
  pub down : c.state ≡ disconnected
  pub stopped : c.t1timer_running ≡ false
  pub nothing_to_send : c.write_queue ≡ []
  pub nothing_awaited : c.ack_queue ≡ []

module _ ⦃o : Osmo⦄ where
  fired-Waits :
      {k : ℕ} (c : X75Cb) → Waits c k → Waits (record c { t1timer = o.osmo_timer_del c.t1timer }) k
  fired-Waits c w = record {
    waiting = w.waiting;
    running = w.running;
    left = w.left;
    small = w.small;
  }

  retries_left : (k : ℕ) (c : X75Cb) → Waits c (suc k) → (c.n2count == c.n2) ≡ false
  retries_left k c w = ground arith

  none_left : (c : X75Cb) → Waits c 0 → (c.n2count == c.n2) ≡ true
  none_left c w = ground arith

  retry_connection-Waits : (k : ℕ) (c : X75Cb) → Waits c (suc k) → Waits (retry_connection c) k
  unfolding retry_connection send_control start_t1timer
  retry_connection-Waits k c w = ground arith

  retry_release-Waits : (k : ℕ) (c : X75Cb) → Waits c (suc k) → Waits (retry_release c) k
  unfolding retry_release send_control start_t1timer
  retry_release-Waits k c w = ground arith

  retry_frmr-Waits : (k : ℕ) (c : X75Cb) → Waits c (suc k) → Waits (retry_frmr c) k
  unfolding retry_frmr transmit_frmr start_t1timer
  retry_frmr-Waits k c w = ground arith

  module _ (doc : Documented o) where
    give_up-GivenUp : (c : X75Cb) → GivenUp (give_up c)
    unfolding give_up clear_queues disconnect_indication
    give_up-GivenUp c = ground (arith, doc.queue_free c.write_queue, doc.queue_free c.ack_queue)

    give_up_release-GivenUp : (c : X75Cb) → GivenUp (give_up_release c)
    unfolding give_up_release clear_queues disconnect_confirmation
    give_up_release-GivenUp c =
        ground (arith, doc.queue_free c.write_queue, doc.queue_free c.ack_queue)

    dispatch_retry :
        (s : State) (k : ℕ) (c : X75Cb)
        → waits s ≡ true
        → Waits c (suc k)
        → (c' : X75Cb) × (t1_dispatch s c ≡ returns c') × Waits c' k
    unfolding t1_dispatch
    dispatch_retry awaiting_connection k c h w =
        (retry_connection c, rw (retries_left k c w), retry_connection-Waits k c w)
    dispatch_retry awaiting_disconnection k c h w =
        (retry_release c, rw (retries_left k c w), retry_release-Waits k c w)
    dispatch_retry frame_reject k c h w =
        (retry_frmr c, rw (retries_left k c w), retry_frmr-Waits k c w)
    dispatch_retry disconnected k c h w = cc
    dispatch_retry data_transfer k c h w = cc

    dispatch_last :
        (s : State) (c : X75Cb)
        → waits s ≡ true
        → Waits c 0
        → (c' : X75Cb) × (t1_dispatch s c ≡ returns c') × GivenUp c'
    unfolding t1_dispatch
    dispatch_last awaiting_connection c h w = (give_up c, rw (none_left c w), give_up-GivenUp c)
    dispatch_last awaiting_disconnection c h w =
        (give_up_release c, rw (none_left c w), give_up_release-GivenUp c)
    dispatch_last frame_reject c h w = (give_up c, rw (none_left c w), give_up-GivenUp c)
    dispatch_last disconnected c h w = cc
    dispatch_last data_transfer c h w = cc

    -- A timer that runs is heard when it runs out.
    t1_expires-eq :
        (c : X75Cb)
        → c.t1timer_running ≡ true
        → let c' = record c { t1timer = o.osmo_timer_del c.t1timer } in
          t1_expires c' ≡ t1_dispatch c.state c'
    unfolding t1_expires
    t1_expires-eq c r = ground (arith, doc.del_pending c.t1timer)

    -- In the states that await a connection or a release, and in the frame reject state, with T1
    -- running and `k` retries left before N2, which is below 2 ^ 16: if T1 runs out `k + 1` times and nothing else
    -- happens, the link is down, nothing waits in its queues, and T1 has stopped.
    pub gives_up_after_n2 :
        (k : ℕ) (c : X75Cb)
        → Waits c k
        → (c' : X75Cb) × (t1_runs_out (suc k) c ≡ returns c') × GivenUp c'
    unfolding t1_runs_out
    gives_up_after_n2 zero c w =
        let d = record c { t1timer = o.osmo_timer_del c.t1timer } in
        let (c', r, g) = dispatch_last c.state d w.waiting (fired-Waits c w) in
        (c', ap (and_then (t1_runs_out 0)) (t1_expires-eq c w.running ∙ r), g)
    gives_up_after_n2 (suc k) c w =
        let d = record c { t1timer = o.osmo_timer_del c.t1timer } in
        let (c', r, w') = dispatch_retry c.state k d w.waiting (fired-Waits c w) in
        let (e, rest, g) = gives_up_after_n2 k c' w' in
        (e, ap (and_then (t1_runs_out (suc k))) (t1_expires-eq c w.running ∙ r) ∙ rest, g)
