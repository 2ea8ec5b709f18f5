-- ===== src/X75/Examples/Events.antt =====
-- Links from `x75_register` on, and what happens to them.
use ras.Base.{◌≡◌, refl, true, false, [], ◌∷◌, arith}
use ras.Osmo.Concrete.{lists, lists-Documented, lists-HasMemory}
use ras.X75.Core.{core}
use ras.X75.Wf.{Wf}
use ras.X75.Life.Carried.{happens-Wf}
use ras.X75.Types.{data_transfer, X75Cb}
use ras.X75.Kick.{kick, establish_data_link, check_iframes_acked, returns}
use ras.X75.Iface.{register, connect_request, data_received}
use ras.X75.Transfer.{data_input, state_machine, state3_machine, on_info, in_sequence}
use ras.X75.Queues.{validate_nr, frames_acked}
use ras.X75.Frame.{decode, decode_standard}
use ras.X75.Types.{frame_type}
use ras.X75.In.{state0_machine, accept_link, reset_link, send_ua}
use ras.X75.Send.{connect_indication, data_indication, send_control}
use ras.X75.Expiry.{expires, t1_expires, t1_dispatch, retry_connection}
use ras.X75.Timer.{start_t1timer, start_t2timer, stop_t2timer}
use ras.X75.Life.{
  connects, receives, t1_runs_out, left, happens, Reach, here, next, upper, standing,
}
use ras.X75.Life.Service.{label, Answers}
use ras.X75.Life.Refines.{happens-Answers}
use ras.X75.Life.Order.{InOrder, ups, carries, run-Orderly}
use ras.X75.Life.Watch.{Armed}
use ras.X75.Life.Guard.{run-IsWatched}
use ras.X75.Examples.{all_set, no_frame, busy_link, busy_link-Wf, rr_0, rr_0-KeepsLink}

-- A DISC command with the P bit, as it arrives.
happens-Answers_example :
    Answers busy_link.mode
      (label (receives no_frame (1 ∷ 83 ∷ [])) busy_link)
      data_transfer
      (standing busy_link)
      (standing (left (happens (receives no_frame (1 ∷ 83 ∷ [])) busy_link)))
happens-Answers_example = happens-Answers (receives no_frame (1 ∷ 83 ∷ [])) busy_link refl

-- The memory that the link is registered in is cleared.
abbrev zeroed : X75Cb
zeroed = record busy_link { vs = 0; vr = 0; va = 0; write_queue_count = 0; ack_queue_count = 0 }

abbrev registered : X75Cb
registered = register all_set zeroed

-- A connect request, and T1 runs out once.
abbrev asked : X75Cb
asked = left (happens connects registered)

abbrev asked_again : X75Cb
asked_again = left (happens t1_runs_out asked)

asked_again-Reach : Reach registered asked_again
unfolding happens expires connect_request register start_t1timer establish_data_link stop_t2timer
    t1_expires t1_dispatch
asked_again-Reach = next (next here connects refl) t1_runs_out refl

run-IsWatched_example : Armed (standing asked_again)
unfolding happens expires connect_request register start_t1timer establish_data_link stop_t2timer
    t1_expires t1_dispatch send_control retry_connection
run-IsWatched_example =
    run-IsWatched lists-Documented all_set zeroed asked_again asked_again-Reach refl

-- A SABM command, and an I frame behind it.
abbrev taken : X75Cb
taken = left (happens (receives no_frame (1 ∷ 0x3F ∷ [])) registered)

abbrev given : X75Cb
given = left (happens (receives no_frame (1 ∷ 0 ∷ 42 ∷ [])) taken)

given-Reach : Reach registered given
unfolding happens data_received data_input decode register start_t1timer kick state_machine
    state0_machine decode_standard frame_type accept_link connect_indication reset_link send_ua
    send_control state3_machine on_info validate_nr check_iframes_acked frames_acked in_sequence
    data_indication start_t2timer
given-Reach =
    next (next here (receives no_frame (1 ∷ 0x3F ∷ [])) refl) (receives no_frame (1 ∷ 0 ∷ 42 ∷ []))
      refl

run-Orderly_example :
    InOrder false (upper given.events)
    × (carries given.state ≡ true → ups false (upper given.events) ≡ true)
unfolding register start_t1timer
run-Orderly_example = run-Orderly registered given refl refl refl given-Reach

happens-Wf_example :
    (c' : X75Cb) × (happens (receives no_frame rr_0) busy_link ≡ returns c') × Wf (core c')
happens-Wf_example =
    happens-Wf lists-Documented lists-HasMemory (receives no_frame rr_0) busy_link busy_link-Wf refl
      ((omega arith, (omega arith, tt)), rr_0-KeepsLink)
