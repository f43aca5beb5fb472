-- ===== src/Examples/Outbox.antt =====
-- Queueing and draining at concrete inputs.
use open_troop.Prelude.{
  ◌+◌, ◌≡◌, refl, ◌⊎◌, true, false, none, some, [], ◌∷◌, map, arith, length, take, drop,
}
use open_troop.Doc.{Json, null}
use open_troop.Db.{participant_update, participant_create, pending, ok}
use open_troop.Commands.{
  build_request, merge_payload, set_payload, enqueue_command, list_commands, run_commands,
}
use open_troop.Commands.Queue.{IsQueue}
use open_troop.Commands.Enqueue.{
  waiting, with_commands, enqueue_command_merges, enqueue_command-IsQueue,
}
use open_troop.Commands.Drain.{
  run_ops, nothing_sent, settle, drain_queue, run_drain, HttpResponse, enqueue,
}
use open_troop.Commands.Drain.Steps.{verdict, accepted}
use open_troop.Commands.Drain.Order.{recorded, attempted, drain_queue-fifo}
use open_troop.Commands.Drain.Removal.{failed_count}
use open_troop.Commands.Drain.Accounts.{drain_queue_accounts}
use open_troop.Commands.Drain.Lost.{enqueue_while_sending_lost}
use open_troop.Examples.Data.{going, declined, second_command, two_events, always}

pub two_events-IsQueue : IsQueue two_events.pending_commands
two_events-IsQueue = ((record { ids = refl; ordered = omega arith; targets = refl }, tt), (tt, tt))

-- A second answer for the same member merges into the queued command.
waiting_second : waiting participant_update declined two_events ≡ some second_command
unfolding run_commands
waiting_second = refl

enqueue_command_merges_example :
    enqueue_command "c3" "t3" participant_update declined two_events ≡ (
      ok (record second_command { payload = merge_payload going declined }),
      with_commands
          (map (set_payload "c2" (merge_payload going declined)) two_events.pending_commands)
          two_events,
    )
enqueue_command_merges_example =
    enqueue_command_merges "c3" "t3" participant_update declined two_events second_command
      two_events-IsQueue waiting_second

waiting-none : waiting participant_create going two_events ≡ none
unfolding run_commands
waiting-none = refl

enqueue_command-IsQueue_example :
    IsQueue (enqueue_command "c3" "t3" participant_create going two_events).1.pending_commands
enqueue_command-IsQueue_example =
    enqueue_command-IsQueue "c3" "t3" participant_create going two_events two_events-IsQueue

drain_queue-fifo_example :
    (drain_queue (recorded (always 200)) (tt, []) two_events).1.1
    ≡ map build_request (
        take
          (attempted (drain_queue (recorded (always 200)) (tt, []) two_events).0)
          (list_commands (some pending) two_events))
drain_queue-fifo_example = drain_queue-fifo (always 200) tt two_events

drain_queue_accounts_example :
    (list_commands (some pending) (drain_queue (always 404) tt two_events).2
      ≡ drop
          ((drain_queue (always 404) tt two_events).0.sent
            + (drain_queue (always 404) tt two_events).0.failed)
          (list_commands (some pending) two_events))
    × (((drain_queue (always 404) tt two_events).0.halted ≡ true)
        ⊎ ((drain_queue (always 404) tt two_events).0.sent
              + (drain_queue (always 404) tt two_events).0.failed
            ≡ length (list_commands (some pending) two_events)))
    × (failed_count (drain_queue (always 404) tt two_events).2.pending_commands
        ≡ failed_count two_events.pending_commands
          + (drain_queue (always 404) tt two_events).0.failed)
    × IsQueue (drain_queue (always 404) tt two_events).2.pending_commands
drain_queue_accounts_example =
    drain_queue_accounts (always 404) tt two_events (λ request w. refl) two_events-IsQueue

drain_404 :
    (drain_queue (always 404) tt two_events).0
    ≡ record { sent = 0; failed = 2; halted = false; needs_auth = false }
unfolding run_drain
drain_404 = refl

drain_401 :
    (drain_queue (always 401) tt two_events).0
    ≡ record { sent = 0; failed = 0; halted = true; needs_auth = true }
unfolding run_drain
drain_401 = refl

abbrev accepted_reply : HttpResponse Json
accepted_reply = record { status = 200; body = null }

accepted_200 : verdict participant_update (some accepted_reply) ≡ accepted
unfolding verdict
accepted_200 = refl

enqueue_while_sending_lost_example :
    settle second_command nothing_sent
      (some accepted_reply)
      "later"
      (run_ops (enqueue "c3" "t3" participant_update declined ∷ []) two_events)
    ≡ settle second_command nothing_sent (some accepted_reply) "later" two_events
enqueue_while_sending_lost_example =
    enqueue_while_sending_lost second_command declined nothing_sent accepted_reply "c3" "t3" "later"
      two_events two_events-IsQueue waiting_second accepted_200
