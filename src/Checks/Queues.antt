-- ===== src/Checks/Queues.antt =====
-- Examples of the laws of the queues, of a new message and of what becomes of it.
use hi_wave_tel.Prelude.{
  inr, All, ◌≡◌, refl, false, ℕ, List, [], ◌∷◌, codes, Text, arith, some, any, text_eq, leb, length,
}
use hi_wave_tel.Runtime.Exec.{ok, try_else, gets, raise, ◌>>=◌}
use hi_wave_tel.Models.{outbound_keyed, row}
use hi_wave_tel.World.{Env, World, not_run, end}
use hi_wave_tel.World.Calm.{IsCalm}
use hi_wave_tel.Scan.{decimal}
use hi_wave_tel.InboundFilters.{inbound_should_skip_webhook}
use hi_wave_tel.InboundFilters.Echo.{explains, inbound_should_skip_webhook-explains}
use hi_wave_tel.Mmcli.{show_sms, retrying_run, retry_rounds, run}
use hi_wave_tel.Inbound.{fetch_mmcli_snapshot_with_retries, poll_rounds, show_or_empty}
use hi_wave_tel.Inbound.Announce.{Announced, get_or_create-Announced}
use hi_wave_tel.Inbound.Persist.{get_or_create_inbound, new_inbound, path_gone, persist_inbound_sms}
use hi_wave_tel.OutboundQueue.{OutboundJob, enqueue, take_job, new_job, new_queue}
use hi_wave_tel.OutboundQueue.Pool.Priority.{IsBefore, take-IsBefore}
use hi_wave_tel.OutboundQueue.Pool.{Pool, Request, start, Reach, numbered_job}
use hi_wave_tel.OutboundQueue.Pool.Sound.{IsSound, Reach-IsSound}
use hi_wave_tel.OutboundQueue.Pool.Calls.{
  enqueue_of, CallOutcome, enqueue-CallOutcome, enqueue-Reach,
}
use hi_wave_tel.OutboundQueue.Worker.{process_job, JobOutcome, process_job-Outcome}
use hi_wave_tel.InboundQueue.{InboundQueue, rounds}
use hi_wave_tel.InboundQueue.InTurn.{put_all, DoneInTurn, rounds-put_all}
use hi_wave_tel.PersistQueue.{process_sms}
use hi_wave_tel.PersistQueue.Fate.{Fate, process_sms-Fate}
use hi_wave_tel.Watch.{on_added, enqueue_paths}
use hi_wave_tel.Watch.Intake.{Signalled, Filled, on_added-Signalled, enqueue_paths-Filled}
use hi_wave_tel.Checks.{env, world, inbound_row}
use hi_wave_tel.Checks.Gateway.{
  working, working-IsCalm, ready, message, with_message, snapshot, sms_path,
}

inbound_should_skip_webhook-explains_example :
    (n : ℕ) × (inbound_should_skip_webhook working inbound_row with_message ≡ (
      ok (any (explains inbound_row 10) with_message.outbound),
      record with_message { db_calls = n },
    ))
inbound_should_skip_webhook-explains_example =
    inbound_should_skip_webhook-explains working working-IsCalm inbound_row with_message

get_or_create-Announced_example :
    Announced working working-IsCalm world
      (new_inbound 2 10 sms_path 0 snapshot)
      (get_or_create_inbound working sms_path 0 snapshot world)
unfolding text_eq
get_or_create-Announced_example =
    get_or_create-Announced working working-IsCalm sms_path 0 snapshot world refl refl

abbrev urgent : OutboundJob
urgent = new_job 1 (codes "outbound") (codes "1") (codes "high") end

abbrev request : Request
request = record {
  job_type = codes "outbound";
  reference = codes "1";
  priority = codes "normal";
  payload = end;
}

abbrev one_job : Pool
one_job = record (start 2) { shared = (enqueue_of request (new_queue 2)).1 }

one_job-Reach : Reach (start 2) one_job
one_job-Reach = enqueue-Reach (start 2) request

Reach-IsSound_example : IsSound one_job
Reach-IsSound_example = Reach-IsSound 2 one_job-Reach

enqueue-CallOutcome_example : CallOutcome request one_job.shared (enqueue_of request one_job.shared)
enqueue-CallOutcome_example = enqueue-CallOutcome request one_job.shared

message_stored : row 1 with_message.outbound ≡ some message
unfolding row
message_stored = refl

process_job-Outcome_example :
    JobOutcome working working-IsCalm ready 1 message with_message
      (process_job working ready urgent with_message)
unfolding decimal
process_job-Outcome_example =
    process_job-Outcome working working-IsCalm ready 1 urgent message with_message refl refl
      message_stored

abbrev no_keys : InboundQueue
no_keys = record {
  max_queue_size = 2;
  queued = [];
  processed_count = 0;
  failed_count = 1;
  retry_count = 0;
}

rounds-put_all_example :
    DoneInTurn working
      (7 ∷ 8 ∷ [])
      no_keys
      world
      (rounds working 2 (put_all (7 ∷ 8 ∷ []) no_keys, world))
rounds-put_all_example = rounds-put_all working (7 ∷ 8 ∷ []) no_keys world refl (inr (omega arith))

-- the executable is missing
abbrev missing : Env
missing = record env { mmcli = λ n argv. not_run (codes "No such file or directory") }

missing-IsCalm : IsCalm missing
missing-IsCalm = record { no_error = λ n. refl; some_tries = omega arith }

room_left :
    leb missing.dlq_max_size (length (persist_inbound_sms missing sms_path 0 world).1.dlq) ≡ false
unfolding persist_inbound_sms try_else fetch_mmcli_snapshot_with_retries ◌>>=◌ gets poll_rounds
    show_or_empty show_sms retrying_run retry_rounds run raise path_gone
room_left = refl

process_sms-Fate_example :
    Fate missing missing-IsCalm sms_path
      (persist_inbound_sms missing sms_path 0 world)
      (process_sms missing sms_path 0 world)
process_sms-Fate_example =
    process_sms-Fate missing missing-IsCalm sms_path 0 world (refl, room_left)

abbrev crowded : World
crowded = record world { persist_queue = (sms_path, 0) ∷ (sms_path, 1) ∷ [] }

on_added-Signalled_example :
    Signalled working sms_path 0 crowded (on_added working 0 sms_path crowded)
on_added-Signalled_example =
    on_added-Signalled working working-IsCalm 0 sms_path crowded (λ h. (refl, refl))

abbrev paths : List Text
paths = sms_path ∷ codes "/SMS/5" ∷ codes "/SMS/6" ∷ []

enqueue_paths-Filled_example : Filled working 0 paths world (enqueue_paths working 0 paths world)
enqueue_paths-Filled_example = enqueue_paths-Filled working 0 paths world

abbrev with_stale : World
with_stale = record world { inbound = record inbound_row { mm_state = codes "receiving" } ∷ [] }

abbrev first_job : OutboundJob
first_job = numbered_job 1 request

first_taken : (take_job one_job.shared).0 ≡ some first_job
unfolding take_job enqueue new_queue
first_taken = refl

take-IsBefore_example :
    (one_job.shared.queued ≡ first_job ∷ ((take_job one_job.shared).1).queued)
    × All (IsBefore first_job) ((take_job one_job.shared).1).queued
take-IsBefore_example = take-IsBefore 2 first_job one_job-Reach first_taken

abbrev in_work : Pool
in_work = record one_job { shared = (take_job one_job.shared).1; running = first_job ∷ [] }
