-- ===== src/Checks/Gateway.antt =====
-- Examples of the laws of the mmcli client, of the received and the sent messages, and of the
-- dead-letter queue.
use hi_wave_tel.Prelude.{◌≡◌, refl, true, false, List, [], ◌∷◌, codes, Text, arith, none}
use hi_wave_tel.Runtime.Exn.{pos, mmcli}
use hi_wave_tel.Runtime.Exec.{err}
use hi_wave_tel.Models.{DlqRow, InboundSms, OutboundSms, SmsState, row}
use hi_wave_tel.World.{Env, World, completed, timeout_expired}
use hi_wave_tel.World.Calm.{IsCalm, counted_call}
use hi_wave_tel.Mmcli.{retrying_run, timeout_error, default_should_retry}
use hi_wave_tel.Mmcli.Snapshot.{Details, get, merge_mmcli_sources}
use hi_wave_tel.Mmcli.Snapshot.Merge.{Longest, merge-Longest}
use hi_wave_tel.Mmcli.Retries.{RetryOutcome, retrying_run-outcome, retrying_run-timeout}
use hi_wave_tel.Dlq.Bounds.{
  Operation, enqueue_op, failed_op, dequeue_op, IsBounded, performed, performed-IsBounded,
}
use hi_wave_tel.Inbound.{poll_rounds, poll_fuel}
use hi_wave_tel.Inbound.Polling.{PollOutcome, poll-outcome}
use hi_wave_tel.Inbound.Recovery.{process_batch}
use hi_wave_tel.Inbound.Recovery.Retried.{
  BatchOutcome, due_rows, no_stats, process_batch-BatchOutcome,
}
use hi_wave_tel.Inbound.Persist.{Snapshot, patch_columns, needs_patch}
use hi_wave_tel.Inbound.Persist.Patch.{Refreshed, patch_columns-settles}
use hi_wave_tel.ModemReady.{ReadySettings}
use hi_wave_tel.ModemReady.Recover.{wait_rounds}
use hi_wave_tel.ModemReady.Recover.Wait.{WaitOutcome, wait-outcome}
use hi_wave_tel.Outbound.{dispatch_outbound_mmcli}
use hi_wave_tel.Outbound.Outcome.{DispatchOutcome, dispatch-Outcome}
use hi_wave_tel.Checks.{env, world, inbound_row}

abbrev pub modem_output : Text
modem_output =
    codes
      "Successfully created new SMS: /org/freedesktop/ModemManager1/SMS/4\n/org/freedesktop/ModemManager1/Modem/0\nstate: registered\n"

abbrev pub working : Env
working = record env { mmcli = λ n argv. completed (pos 0) modem_output [] }

abbrev pub hanging : Env
hanging = record env { mmcli = λ n argv. timeout_expired }

abbrev list_modems : List Text
list_modems = codes "mmcli" ∷ codes "-L" ∷ []

retrying_run-outcome_example :
    RetryOutcome hanging list_modems
      (codes "-L")
      3
      world
      (retrying_run hanging list_modems (codes "-L") world)
retrying_run-outcome_example = retrying_run-outcome hanging list_modems (codes "-L") world

abbrev pub OneTimeout : Type 0
OneTimeout =
    ((retrying_run hanging list_modems (codes "-L") world).0 ≡ err (mmcli (timeout_error hanging)))
    × (((retrying_run hanging list_modems (codes "-L") world).1).mmcli_calls ≡ 1)
    × (default_should_retry (timeout_error hanging) ≡ true)

retrying_run-timeout_example : OneTimeout
retrying_run-timeout_example = retrying_run-timeout hanging list_modems (codes "-L") world refl

abbrev operations : List Operation
operations =
    enqueue_op (codes "/SMS/1") 0 (codes "locked")
    ∷ enqueue_op (codes "/SMS/2") 0 (codes "locked")
    ∷ enqueue_op (codes "/SMS/3") 0 (codes "locked")
    ∷ dequeue_op 50
    ∷ failed_op 2 (codes "again")
    ∷ []

performed-IsBounded_example : IsBounded env (performed env operations world).dlq
performed-IsBounded_example = performed-IsBounded env operations world (omega arith, tt)

abbrev pub sms_path : Text
sms_path = codes "/org/freedesktop/ModemManager1/SMS/4"

poll-outcome_example :
    PollOutcome working 10 (poll_rounds working (poll_fuel working) sms_path 10 0 world)
poll-outcome_example = poll-outcome working sms_path world

abbrev half_read : InboundSms
half_read = record inbound_row { text = codes "hel"; mm_state = codes "receiving" }

abbrev pub snapshot : Snapshot
snapshot = record {
  from_number = codes "+351913000387";
  text = codes "hello";
  mm_state = codes "received";
  smsc = codes "+351";
  modem_timestamp_raw = [];
}

patch_columns-settles_example :
    Refreshed half_read (patch_columns half_read snapshot half_read)
    × (needs_patch (patch_columns half_read snapshot half_read) snapshot ≡ false)
patch_columns-settles_example = patch_columns-settles half_read snapshot

abbrev pub ready : ReadySettings
ready = record {
  sim_unlock_retries = 3;
  sim_unlock_retry = 5_000_000;
  modem_reprobe_wait = 15_000_000;
  modem_enable_wait = 20_000_000;
  modem_rescan_interval = 15_000_000;
}

abbrev pub message : OutboundSms
message = record {
  pk = 1;
  mm_path = [];
  modem_index = 0;
  to_number = codes "+351913000387";
  text = codes "hello";
  state = SmsState.created;
  error_message = [];
  created_at = 9;
  updated_at = 9;
}

abbrev pub with_message : World
with_message = record world { outbound = message ∷ [] }

pub working-IsCalm : IsCalm working
working-IsCalm = record { no_error = λ n. refl; some_tries = omega arith }

dispatch-Outcome_example :
    DispatchOutcome 1 (dispatch_outbound_mmcli working ready false message with_message)
unfolding row
dispatch-Outcome_example =
    dispatch-Outcome working working-IsCalm ready false message with_message (message, refl)

abbrev parts : List Details
parts =
    ((codes "text", codes "hel") ∷ (codes "number", codes "--") ∷ [])
    ∷ ((codes "text", codes " hello ") ∷ [])
    ∷ []

merge-Longest_example :
    Longest parts (codes "text") (get (codes "text") (merge_mmcli_sources parts))
merge-Longest_example = merge-Longest parts (codes "text")

wait-outcome_example :
    WaitOutcome 20_000_010 (wait_rounds hanging ready 21 0 20_000_010 0 true world)
wait-outcome_example = wait-outcome hanging ready 0 20_000_000 true world

abbrev letter : DlqRow
letter = record {
  id = 5;
  sms_path = sms_path;
  modem_index = 0;
  failed_at = 1;
  retry_count = 0;
  last_error = [];
  next_retry_at = none;
}

abbrev with_letter : World
with_letter = record world { dlq = letter ∷ [] }

process_batch-BatchOutcome_example :
    BatchOutcome working working-IsCalm
      (due_rows working 50 with_letter)
      no_stats
      (counted_call with_letter)
      (process_batch working 50 with_letter)
process_batch-BatchOutcome_example =
    process_batch-BatchOutcome working working-IsCalm 50 with_letter
