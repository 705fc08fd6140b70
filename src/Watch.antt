-- ===== src/Watch.antt =====
-- apps/sms/dbus_watch.py: from a signal of the modem, or a list of the messages on it, to the persist
-- queue. The connection to the bus and its event loop are outside of the model.
pub mod Intake
pub mod Recovery
use hi_wave_tel.Prelude.{
  ℕ, zero, suc, ◌+◌, ◌*◌, ◌^◌, max, Text, codes, Bool, true, false, Option, none, some, List, [],
  ◌∷◌, ◌++◌, if◌then◌else◌, leb, ◌==◌, or_else,
}
use hi_wave_tel.Runtime.Exn.{Exn, mmcli, raised, message}
use hi_wave_tel.Runtime.Exec.{Result, ok, err, pure, raise, modify, try_else, ◌>>=◌, ◌>>◌}
use hi_wave_tel.World.{Env, World, Act, sleep, increment, dbus_signals_received}
use hi_wave_tel.Scan.{decimal}
use hi_wave_tel.Mmcli.{list_sms_paths}
use hi_wave_tel.Dlq.{enqueue_persist_failure}
use hi_wave_tel.Inbound.Persist.{persist_inbound_sms}
use hi_wave_tel.PersistQueue.{enqueue_sms}

unfoldable pub modem_object_path : ℕ → Text
unfolding decimal
modem_object_path modem_index = codes "/org/freedesktop/ModemManager1/Modem/" ++ decimal modem_index

module _ (env : Env) where
  abbrev pub or_failure : Text → ℕ → Text → Bool → Act (Unit {0})
  or_failure sms_path modem_index error true = pure tt
  or_failure sms_path modem_index error false =
      enqueue_persist_failure env sms_path modem_index error

  -- _on_added. The handler also sees an exception of the dead-letter queue, and tries it once more.
  unfoldable pub on_added : ℕ → Text → Act (Unit {0})
  on_added modem_index sms_path = do
    increment dbus_signals_received
    try_else
        (enqueue_sms env sms_path modem_index
          >>= or_failure sms_path modem_index (codes "persist queue full"))
        (λ exc. enqueue_persist_failure env sms_path modem_index (message exc)) pure

  unfoldable pub persist_or_dlq : Text → ℕ → Act (Unit {0})
  persist_or_dlq sms_path modem_index =
      try_else (persist_inbound_sms env sms_path modem_index)
        (λ exc. enqueue_persist_failure env sms_path modem_index (message exc)) (λ obj. pure tt)

  -- Is it an MmcliError or an OSError?
  abbrev is_caught : Exn → Bool
  is_caught (mmcli e) = true
  is_caught (raised m) = true
  is_caught _ = false

  -- the attempts to list the paths, `left` of them to come; `none` is the early return of 0
  unfoldable pub list_paths_rounds : (left attempt : ℕ) → ℕ → Act (Option (List Text))
  list_paths_rounds zero attempt modem_index = pure none
  list_paths_rounds (suc left) attempt modem_index =
      let later =
        modify (sleep (env.snapshot_backoff * 2 ^ attempt))
        >> list_paths_rounds left (suc attempt) modem_index in
      let again = if left == 0 then pure none else later in
      try_else (list_sms_paths env modem_index) (λ x. if is_caught x then again else raise x)
        (λ paths. pure (some paths))

  abbrev pub one_if : Bool → ℕ
  one_if true = 1
  one_if false = 0

  abbrev pub queue_or_report : ℕ → Text → Act ℕ
  queue_or_report modem_index path = do
    added ← enqueue_sms env path modem_index
    or_failure path modem_index (codes "persist queue full (snapshot)") added
    pure (one_if added)

  -- the body of the loop over the paths: was the path queued?
  unfoldable pub enqueue_or_dlq : ℕ → Text → Act ℕ
  enqueue_or_dlq modem_index path = try_else (queue_or_report modem_index path) (λ exc. pure 0) pure

  unfoldable pub enqueue_paths : ℕ → List Text → Act ℕ
  enqueue_paths modem_index [] = pure 0
  enqueue_paths modem_index (path ∷ paths) = do
    n ← enqueue_or_dlq modem_index path
    m ← enqueue_paths modem_index paths
    pure (n + m)

  unfoldable pub sync_modem_sms_snapshot : ℕ → Act ℕ
  sync_modem_sms_snapshot modem_index = do
    paths ← list_paths_rounds (max 1 env.snapshot_tries) 0 modem_index
    enqueue_paths modem_index (or_else paths [])
