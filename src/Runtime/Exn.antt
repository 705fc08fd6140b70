-- ===== src/Runtime/Exn.antt =====
-- The exceptions that the program raises or catches, with what their handlers read of them.
use hi_wave_tel.Prelude.{ℕ, Text, Option, Bool, false, codes, ◌||◌, contains, lower}

-- An exit status: `negsuc n` is -(n + 1).
pub data ℤ : Type 0 where
  pos : ℕ → ℤ
  negsuc : ℕ → ℤ

-- mmcli_client.MmcliError
pub record MmcliError : Type 0 where
  pub message : Text
  pub stdout : Text
  pub stderr : Text
  pub exit_code : Option ℤ

-- `raised` stands for every other exception class, with its `str`.
pub data Exn : Type 0 where
  operational : Text → Exn
  mmcli : MmcliError → Exn
  path_unavailable : Text → Exn
  does_not_exist : Exn
  modem_not_enumerated : Text → Exn
  value_error : Text → Exn
  runtime_error : Text → Exn
  raised : Text → Exn

-- str(exc)
unfoldable pub message : Exn → Text
message (operational m) = m
message (mmcli e) = e.message
message (path_unavailable p) = p
message does_not_exist = codes "matching query does not exist."
message (modem_not_enumerated m) = m
message (value_error m) = m
message (runtime_error m) = m
message (raised m) = m

-- services._looks_sqlite_concurrency_error
unfoldable pub looks_sqlite_concurrency_error : Exn → Bool
looks_sqlite_concurrency_error exc =
    let lowered = lower (message exc) in
    contains (codes "locked") lowered || contains (codes "busy") lowered

-- An `OperationalError` that the retry loops try again.
unfoldable pub is_busy : Exn → Bool
is_busy (operational m) = looks_sqlite_concurrency_error (operational m)
is_busy _ = false
