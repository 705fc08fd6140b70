-- ===== src/ModemRegistry.antt =====
-- apps/sms/modem_registry.py: the table of the modems that were ever seen, kept in step with mmcli -L.
pub mod Mirror
use hi_wave_tel.Prelude.{
  ℕ, suc, Text, codes, Bool, true, false, ◌&&◌, not, Option, none, some, List, [], ◌∷◌, ◌++◌,
  if◌then◌else◌, ◌==◌, ltb, is_empty, is_some, any, filter, map,
}
use hi_wave_tel.Runtime.Exn.{Exn, mmcli, modem_not_enumerated, message, does_not_exist}
use hi_wave_tel.Runtime.Exec.{ok, err, pure, raise, try_else, ◌>>=◌, ◌>>◌, for_each}
use hi_wave_tel.Models.{ModemDevice, device_keyed, row, update_row, update_where}
use hi_wave_tel.World.{Env, World, Act, statement, query, no_rows_affected}
use hi_wave_tel.Scan.{find_all, read_decimal, sorted_numbers, decimal}
use hi_wave_tel.Mmcli.{
  Completed, run, ensure_ok, output_of, number_behind, list_modem_indices, comma_separated,
}

-- an item of _parse_modem_paths: the index and the path
unfoldable pub modem_path_at : Text → Option (ℕ × Text)
unfolding read_decimal
modem_path_at s =
    let prefix : Text = codes "/org/freedesktop/ModemManager1/Modem/" in
    elim (number_behind prefix s) [ none ↦ none | some d ↦ some (read_decimal 0 d, prefix ++ d) ]

abbrev pub Paths : Type 0
Paths = List (ℕ × Text)

-- paths[index] = path, for one match after the other
unfoldable pub put_path : ℕ × Text → Paths → Paths
put_path (n, path) [] = (n, path) ∷ []
put_path (n, path) ((m, old) ∷ rest) =
    if m == n then (m, path) ∷ rest else (m, old) ∷ put_path (n, path) rest

abbrev pub put_paths : Paths → Paths → Paths
put_paths [] paths = paths
put_paths (item ∷ items) paths = put_paths items (put_path item paths)

unfoldable pub parse_modem_paths : Text → Paths
unfolding modem_path_at put_path find_all
parse_modem_paths haystack = put_paths (find_all modem_path_at haystack) []

abbrev pub path_of : ℕ → Paths → Option Text
path_of n [] = none
path_of n ((m, path) ∷ rest) = if m == n then some path else path_of n rest

-- sorted(paths_by_index): its items in the order of the indices, which are distinct
unfoldable pub insert_item : ℕ × Text → Paths → Paths
insert_item (n, path) [] = (n, path) ∷ []
insert_item (n, path) ((m, q) ∷ rest) =
    if ltb m n then (m, q) ∷ insert_item (n, path) rest else (n, path) ∷ (m, q) ∷ rest

unfoldable pub sorted_items : Paths → Paths
unfolding insert_item
sorted_items [] = []
sorted_items (item ∷ items) = insert_item item (sorted_items items)

-- order_by('modem_index')
unfoldable pub insert_device : ModemDevice → List ModemDevice → List ModemDevice
insert_device d [] = d ∷ []
insert_device d (e ∷ es) =
    if ltb e.modem_index d.modem_index then e ∷ insert_device d es else d ∷ e ∷ es

unfoldable pub by_index : List ModemDevice → List ModemDevice
unfolding insert_device
by_index [] = []
by_index (d ∷ ds) = insert_device d (by_index ds)

abbrev pub new_device : ℕ → Text → ℕ → ModemDevice
new_device modem_index dbus_path now = record {
  modem_index = modem_index;
  dbus_path = dbus_path;
  enabled = true;
  is_present = true;
  first_detected_at = now;
  last_detected_at = now;
}

abbrev pub seen_again : Text → ℕ → ModemDevice → ModemDevice
seen_again dbus_path now d = record d {
  dbus_path = dbus_path;
  is_present = true;
  last_detected_at = now;
}

abbrev pub gone : ModemDevice → ModemDevice
gone d = record d { is_present = false }

abbrev pub indices_in : Paths → List ℕ
indices_in items = map (λ item. item.0) items

abbrev pub is_index_of : List ℕ → ModemDevice → Bool
is_index_of seen d = any (λ n. n == d.modem_index) seen

-- ', '.join(str(i) for i in indices) if indices else 'none'
abbrev pub label_of : List ℕ → Text
label_of indices = if is_empty indices then codes "none" else comma_separated indices

module _ (env : Env) where
  -- the INSERT of get_or_create, and the save of a row that was there
  unfoldable pub insert_row : ℕ → Text → Act (Unit {0})
  insert_row modem_index dbus_path = statement env λ w.
      (ok tt, record w { devices = w.devices ++ new_device modem_index dbus_path w.clock ∷ [] })

  unfoldable pub touch_row : ℕ → Text → Act (Unit {0})
  unfolding row update_row
  touch_row modem_index dbus_path = statement env λ w.
      if is_some (row modem_index w.devices)
      then (
        ok tt,
        record w { devices = update_row modem_index (seen_again dbus_path w.clock) w.devices },
      )
      else (err no_rows_affected, w)

  unfoldable pub upsert_device : ℕ × Text → Act (Unit {0})
  unfolding row
  upsert_device (modem_index, dbus_path) = do
    found ← query env (λ w. is_some (row modem_index w.devices))
    if found then touch_row modem_index dbus_path else insert_row modem_index dbus_path

  -- exclude(modem_index__in=seen).update(is_present=False), of all rows where none is seen
  unfoldable pub mark_absent : List ℕ → Act (Unit {0})
  unfolding update_where
  mark_absent seen = statement env λ w.
      (ok tt, record w { devices = update_where (λ d. not (is_index_of seen d)) gone w.devices })

  unfoldable pub all_devices : Act (List ModemDevice)
  unfolding by_index
  all_devices = query env (λ w. by_index w.devices)

  unfoldable pub mmcli_list : Act Completed
  mmcli_list = do
    cp ← run env (env.mmcli_path ∷ codes "-L" ∷ [])
    ensure_ok cp (codes "mmcli -L")
    pure cp

  abbrev pub list_failed : Exn → Act (List ModemDevice)
  list_failed (mmcli e) = all_devices
  list_failed x = raise x

  unfoldable pub register_items : Paths → Act (List ModemDevice)
  register_items items = do
    for_each items upsert_device
    mark_absent (indices_in items)
    all_devices

  unfoldable pub sync_detected_modems : Act (List ModemDevice)
  unfolding parse_modem_paths sorted_items
  sync_detected_modems =
      try_else mmcli_list list_failed
        (λ cp. register_items (sorted_items (parse_modem_paths (output_of cp))))

  unfoldable pub list_enumerated_modem_indices : Act (List ℕ)
  list_enumerated_modem_indices = list_modem_indices env

  abbrev not_reachable : Exn → Act (List ℕ)
  not_reachable (mmcli e) =
      raise (modem_not_enumerated (codes "ModemManager unreachable: " ++ e.message))
  not_reachable x = raise x

  unfoldable pub assert_modem_enumerated : ℕ → Act (Unit {0})
  assert_modem_enumerated modem_index = do
    indices ← try_else (list_modem_indices env) not_reachable pure
    if any (λ n. n == modem_index) indices
        then pure tt
        else raise (
            modem_not_enumerated (
              codes "Modem index "
              ++ decimal modem_index
              ++ codes " not enumerated (mmcli -L: "
              ++ label_of indices
              ++ codes ")."))

  abbrev indices_where : (ModemDevice → Bool) → Act (List ℕ)
  indices_where p = query env (λ w. map (λ d. d.modem_index) (by_index (filter p w.devices)))

  abbrev or_enumerated : List ℕ → Act (List ℕ)
  or_enumerated [] = try_else list_enumerated_modem_indices (λ exc. pure []) pure
  or_enumerated (n ∷ ns) = pure (n ∷ ns)

  unfoldable pub list_present_modem_indices : Act (List ℕ)
  unfolding by_index
  list_present_modem_indices = indices_where (λ d. d.is_present) >>= or_enumerated

  abbrev or_present : List ℕ → Act (List ℕ)
  or_present [] = list_present_modem_indices
  or_present (n ∷ ns) = pure (n ∷ ns)

  unfoldable pub list_watcher_modem_indices : Act (List ℕ)
  unfolding by_index
  list_watcher_modem_indices = indices_where (λ d. d.is_present && d.enabled) >>= or_present

  unfoldable pub modem_device_or_none : ℕ → Act (Option ModemDevice)
  unfolding row
  modem_device_or_none modem_index = query env (λ w. row modem_index w.devices)
