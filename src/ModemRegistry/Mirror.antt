-- ===== src/ModemRegistry/Mirror.antt =====
-- The table of modems after a listing: which rows are present, and under which path.
use hi_wave_tel.Prelude.{
  ℕ, suc, ◌≡◌, refl, sym, ap, ◌∙◌, inl, inr, Text, true, false, not, Option, none, some, List, [],
  ◌∷◌, ◌++◌, if◌then◌else◌, ◌==◌, ltb, is_some, any, Bool-cases, Option-cases, arith, subst, ==_iff,
  ==_refl,
}
use hi_wave_tel.Runtime.Exec.{Result, ok, pure, try_else, ◌>>=◌, ◌>>◌, for_each}
use hi_wave_tel.Models.{ModemDevice, device_keyed, row, update_row, update_where}
use hi_wave_tel.Models.Tables.{on_some, row-update_row, row-update_where, row-key}
use hi_wave_tel.World.{Env, World, query}
use hi_wave_tel.World.Calm.{IsCalm, statement-calm, counted_call}
use hi_wave_tel.ModemRegistry.{
  Paths, path_of, put_path, put_paths, insert_item, sorted_items, by_index, new_device, seen_again,
  gone, indices_in, is_index_of, insert_row, touch_row, upsert_device, mark_absent, all_devices,
  register_items, parse_modem_paths, modem_path_at, mmcli_list, sync_detected_modems,
}
use hi_wave_tel.Scan.{find_all}
use hi_wave_tel.Mmcli.{Completed, output_of}

-- The row of an index that is listed with a path, from the row before.
abbrev pub seen_or_new : ℕ → Text → ℕ → Option ModemDevice → ModemDevice
seen_or_new n path now none = new_device n path now
seen_or_new n path now (some d) = seen_again path now d

abbrev pub registered : Option Text → ℕ → ℕ → Option ModemDevice → Option ModemDevice
registered none n now o = o
registered (some path) n now o = some (seen_or_new n path now o)

-- What a listing makes of the row of an index: it is present with its path if it is listed, and is
-- marked absent and otherwise kept if not.
abbrev pub mirrored : Option Text → ℕ → ℕ → Option ModemDevice → Option ModemDevice
mirrored none n now o = on_some gone o
mirrored (some path) n now o = some (seen_or_new n path now o)

-- No index is listed twice.
abbrev pub Distinct : Paths → Type 0
Distinct [] = Unit
Distinct ((n, path) ∷ rest) = (path_of n rest ≡ none) × Distinct rest

row-append_one :
    (n : ℕ) (rs : List ModemDevice) (a : ModemDevice)
    → row n (rs ++ a ∷ [])
      ≡ (if is_some (row n rs) then row n rs else if a.modem_index == n then some a else none)
unfolding row
row-append_one n [] a = refl
row-append_one n (r ∷ rs) a = ground (arith, row-append_one n rs a)

any-path_of :
    (n : ℕ) (items : Paths) → any (λ k. k == n) (indices_in items) ≡ is_some (path_of n items)
any-path_of n [] = refl
any-path_of n ((m, path) ∷ rest) = ground (arith, any-path_of n rest)

appended :
    (m n : ℕ) (path : Text) (now : ℕ) (rs : List ModemDevice)
    → row m rs ≡ none
    → (if is_some (row n rs)
        then row n rs
        else if m == n
        then some (new_device m path now)
        else none)
      ≡ (if m == n then some (seen_or_new n path now (row n rs)) else row n rs)
appended m n path now rs new = elim (Bool-cases (m == n)) [
  | inl y ↦
      subst
        (λ k.
          (if is_some (row k rs)
            then row k rs
            else if m == k
            then some (new_device m path now)
            else none)
          ≡ (if m == k then some (seen_or_new k path now (row k rs)) else row k rs))
        ((==_iff m n).0 y) (rw (new, ==_refl m) refl)
  | inr x ↦ rw x (elim (Option-cases (row n rs)) [ inl e ↦ rw e refl | inr (a, e) ↦ rw e refl ])
]

updated :
    (m n : ℕ) (path : Text) (now : ℕ) (rs : List ModemDevice) (d : ModemDevice)
    → row m rs ≡ some d
    → (if m == n then on_some (seen_again path now) (row n rs) else row n rs)
      ≡ (if m == n then some (seen_or_new n path now (row n rs)) else row n rs)
updated m n path now rs d old = elim (Bool-cases (m == n)) [
  | inl y ↦
      subst
        (λ k.
          (if m == k then on_some (seen_again path now) (row k rs) else row k rs)
          ≡ (if m == k then some (seen_or_new k path now (row k rs)) else row k rs))
        ((==_iff m n).0 y) (rw (old, ==_refl m) refl)
  | inr x ↦ rw x refl
]

-- the first item and then the others
then_later :
    (m n : ℕ) (path : Text) (now : ℕ) (rest : Paths) (o' o : Option ModemDevice)
    → path_of m rest ≡ none
    → o' ≡ (if m == n then some (seen_or_new n path now o) else o)
    → registered (path_of n rest) n now o'
      ≡ registered (if m == n then some path else path_of n rest) n now o
then_later m n path now rest o' o fresh e = elim (Bool-cases (m == n)) [
  | inl y ↦
      let gone_on : path_of n rest ≡ none =
        subst (λ k. path_of k rest ≡ none) ((==_iff m n).0 y) fresh in
      rw (gone_on, y, e) (rw y refl)
  | inr x ↦ rw (e, x) refl
]

-- the update of the rows that are not listed
then_absent :
    (n : ℕ) (p : Option Text) (o' o : Option ModemDevice) (now : ℕ) (seen : List ℕ)
    → ((a : ModemDevice) → o' ≡ some a → a.modem_index ≡ n)
    → any (λ k. k == n) seen ≡ is_some p
    → o' ≡ registered p n now o
    → on_some (λ r. if not (is_index_of seen r) then gone r else r) o' ≡ mirrored p n now o
then_absent n none none o now seen key a e = rw (← e) refl
then_absent n (some path) none o now seen key a e = absurd (ground arith)
then_absent n none (some r) o now seen key a e =
    let unlisted : is_index_of seen r ≡ false =
      subst (λ k. any (λ j. j == k) seen ≡ false) (sym (key r refl)) a in
    rw (unlisted, ← e) refl
then_absent n (some path) (some r) o now seen key a e =
    let listed : is_index_of seen r ≡ true =
      subst (λ k. any (λ j. j == k) seen ≡ true) (sym (key r refl)) a in
    rw listed e

-- A listing as it is parsed has no index twice.
path_of-put :
    (n m : ℕ) (path : Text) (items : Paths)
    → path_of n (put_path (m, path) items) ≡ (if m == n then some path else path_of n items)
unfolding put_path
path_of-put n m path [] = refl
path_of-put n m path ((k, old) ∷ rest) = ground (arith, path_of-put n m path rest)

other_path :
    (k m : ℕ) (path : Text) (rest : Paths)
    → (k == m) ≡ false
    → path_of k rest ≡ none
    → (if m == k then some path else path_of k rest) ≡ none
other_path k m path rest x fresh = ground arith

put_path-Distinct :
    (m : ℕ) (path : Text) (items : Paths) → Distinct items → Distinct (put_path (m, path) items)
unfolding put_path
put_path-Distinct m path [] d = (refl, tt)
put_path-Distinct m path ((k, old) ∷ rest) (fresh, d) = elim (Bool-cases (k == m)) [
  | inl y ↦ rw y (fresh, d)
  | inr x ↦ rw x (
    path_of-put k m path rest ∙ other_path k m path rest x fresh,
    put_path-Distinct m path rest d,
  )
]

put_paths-Distinct : (items paths : Paths) → Distinct paths → Distinct (put_paths items paths)
put_paths-Distinct [] paths d = d
put_paths-Distinct ((m, path) ∷ items) paths d =
    put_paths-Distinct items (put_path (m, path) paths) (put_path-Distinct m path paths d)

path_of-insert :
    (n m : ℕ) (path : Text) (items : Paths)
    → path_of n (insert_item (m, path) items) ≡ (if m == n then some path else path_of n items)
unfolding insert_item
path_of-insert n m path [] = refl
path_of-insert n m path ((k, old) ∷ rest) = ground (arith, path_of-insert n m path rest)

insert_item-Distinct :
    (m : ℕ) (path : Text) (items : Paths)
    → path_of m items ≡ none
    → Distinct items
    → Distinct (insert_item (m, path) items)
unfolding insert_item
insert_item-Distinct m path [] new d = (refl, tt)
insert_item-Distinct m path ((k, old) ∷ rest) new (fresh, d) = elim (Bool-cases (ltb k m)) [
  | inl y ↦ rw y (
    path_of-insert k m path rest ∙ other_path k m path rest (ground arith) fresh,
    insert_item-Distinct m path rest (ground arith) d,
  )
  | inr x ↦ rw x (new, (fresh, d))
]

path_of-sorted : (n : ℕ) (items : Paths) → path_of n (sorted_items items) ≡ path_of n items
unfolding sorted_items
path_of-sorted n [] = refl
path_of-sorted n ((m, path) ∷ rest) =
    path_of-insert n m path (sorted_items rest)
    ∙ ap (λ (o : Option Text). if m == n then some path else o) (path_of-sorted n rest)

sorted_items-Distinct : (items : Paths) → Distinct items → Distinct (sorted_items items)
unfolding sorted_items
sorted_items-Distinct [] d = tt
sorted_items-Distinct ((m, path) ∷ rest) (fresh, d) =
    insert_item-Distinct m path (sorted_items rest) (path_of-sorted m rest ∙ fresh)
      (sorted_items-Distinct rest d)

parse-Distinct : (haystack : Text) → Distinct (parse_modem_paths haystack)
unfolding parse_modem_paths
parse-Distinct haystack = put_paths-Distinct (find_all modem_path_at haystack) [] tt

module _ (env : Env) (calm : IsCalm env) where
  asked :
      (m : ℕ) (w : World)
      → query env (λ v. is_some (row m v.devices)) w
        ≡ (ok (is_some (row m w.devices)), counted_call w)
  unfolding query
  asked m w = statement-calm env calm (λ v. (ok (is_some (row m v.devices)), v)) w

  -- One item of the listing.
  upsert-registered :
      (m : ℕ) (path : Text) (w : World)
      → (ds : List ModemDevice) × (upsert_device env (m, path) w
          ≡ (ok tt, record w { devices = ds; db_calls = suc (suc w.db_calls) }))
        × ((n : ℕ)
            → row n ds ≡ (
                if m == n
                then some (seen_or_new n path w.clock (row n w.devices))
                else row n w.devices))
  unfolding upsert_device touch_row insert_row ◌>>=◌
  upsert-registered m path w = elim (Option-cases (row m w.devices)) [
    | inl new ↦ (
      w.devices ++ new_device m path w.clock ∷ [],
      rw (upsert_device, asked m w, new) (statement-calm env calm _ (counted_call w)),
      λ n.
          row-append_one n w.devices (new_device m path w.clock)
          ∙ appended m n path w.clock w.devices new,
    )
    | inr (d, old) ↦ (
      update_row m (seen_again path w.clock) w.devices,
      rw (upsert_device, asked m w, old) (statement-calm env calm _ (counted_call w) ∙ rw old refl),
      λ n.
          row-update_row (seen_again path w.clock) m n w.devices (λ r. refl)
          ∙ updated m n path w.clock w.devices d old,
    )
  ]

  -- All items: the rows of the listed indices are there, the others as they were.
  items-registered :
      (items : Paths) (w : World)
      → Distinct items
      → (ds : List ModemDevice) × (k : ℕ) × (for_each items (upsert_device env) w
          ≡ (ok tt, record w { devices = ds; db_calls = k }))
        × ((n : ℕ) → row n ds ≡ registered (path_of n items) n w.clock (row n w.devices))
  unfolding for_each ◌>>◌ ◌>>=◌ pure
  items-registered [] w d = (w.devices, w.db_calls, refl, λ n. refl)
  items-registered ((m, path) ∷ rest) w (fresh, d) =
      let (ds, e, first) = upsert-registered m path w in
      let u : World = record w { devices = ds; db_calls = suc (suc w.db_calls) } in
      let (ds', k, e', later) = items-registered rest u d in
      (
        ds',
        k,
        rw (e, e') refl,
        λ n. later n ∙ then_later m n path w.clock rest _ (row n w.devices) fresh (first n),
      )

  -- How a registration ends: with the devices in the order of their indices, and each row as the listing
  -- says.
  abbrev pub Mirrored : Paths → World → Result (List ModemDevice) × World → Type 0
  Mirrored paths w out =
      (out.0 ≡ ok (by_index (out.1).devices))
      × ((n : ℕ) → row n (out.1).devices ≡ mirrored (path_of n paths) n w.clock (row n w.devices))

  register_items-Mirrored :
      (items : Paths) (w : World) → Distinct items → Mirrored items w (register_items env items w)
  unfolding register_items mark_absent all_devices query ◌>>◌ ◌>>=◌
  register_items-Mirrored items w d =
      let (ds, k, e, rows) = items-registered items w d in
      let u : World = record w { devices = ds; db_calls = k } in
      let absent = λ (r : ModemDevice). not (is_index_of (indices_in items) r) in
      let v : World = record u { devices = update_where absent gone ds; db_calls = suc k } in
      let marked =
        statement-calm env calm
          (λ x. (ok tt, record x { devices = update_where absent gone x.devices })) u in
      let listed = statement-calm env calm (λ x. (ok (by_index x.devices), x)) v in
      rw (register_items, e, marked, listed)
        (
          refl,
          λ n.
              row-update_where absent gone n ds (λ r. refl)
              ∙ then_absent n (path_of n items) (row n ds) (row n w.devices) w.clock
                  (indices_in items) (row-key n ds) (any-path_of n items) (rows n),
        )

  -- In a run without database errors, where mmcli -L answers, the registration gives all devices in
  -- the order of their indices, and leaves the row of every index as the output says: if the output
  -- has a path for the index, a row that is present under the last such path and was seen now, new or
  -- with all else as it was; if not, the row that was there, if any, marked as absent.
  pub sync_detected_modems-Mirrored :
      (cp : Completed) (w v : World)
      → mmcli_list env w ≡ (ok cp, v)
      → Mirrored (parse_modem_paths (output_of cp)) v (sync_detected_modems env w)
  unfolding sync_detected_modems try_else
  sync_detected_modems-Mirrored cp w v h =
      let paths = parse_modem_paths (output_of cp) in
      let (given, rows) =
        register_items-Mirrored (sorted_items paths) v
          (sorted_items-Distinct paths (parse-Distinct (output_of cp))) in
      rw h (
        given,
        λ n.
            rows n
            ∙ ap (λ (o : Option Text). mirrored o n v.clock (row n v.devices))
                (path_of-sorted n paths),
      )
