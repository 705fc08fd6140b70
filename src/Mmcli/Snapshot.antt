-- ===== src/Mmcli/Snapshot.antt =====
-- The key-value snapshots that mmcli prints, as dictionaries: parsing, the merge of several, and the
-- fields of an SMS. A dictionary is an association list whose keys are distinct.
pub mod Keys
pub mod Merge
use hi_wave_tel.Prelude.{
  Text, codes, Bool, ◌||◌, Option, none, some, List, [], ◌∷◌, ◌++◌, if◌then◌else◌, ltb, ◌==◌,
  length, is_empty, strip, lower, is_alnum, text_eq, or_else, map,
}
use hi_wave_tel.World.{Json, null, scalar, array, object, Members, end, member}
use hi_wave_tel.Scan.{splitlines}

abbrev pub Details : Type 0
Details = List (Text × Text)

-- d.get(k)
unfoldable pub get : Text → Details → Option Text
get k [] = none
get k ((j, v) ∷ d) = if text_eq j k then some v else get k d

-- d[k] = v
unfoldable pub put : Text → Text → Details → Details
put k v [] = (k, v) ∷ []
put k v ((j, u) ∷ d) = if text_eq j k then (j, v) ∷ d else (j, u) ∷ put k v d

-- d.setdefault(k, v)
unfoldable pub set_default : Text → Text → Details → Details
set_default k v [] = (k, v) ∷ []
set_default k v ((j, u) ∷ d) = if text_eq j k then (j, u) ∷ d else (j, u) ∷ set_default k v d

abbrev keep_alnum : Text → Text
keep_alnum [] = []
keep_alnum (c ∷ cs) = if is_alnum c then c ∷ keep_alnum cs else keep_alnum cs

unfoldable pub normalize_key : Text → Text
unfolding lower is_alnum
normalize_key raw = keep_alnum (lower raw)

unfoldable pub is_blank_mmcli_value : Text → Bool
unfolding strip text_eq
is_blank_mmcli_value val = is_empty (strip val) || text_eq (strip val) (codes "--")

-- line.partition(":"), if there is a colon
unfoldable pub partition_colon : Text → Option (Text × Text)
partition_colon [] = none
partition_colon (c ∷ cs) =
    let rest = partition_colon cs in
    if c == 58 then some ([], cs) else elim rest [ none ↦ none | some (k, v) ↦ some (c ∷ k, v) ]

abbrev add_pair : Text → Text → Details → Details
add_pair nk val out = if is_empty nk || is_empty val then out else set_default nk val out

abbrev add_line : Option (Text × Text) → Details → Details
add_line none out = out
add_line (some (key, val)) out = add_pair (normalize_key key) (strip val) out

abbrev parse_lines : List Text → Details → Details
parse_lines [] out = out
parse_lines (line ∷ lines) out = parse_lines lines (add_line (partition_colon (strip line)) out)

unfoldable pub parse_keyvalue : Text → Details
unfolding partition_colon normalize_key set_default strip
parse_keyvalue text = parse_lines (splitlines text) []

abbrev dotted : Text → Text → Text
dotted parent k = if is_empty parent then k else parent ++ codes "." ++ k

-- _flatten_dict over a JSON object; the leaves are turned into text as _normalize_mmcli_json does
mutual
  unfolding put

  pub flatten : Text → Json → Details → Details
  flatten key null out = put key [] out
  flatten key (scalar s) out = put key s out
  flatten key (array dumped) out = put key dumped out
  flatten key (object ms) out = flatten_dict key ms out

  pub flatten_dict : Text → Members → Details → Details
  flatten_dict parent end out = out
  flatten_dict parent (member k v ms) out = flatten_dict parent ms (flatten (dotted parent k) v out)

abbrev normalize_all : Details → Details → Details
normalize_all [] out = out
normalize_all ((key, val) ∷ d) out =
    normalize_all d (if is_empty (normalize_key key) then out else put (normalize_key key) val out)

unfoldable pub normalize_mmcli_json : Option Json → Details
unfolding flatten_dict put normalize_key
normalize_mmcli_json (some (object ms)) = normalize_all (flatten_dict [] ms []) []
normalize_mmcli_json _ = []

-- one round of `for p in parts` for a key: the longest value that is not blank, the first of equals
unfoldable pub better : Text → Option Text → Text
unfolding strip is_blank_mmcli_value
better best none = best
better best (some raw) =
    let v = strip raw in
    if is_blank_mmcli_value v
    then best
    else if is_empty best || ltb (length best) (length v)
    then v
    else best

unfoldable pub best_value : Text → Text → List Details → Text
best_value k best [] = best
best_value k best (p ∷ ps) = best_value k (better best (get k p)) ps

abbrev pub merge_key : List Details → Text → Details → Details
merge_key parts k out =
    let best = best_value k [] parts in if is_empty best then out else put k best out

abbrev pub merge_keys : List Details → Details → Details → Details
merge_keys parts [] out = out
merge_keys parts ((k, v) ∷ d) out = merge_keys parts d (merge_key parts k out)

abbrev pub all_pairs : List Details → Details
all_pairs [] = []
all_pairs (p ∷ ps) = p ++ all_pairs ps

-- _merge_mmcli_sources; a key that stands in several parts gets the same value again
unfoldable pub merge_mmcli_sources : List Details → Details
unfolding best_value better get put
merge_mmcli_sources parts = merge_keys parts (all_pairs parts) []

-- The first of the keys whose value is there, and not blank.
unfoldable pub first_field : List Text → Details → Text
unfolding is_blank_mmcli_value get
first_field [] details = []
first_field (nk ∷ nks) details =
    let v = or_else (get nk details) [] in
    if is_blank_mmcli_value v then first_field nks details else strip v

unfoldable pub extract_from_number : Details → Text
extract_from_number = first_field (
    map codes
      ("smscontentnumber" ∷ "number" ∷ "sender" ∷ "smssrc" ∷ "smsnumber" ∷ "mobilenumber" ∷ []))

unfoldable pub extract_text : Details → Text
extract_text = first_field (
    map codes (
      "smscontenttext" ∷ "text" ∷ "smstext" ∷ "smscontent" ∷ "smsmessage" ∷ "message" ∷ "body"
      ∷ "content" ∷ "smsbody" ∷ []))

unfoldable pub extract_state : Details → Text
extract_state = first_field (map codes ("smspropertiesstate" ∷ "state" ∷ "smsstate" ∷ []))

unfoldable pub extract_smsc : Details → Text
extract_smsc =
    first_field
      (map codes ("smspropertiessmsc" ∷ "smsc" ∷ "smsservicecenter" ∷ "servicecenter" ∷ []))

unfoldable pub extract_timestamp : Details → Text
extract_timestamp =
    first_field
      (map codes ("smspropertiestimestamp" ∷ "timestamp" ∷ "datetime" ∷ "stamp" ∷ "date" ∷ []))
