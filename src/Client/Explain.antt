-- ===== src/Client/Explain.antt =====
-- `ExplainDataSetValues` and `findDAName` of iec61850/iec61850_client.go: read values under the paths of
-- a data set.
pub mod Paths
use go_libiec.Prelude.{
  ℕ, zero, suc, ◌+◌, ◌/◌, ◌%◌, String, Bool, ◌&&◌, ◌||◌, Option, none, some, List, [], ◌∷◌, length,
  get_elem?, Dict, insert, str_eq, ltb, ◌==◌, if◌then◌else◌,
}
use go_libiec.Itoa.{itoa}
use go_libiec.Values.{GoValue, MmsSlice, mms_slice, no_mms, mms, len_mms}
use go_libiec.Scl.Types.{Da, da_name, da_fc, FcdaEntry, DataSetDetail}
use go_libiec.Scl.DoType.{get_do_type}
use go_libiec.Schema.{base_path, leaf_path}

-- The loop of `findDAName` over the attributes under MX and ST, from the real index on.
unfoldable pub find_da_name : List Da → ℕ → ℕ → String
find_da_name [] real_index index = ""
find_da_name (a ∷ das) real_index index =
    let counted = str_eq (da_fc a) "MX" || str_eq (da_fc a) "ST" in
    let rest = find_da_name das (if counted then suc real_index else real_index) index in
    if counted && real_index == index then da_name a else rest

-- The name that the loop writes for the element `i` of a structure.
abbrev pub sub_name : List Da → ℕ → String
sub_name das i = if ltb (i + 1) (length das) then find_da_name das 0 i else itoa i

-- What the loop stores for an element: a slice of one element stands for it, one of another length
-- is skipped.
abbrev pub explained : GoValue → Option GoValue
explained (mms_slice (mms t v no_mms)) = some v
explained (mms_slice s) = none
explained v = some v

abbrev pub store_at : String → Option GoValue → Dict GoValue → Dict GoValue
store_at path none out = out
store_at path (some v) out = insert path v out

-- The loop over the elements of a structure from the element `i` on. `builder` holds the path so far,
-- and every round writes behind it.
unfoldable pub explain_subs : List Da → String → ℕ → MmsSlice → Dict GoValue → Dict GoValue
explain_subs das builder i no_mms out = out
explain_subs das builder i (mms t v s) out =
    let path = leaf_path builder (sub_name das i) in
    explain_subs das path (suc i) s (store_at path (explained v) out)

-- The value of an entry that names no attribute; another value than a slice is passed over.
unfoldable pub explain_object :
    FcdaEntry → String → GoValue → DataSetDetail → Dict GoValue → Dict GoValue × DataSetDetail
explain_object f base (mms_slice s) ds out = (
  explain_subs (get_do_type ds f.prefix f.ln_class f.do_name).0.das base 0 s out,
  (get_do_type ds f.prefix f.ln_class f.do_name).1,
)
explain_object f base v ds out = (out, ds)

-- The round of the outer loop for one entry and its value.
unfoldable pub explain_entry :
    FcdaEntry → GoValue → DataSetDetail → Dict GoValue → Dict GoValue × DataSetDetail
unfolding explain_object
explain_entry f v ds out =
    let base = base_path ds.ied_name f in
    if str_eq f.da_name ""
    then explain_object f base v ds out
    else (insert (leaf_path base f.da_name) v out, ds)

unfoldable pub explain_entries :
    List FcdaEntry → MmsSlice → DataSetDetail → Dict GoValue → Dict GoValue × DataSetDetail
explain_entries (f ∷ fs) (mms t v s) ds out =
    let (out', ds') = explain_entry f v ds out in explain_entries fs s ds' out'
explain_entries [] s ds out = (out, ds)
explain_entries (f ∷ fs) no_mms ds out = (out, ds)

-- The map and the data set afterwards, or the error of a wrong number of values.
unfoldable pub explain_data_set_values :
    MmsSlice → DataSetDetail → Option (Dict GoValue) × DataSetDetail
unfolding explain_entries
explain_data_set_values values ds =
    let result = explain_entries ds.data_set.fcda values ds [] in
    if length ds.data_set.fcda == len_mms values then (some result.0, result.1) else (none, ds)
