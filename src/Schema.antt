-- ===== src/Schema.antt =====
-- iec61850/iec61850_schema.go: the flat schema of a data set, and its application to read values.
pub mod Build
pub mod Apply
use go_libiec.Prelude.{
  ℕ, zero, suc, String, Option, none, some, List, [], ◌∷◌, ◌++◌, length, concat, str_eq, Dict,
  insert, if◌then◌else◌, ◌>>=◌,
}
use go_libiec.Values.{GoValue, MmsSlice, no_mms, mms, mms_slice}
use go_libiec.Scl.Types.{Da, da_name, da_fc, FcdaEntry, DataSetDetail}
use go_libiec.Scl.DoType.{get_do_type}

-- `DAIdx` is `none` for -1.
pub record SchemaLeaf : Type 0 where
  pub path : String
  pub fcda_idx : ℕ
  pub da_idx : Option ℕ

pub record DataSetSchema : Type 0 where
  pub leaves : List SchemaLeaf
  pub fcda_count : ℕ

abbrev pub base_path : String → FcdaEntry → String
base_path ied_name f =
    concat (ied_name ∷ f.ld_inst ∷ "/" ∷ f.prefix ∷ f.ln_class ∷ f.ln_inst ∷ "." ∷ f.do_name ∷ [])

abbrev pub leaf_path : String → String → String
leaf_path base name = concat (base ∷ "." ∷ name ∷ [])

-- The loop over `doType.DA`, with `subIdx`.
unfoldable pub da_leaves : String → ℕ → String → ℕ → List Da → List SchemaLeaf
da_leaves base idx fc sub_idx [] = []
da_leaves base idx fc sub_idx (a ∷ das) =
    let hit = str_eq (da_fc a) fc in
    let rest = da_leaves base idx fc (if hit then suc sub_idx else sub_idx) das in
    if hit
    then record { path = leaf_path base (da_name a); fcda_idx = idx; da_idx = some sub_idx } ∷ rest
    else rest

-- The leaves of one FCDA, and the data set after the look-up of the type.
unfoldable pub fcda_leaves : DataSetDetail → ℕ → FcdaEntry → List SchemaLeaf × DataSetDetail
fcda_leaves detail idx f =
    let base = base_path detail.ied_name f in
    if str_eq f.da_name ""
    then (
      da_leaves base idx f.fc 0 (get_do_type detail f.prefix f.ln_class f.do_name).0.das,
      (get_do_type detail f.prefix f.ln_class f.do_name).1,
    )
    else (record { path = leaf_path base f.da_name; fcda_idx = idx; da_idx = none } ∷ [], detail)

-- The loop over `detail.FCDA` from the index `idx` on.
unfoldable pub build_leaves : DataSetDetail → ℕ → List FcdaEntry → List SchemaLeaf × DataSetDetail
build_leaves detail idx [] = ([], detail)
build_leaves detail idx (f ∷ fs) =
    let (here, detail') = fcda_leaves detail idx f in
    let (rest, detail'') = build_leaves detail' (suc idx) fs in (here ++ rest, detail'')

unfoldable pub build_data_set_schema : DataSetDetail → DataSetSchema × DataSetDetail
build_data_set_schema detail =
    let (leaves, detail') = build_leaves detail 0 detail.data_set.fcda in
    (record { leaves = leaves; fcda_count = length detail.data_set.fcda }, detail')

-- `values[i].Value`, none if `i >= len(values)`.
abbrev pub value_at : MmsSlice → ℕ → Option GoValue
value_at no_mms i = none
value_at (mms t v s) zero = some v
value_at (mms t v s) (suc i) = value_at s i

-- A single-element slice stands for its element.
abbrev pub unwrap_single : GoValue → GoValue
unwrap_single (mms_slice (mms t v no_mms)) = v
unwrap_single v = v

-- The element `k` of a value that must be a `[]GoMmsValue`.
abbrev pub sub_value : GoValue → ℕ → Option GoValue
sub_value (mms_slice s) k = do v ← value_at s k; some (unwrap_single v)
sub_value _ k = none

-- `leaf.DAIdx < 0`, or the element below.
abbrev pub apply_at : Option GoValue → Option ℕ → Option GoValue
apply_at none da_idx = none
apply_at (some top) none = some top
apply_at (some top) (some k) = sub_value top k

-- What the loop of `ApplySchema` stores for a leaf; none where it skips the leaf.
unfoldable pub apply_leaf : MmsSlice → SchemaLeaf → Option GoValue
apply_leaf values leaf = apply_at (value_at values leaf.fcda_idx) leaf.da_idx

-- `out[leaf.Path] = v`, or `continue`.
abbrev pub store_leaf : SchemaLeaf → Option GoValue → Dict GoValue → Dict GoValue
store_leaf leaf none out = out
store_leaf leaf (some v) out = insert leaf.path v out

-- A loop over `schema.Leaves` that stores what `read` gives for each leaf.
unfoldable pub for_leaves :
    (SchemaLeaf → Option GoValue) → List SchemaLeaf → Dict GoValue → Dict GoValue
for_leaves read [] out = out
for_leaves read (leaf ∷ leaves) out = for_leaves read leaves (store_leaf leaf (read leaf) out)

unfoldable pub apply_schema : DataSetSchema → MmsSlice → Dict GoValue → Dict GoValue
unfolding for_leaves
apply_schema schema values out = for_leaves (apply_leaf values) schema.leaves out
