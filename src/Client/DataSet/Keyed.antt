-- ===== src/Client/DataSet/Keyed.antt =====
-- `ReadDataSetFlat` of iec61850/iec61850_client.go with a schema that `BuildDataSetSchema` of
-- iec61850/iec61850_schema.go has built.
use mathlib.Core.Path.{subst}
use go_libiec.Prelude.{
  ℕ, zero, suc, ◌+◌, ◌≡◌, refl, sym, ap, ◌∙◌, String, true, false, none, some, List, [], ◌∷◌, ◌++◌,
  get_elem?, lookup, str_eq, Dict, arith, some_eq, ◌⊎◌, inl, inr, ◌>>=◌,
}
use go_libiec.Mms.Value.{MmsValue, Components, structure, nth}
use go_libiec.Mms.Api.{MmsApi, MmsLaws}
use go_libiec.Values.{GoValue}
use go_libiec.Client.Resolve.View.{data_view, slice_view}
use go_libiec.Client.DataSet.{read, read_data_set_flat}
use go_libiec.Client.DataSet.Flat.{
  NoNull, LeafReads, FitsSchema, data_set_of, option_view, value_at-slice_view, leaves_eq,
}
use go_libiec.Scl.Types.{Da, da_name, FcdaEntry, DataSetDetail, DataTypeTemplates}
use go_libiec.Scl.DoType.Memo.{Query, resolve, Unambiguous}
use go_libiec.Schema.{
  SchemaLeaf, base_path, leaf_path, build_data_set_schema, unwrap_single, sub_value, apply_at,
  apply_leaf, for_leaves,
}
use go_libiec.Schema.Build.{
  under_fc, numbered, query_of, entry_leaves, expected_leaves, AllQueries, build_data_set_schema-eq,
}
use go_libiec.Schema.Apply.{DistinctPaths, or_old, for_leaves-at}

module _ {ℓ} {A : Type ℓ} where
  get_elem?-append :
      (xs ys : List A) (k : ℕ) (x : A) → get_elem? xs k ≡ some x → get_elem? (xs ++ ys) k ≡ some x
  get_elem?-append [] ys k x h = cc
  get_elem?-append (y ∷ xs) ys zero x h = h
  get_elem?-append (y ∷ xs) ys (suc k) x h = get_elem?-append xs ys k x h

  get_elem?-behind : (xs ys : List A) (k : ℕ) → (n : ℕ) × (get_elem? (xs ++ ys) n ≡ get_elem? ys k)
  get_elem?-behind [] ys k = (k, refl)
  get_elem?-behind (x ∷ xs) ys k = let (n, at) = get_elem?-behind xs ys k in (suc n, at)

abbrev sub_leaf : String → ℕ → ℕ → Da → SchemaLeaf
sub_leaf base idx k a = record {
  path = leaf_path base (da_name a);
  fcda_idx = idx;
  da_idx = some k;
}

-- The leaf of the attribute `k` under a constraint.
numbered-at :
    (base : String) (idx start k j : ℕ) (das : List Da) (a : Da)
    → j ≡ start + k
    → get_elem? das k ≡ some a
    → get_elem? (numbered base idx start das) k ≡ some (sub_leaf base idx j a)
numbered-at base idx start k j [] a p h = cc
numbered-at base idx start zero j (b ∷ das) a p h =
    ap (λ x. some (sub_leaf base idx start x)) (some_eq h)
    ∙ ap (λ x. some (sub_leaf base idx x a)) (omega arith)
numbered-at base idx start (suc k) j (b ∷ das) a p h =
    numbered-at base idx (suc start) k j das a (omega arith) h

module _ (t : DataTypeTemplates) (ied_name : String) where
  -- A leaf of the entry `i` is a leaf of the schema.
  expected_leaves-at :
      (idx i j k : ℕ) (fs : List FcdaEntry) (f : FcdaEntry) (leaf : SchemaLeaf)
      → j ≡ idx + i
      → get_elem? fs i ≡ some f
      → get_elem? (entry_leaves t ied_name j f) k ≡ some leaf
      → (n : ℕ) × (get_elem? (expected_leaves t ied_name idx fs) n ≡ some leaf)
  expected_leaves-at idx i j k [] f leaf p h e = absurd cc
  expected_leaves-at idx zero j k (g ∷ fs) f leaf p h e =
      let here : entry_leaves t ied_name idx g ≡ entry_leaves t ied_name j f =
        ap (entry_leaves t ied_name idx) (some_eq h)
        ∙ ap (λ x. entry_leaves t ied_name x f) (omega arith) in
      (
        k,
        get_elem?-append (entry_leaves t ied_name idx g) (expected_leaves t ied_name (suc idx) fs) k
            leaf (ap (λ ls. get_elem? ls k) here ∙ e),
      )
  expected_leaves-at idx (suc i) j k (g ∷ fs) f leaf p h e =
      let (n, at) = expected_leaves-at (suc idx) i j k fs f leaf (omega arith) h e in
      let (n', same) =
        get_elem?-behind (entry_leaves t ied_name idx g) (expected_leaves t ied_name (suc idx) fs)
          n in
      (n', same ∙ at)

FitsSchema-at :
    (cs : Components) (ls : List SchemaLeaf) (n : ℕ) (leaf : SchemaLeaf)
    → FitsSchema cs ls
    → get_elem? ls n ≡ some leaf
    → LeafReads (nth cs leaf.fcda_idx) leaf.da_idx
FitsSchema-at cs [] n leaf h e = absurd cc
FitsSchema-at cs (l ∷ ls) zero leaf h e =
    subst (λ (x : SchemaLeaf). LeafReads (nth cs x.fcda_idx) x.da_idx) (some_eq e) h.0
FitsSchema-at cs (l ∷ ls) (suc n) leaf h e = FitsSchema-at cs ls n leaf h.1 e

-- The name below an entry and the value of the member `v` that belongs to it: of an entry that names
-- an attribute that name, with the whole value; else the name of the attribute `k` under the entry's
-- constraint, with the element `k` of the structure, a structure of one element being replaced by
-- that.
abbrev pub Selected : MmsApi → DataTypeTemplates → FcdaEntry → MmsValue → String → GoValue → Type 0
Selected m t f v name val =
    ((str_eq f.da_name "" ≡ false) × (name ≡ f.da_name) × (val ≡ data_view m false v))
    ⊎ ((k : ℕ) × (a : Da) × (es : Components) × (x : MmsValue) × (str_eq f.da_name "" ≡ true)
        × (get_elem? (under_fc f.fc (resolve t (query_of f)).das) k ≡ some a)
        × (v ≡ structure es)
        × (nth es k ≡ some x)
        × (name ≡ da_name a)
        × (val ≡ unwrap_single (data_view m false x)))

-- What stands under the leaf of a selected name.
abbrev Leads :
    MmsApi → DataTypeTemplates → String → Components → ℕ → FcdaEntry → String → GoValue → Type 0
Leads m t ied_name cs i f name val =
    (k : ℕ) × (leaf : SchemaLeaf) × (get_elem? (entry_leaves t ied_name i f) k ≡ some leaf)
    × (leaf.path ≡ leaf_path (base_path ied_name f) name)
    × (LeafReads (nth cs leaf.fcda_idx) leaf.da_idx
        → apply_leaf (slice_view m false cs) leaf ≡ some val)

module _ (m : MmsApi) (laws : MmsLaws m) where
  apply-sub :
      (es : Components) (k : ℕ) (x : MmsValue)
      → NoNull es
      → nth es k ≡ some x
      → sub_value (data_view m false (structure es)) k ≡ some (unwrap_single (data_view m false x))
  unfolding data_view
  apply-sub es k x full at =
      ap (λ o. o >>= λ v. some (unwrap_single v))
        (value_at-slice_view m laws es k full ∙ ap (option_view m laws) at)

  Selected-Leads :
      (t : DataTypeTemplates) (ied_name : String) (cs : Components) (i : ℕ) (f : FcdaEntry)
      (v : MmsValue) (name : String) (val : GoValue)
      → NoNull cs
      → nth cs i ≡ some v
      → Selected m t f v name val
      → Leads m t ied_name cs i f name val
  unfolding apply_leaf
  Selected-Leads t ied_name cs i f v name val full at (inl (named, n, e)) = (
    0,
    record { path = leaf_path (base_path ied_name f) f.da_name; fcda_idx = i; da_idx = none },
    rw named refl,
    ap (leaf_path (base_path ied_name f)) (sym n),
    λ reads.
        ap (λ o. apply_at o none)
          (value_at-slice_view m laws cs i full ∙ ap (option_view m laws) at)
        ∙ ap some (sym e),
  )
  Selected-Leads t ied_name cs i f v name val full at
        (inr (k, a, es, x, whole, attr, s, el, n, e)) =
      (
        k,
        sub_leaf (base_path ied_name f) i k a,
        rw whole (
            numbered-at (base_path ied_name f) i 0 k k (under_fc f.fc (resolve t (query_of f)).das)
              a (omega arith) attr),
        ap (leaf_path (base_path ied_name f)) (sym n),
        λ reads.
            ap (λ o. apply_at o (some k))
              (value_at-slice_view m laws cs i full ∙ ap (option_view m laws) (at ∙ ap some s))
            ∙ apply-sub es k x (subst (λ o. LeafReads o (some k)) (at ∙ ap some s) reads).0 el
            ∙ ap some (sym e),
      )

  -- Reading with the schema that was built for the data set stores the values under their names:
  -- the read has no error, and the map has under the reference of an entry, followed by a name that
  -- belongs to it, the value of the server that belongs to the name, of an entry of an attribute the
  -- member's and of an entry of an object that of the attribute below it. Hypotheses: the accessors
  -- do what is documented; the data set is fresh and its queries share a key only where they share
  -- an answer; no value is NULL, the values fit the schema, timestamps are kept, and no two leaves
  -- have the same path.
  pub read_data_set_flat-stored :
      (P : Query → Type 0) (ds : DataSetDetail) (cs : Components) (out : Dict GoValue) (i : ℕ)
      (f : FcdaEntry) (v : MmsValue) (name : String) (val : GoValue)
      → ds.do_types ≡ none
      → Unambiguous ds.templates P
      → AllQueries P ds.data_set.fcda
      → NoNull cs
      → FitsSchema cs (expected_leaves ds.templates ds.ied_name 0 ds.data_set.fcda)
      → DistinctPaths (expected_leaves ds.templates ds.ied_name 0 ds.data_set.fcda)
      → get_elem? ds.data_set.fcda i ≡ some f
      → nth cs i ≡ some v
      → Selected m ds.templates f v name val
      → ((read_data_set_flat m false (read (data_set_of cs)) (build_data_set_schema ds).0 out).0
          ≡ none)
        × (lookup
              (leaf_path (base_path ds.ied_name f) name)
              (read_data_set_flat m false
                (read (data_set_of cs))
                (build_data_set_schema ds).0
                out).1
            ≡ some val)
  unfolding read_data_set_flat
  read_data_set_flat-stored P ds cs out i f v name val fresh one asks full fits distinct entry at
        selected =
      let leaves = expected_leaves ds.templates ds.ied_name 0 ds.data_set.fcda in
      let (k, leaf, here, path, stored) =
        Selected-Leads ds.templates ds.ied_name cs i f v name val full at selected in
      let (n, there) =
        expected_leaves-at ds.templates ds.ied_name 0 i i k ds.data_set.fcda f leaf (omega arith)
          entry here in
      (
        refl,
        rw (build_data_set_schema-eq P ds fresh one asks, leaves_eq m laws cs leaves out full fits)
            (ap (λ p. lookup p (for_leaves (apply_leaf (slice_view m false cs)) leaves out))
                (sym path)
              ∙ for_leaves-at (apply_leaf (slice_view m false cs)) leaves n leaf out distinct there
              ∙ ap (λ o. or_old o (lookup leaf.path out))
                  (stored (FitsSchema-at cs leaves n leaf fits there))),
      )
