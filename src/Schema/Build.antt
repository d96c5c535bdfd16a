-- ===== src/Schema/Build.antt =====
-- What `BuildDataSetSchema` produces, without its loops and without the cache.
use go_libiec.Prelude.{
  ℕ, suc, ◌≡◌, refl, ap, ◌∙◌, String, none, some, List, [], ◌∷◌, ◌++◌, length, str_eq, inl, inr,
  Bool-cases, if◌then◌else◌,
}
use go_libiec.Scl.Types.{Da, da_name, da_fc, FcdaEntry, DoType, DataSetDetail, DataTypeTemplates}
use go_libiec.Scl.DoType.Memo.{
  Query, resolve, Unambiguous, Coherent, call-eq-resolve, call-templates, call-Coherent,
  call-ied_name, nothing_cached,
}
use go_libiec.Schema.{
  SchemaLeaf, base_path, leaf_path, da_leaves, fcda_leaves, build_leaves, build_data_set_schema,
}

-- The attributes under one functional constraint.
abbrev pub under_fc : String → List Da → List Da
under_fc fc [] = []
under_fc fc (a ∷ das) = if str_eq (da_fc a) fc then a ∷ under_fc fc das else under_fc fc das

-- Numbered leaves, from `k` on.
abbrev pub numbered : String → ℕ → ℕ → List Da → List SchemaLeaf
numbered base idx k [] = []
numbered base idx k (a ∷ das) =
    record { path = leaf_path base (da_name a); fcda_idx = idx; da_idx = some k }
    ∷ numbered base idx (suc k) das

da_leaves-eq :
    (base : String) (idx : ℕ) (fc : String) (k : ℕ) (das : List Da)
    → da_leaves base idx fc k das ≡ numbered base idx k (under_fc fc das)
unfolding da_leaves
da_leaves-eq base idx fc k [] = refl
da_leaves-eq base idx fc k (a ∷ das) = elim (Bool-cases (str_eq (da_fc a) fc)) [
  | inl hit ↦ rw hit (rw (da_leaves-eq base idx fc (suc k) das))
  | inr miss ↦ rw miss (da_leaves-eq base idx fc k das)
]

abbrev pub query_of : FcdaEntry → Query
query_of f = record { prefix = f.prefix; ln_class = f.ln_class; name = f.do_name }

-- The leaves of one entry: itself where it names an attribute, else the attributes of its object's
-- type under its constraint, numbered.
abbrev pub entry_leaves : DataTypeTemplates → String → ℕ → FcdaEntry → List SchemaLeaf
entry_leaves t ied_name idx f =
    if str_eq f.da_name ""
    then numbered (base_path ied_name f) idx 0 (under_fc f.fc (resolve t (query_of f)).das)
    else record { path = leaf_path (base_path ied_name f) f.da_name; fcda_idx = idx; da_idx = none }
      ∷ []

abbrev pub expected_leaves : DataTypeTemplates → String → ℕ → List FcdaEntry → List SchemaLeaf
expected_leaves t ied_name idx [] = []
expected_leaves t ied_name idx (f ∷ fs) =
    entry_leaves t ied_name idx f ++ expected_leaves t ied_name (suc idx) fs

-- Every entry asks a query of `P`.
abbrev pub AllQueries : (Query → Type 0) → List FcdaEntry → Type 0
AllQueries P [] = Unit
AllQueries P (f ∷ fs) = P (query_of f) × AllQueries P fs

module _ (P : Query → Type 0) (ds : DataSetDetail) (idx : ℕ) (f : FcdaEntry) where
  fcda_leaves-eq :
      Unambiguous ds.templates P
      → Coherent P ds
      → P (query_of f)
      → (fcda_leaves ds idx f).0 ≡ entry_leaves ds.templates ds.ied_name idx f
  unfolding fcda_leaves
  fcda_leaves-eq one ok p = elim (Bool-cases (str_eq f.da_name "")) [
    | inl whole ↦ rw whole (
        ap (λ (t : DoType). da_leaves (base_path ds.ied_name f) idx f.fc 0 t.das)
          (call-eq-resolve P ds one ok (query_of f) p)
        ∙ da_leaves-eq (base_path ds.ied_name f) idx f.fc 0 (resolve ds.templates (query_of f)).das)
    | inr part ↦ rw part
  ]

  fcda_leaves-templates : (fcda_leaves ds idx f).1.templates ≡ ds.templates
  unfolding fcda_leaves
  fcda_leaves-templates = elim (Bool-cases (str_eq f.da_name "")) [
    | inl whole ↦ rw whole (call-templates ds (query_of f))
    | inr part ↦ rw part
  ]

  fcda_leaves-ied_name : (fcda_leaves ds idx f).1.ied_name ≡ ds.ied_name
  unfolding fcda_leaves
  fcda_leaves-ied_name = elim (Bool-cases (str_eq f.da_name "")) [
    | inl whole ↦ rw whole (call-ied_name ds (query_of f))
    | inr part ↦ rw part
  ]

  fcda_leaves-Coherent :
      Unambiguous ds.templates P
      → Coherent P ds
      → P (query_of f)
      → Coherent P (fcda_leaves ds idx f).1
  unfolding fcda_leaves
  fcda_leaves-Coherent one ok p = elim (Bool-cases (str_eq f.da_name "")) [
    | inl whole ↦ rw whole (call-Coherent P ds one ok (query_of f) p)
    | inr part ↦ rw part ok
  ]

build_leaves-eq :
    (P : Query → Type 0) (ds : DataSetDetail) (idx : ℕ) (fs : List FcdaEntry)
    → Unambiguous ds.templates P
    → Coherent P ds
    → AllQueries P fs
    → (build_leaves ds idx fs).0 ≡ expected_leaves ds.templates ds.ied_name idx fs
unfolding build_leaves
build_leaves-eq P ds idx [] one ok h = refl
build_leaves-eq P ds idx (f ∷ fs) one ok h =
    let t = fcda_leaves-templates P ds idx f in
    let n = fcda_leaves-ied_name P ds idx f in
    let rest =
      build_leaves-eq P (fcda_leaves ds idx f).1 (suc idx) fs (rw t one)
        (fcda_leaves-Coherent P ds idx f one ok h.0) h.1 in
    let ds' = (fcda_leaves ds idx f).1 in
    ap (λ ls. ls ++ (build_leaves ds' (suc idx) fs).0) (fcda_leaves-eq P ds idx f one ok h.0)
    ∙ ap (λ ls. entry_leaves ds.templates ds.ied_name idx f ++ ls)
        (rest
          ∙ ap (λ x. expected_leaves x ds'.ied_name (suc idx) fs) t
          ∙ ap (λ x. expected_leaves ds.templates x (suc idx) fs) n)

-- On a fresh data set whose queries share a key only where they share an answer, the schema counts
-- the entries, and its leaves are, in the order of the entries, one for an entry that names an
-- attribute and else one for each attribute under the entry's constraint, numbered from 0.
pub build_data_set_schema-eq :
    (P : Query → Type 0) (ds : DataSetDetail)
    → ds.do_types ≡ none
    → Unambiguous ds.templates P
    → AllQueries P ds.data_set.fcda
    → (build_data_set_schema ds).0 ≡ record {
      leaves = expected_leaves ds.templates ds.ied_name 0 ds.data_set.fcda;
      fcda_count = length ds.data_set.fcda;
    }
unfolding build_data_set_schema
build_data_set_schema-eq P ds fresh one h =
    ap (λ ls. record { leaves = ls; fcda_count = length ds.data_set.fcda })
      (build_leaves-eq P ds 0 ds.data_set.fcda one (nothing_cached P ds fresh) h)
