-- ===== src/Client/DataSet/Flat.antt =====
-- The two ways to read a data set by a schema give the same map.
use go_libiec.Prelude.{
  ℕ, zero, suc, ◌+◌, ◌≤◌, ◌≡◌, refl, sym, ap, ◌∙◌, Bool, false, Option, none, some, List, [], ◌∷◌,
  Dict, arith, ◌>>=◌,
}
use go_libiec.Mms.Value.{
  MmsValue, Components, array, structure, no_components, null_component, component, type_of, nth,
  components_size, height, height_components, height_array_le,
}
use go_libiec.Mms.Api.{MmsApi, MmsLaws}
use go_libiec.Bridge.Count.{is_composite}
use go_libiec.Values.{GoValue, MmsSlice}
use go_libiec.Client.Resolve.Inline.{resolve_value_inline-eq}
use go_libiec.Client.Resolve.View.{data_view, slice_view, resolve_value-eq}
use go_libiec.Client.DataSet.{
  ClientDataSet, extract_primitive, flat_at, flat_sub, unwrap_target, flat_leaf, read_data_set_flat,
  read_values_loop, read, values, read_data_set_values, or_fault,
}
use go_libiec.Schema.{
  SchemaLeaf, DataSetSchema, value_at, unwrap_single, sub_value, apply_at, apply_leaf, store_leaf,
  for_leaves, apply_schema,
}

abbrev pub NoNull : Components → Type 0
NoNull no_components = Unit
NoNull (null_component cs) = ⊥
NoNull (component v cs) = NoNull cs

-- A data set as the library reads it: the array of its values, with their number.
abbrev pub data_set_of : Components → ClientDataSet
data_set_of cs = record { data_set_values = array cs; size = components_size cs }

abbrev pub Primitive : MmsValue → Type 0
Primitive v = is_composite (type_of v) ≡ false

-- A primitive value, or a structure of just one.
abbrev pub Unwraps : MmsValue → Type 0
Unwraps (structure (component x no_components)) = Primitive x
Unwraps (structure _) = ⊥
Unwraps (array _) = ⊥
Unwraps _ = Unit

abbrev pub UnwrapsIfThere : Option MmsValue → Type 0
UnwrapsIfThere none = Unit
UnwrapsIfThere (some v) = Unwraps v

-- The value is a structure with no NULL whose element `k`, if it is there, unwraps.
abbrev pub ReadsAt : MmsValue → ℕ → Type 0
ReadsAt (structure es) k = NoNull es × UnwrapsIfThere (nth es k)
ReadsAt _ k = ⊥

abbrev pub LeafReads : Option MmsValue → Option ℕ → Type 0
LeafReads none d = Unit
LeafReads (some v) none = Primitive v
LeafReads (some v) (some k) = ReadsAt v k

-- The values fit the schema: at each leaf stands a primitive value, or a structure of primitive
-- values and of structures of one primitive value.
abbrev pub FitsSchema : Components → List SchemaLeaf → Type 0
FitsSchema cs [] = Unit
FitsSchema cs (l ∷ ls) = LeafReads (nth cs l.fcda_idx) l.da_idx × FitsSchema cs ls

module _ (m : MmsApi) (laws : MmsLaws m) where
  abbrev pub view : MmsValue → GoValue
  view = data_view m false

  abbrev pub option_view : Option MmsValue → Option GoValue
  option_view none = none
  option_view (some v) = some (view v)

  pub value_at-slice_view :
      (cs : Components) (i : ℕ)
      → NoNull cs
      → value_at (slice_view m false cs) i ≡ option_view (nth cs i)
  unfolding data_view
  value_at-slice_view no_components i h = refl
  value_at-slice_view (null_component cs) i h = absurd h
  value_at-slice_view (component v cs) zero h = refl
  value_at-slice_view (component v cs) (suc i) h = value_at-slice_view cs i h

  extract_primitive-eq : (v : MmsValue) → Primitive v → extract_primitive m false v ≡ view v
  unfolding extract_primitive data_view
  extract_primitive-eq (array cs) h = cc
  extract_primitive-eq (structure cs) h = cc
  extract_primitive-eq v h = rw (laws.type_law v)

  unwrap-eq :
      (v : MmsValue)
      → Unwraps v
      → unwrap_single (view v) ≡ extract_primitive m false (unwrap_target m false v (m.get_type v))
  unfolding data_view unwrap_target
  unwrap-eq (structure no_components) h = absurd h
  unwrap-eq (structure (null_component cs)) h = absurd h
  unwrap-eq (structure (component x (component y cs))) h = absurd h
  unwrap-eq (structure (component x (null_component cs))) h = absurd h
  unwrap-eq (structure (component x no_components)) h =
      rw
        (
          laws.type_law (structure (component x no_components)),
          laws.structure_element (component x no_components) 0,
        )
        (sym (extract_primitive-eq x h))
  unwrap-eq (array cs) h = absurd h
  unwrap-eq v h = rw (laws.type_law v) (sym (extract_primitive-eq v refl))

  sub_eq :
      (o : Option MmsValue)
      → UnwrapsIfThere o
      → (option_view o >>= λ v. some (unwrap_single v)) ≡ flat_sub m false o
  sub_eq none u = refl
  sub_eq (some v) u = ap some (unwrap-eq v u)

  structure_leaf :
      (top : MmsValue) (k : ℕ)
      → ReadsAt top k
      → sub_value (view top) k ≡ flat_sub m false (m.get_element top k)
  unfolding data_view
  structure_leaf (structure es) k (full, fits) =
      ap (λ o. o >>= λ v. some (unwrap_single v)) (value_at-slice_view es k full)
      ∙ sub_eq (nth es k) fits
      ∙ sym (ap (flat_sub m false) (laws.structure_element es k))
  structure_leaf (array es) k h = absurd h
  structure_leaf _ k h = absurd h

  at_eq :
      (o : Option MmsValue) (d : Option ℕ)
      → LeafReads o d
      → flat_at m false o d ≡ apply_at (option_view o) d
  at_eq none d h = refl
  at_eq (some v) none h = ap some (extract_primitive-eq v h)
  at_eq (some v) (some k) h = sym (structure_leaf v k h)

  leaf_eq :
      (cs : Components) (leaf : SchemaLeaf)
      → NoNull cs
      → LeafReads (nth cs leaf.fcda_idx) leaf.da_idx
      → flat_leaf m false (array cs) leaf ≡ apply_leaf (slice_view m false cs) leaf
  unfolding flat_leaf apply_leaf
  leaf_eq cs leaf full h =
      ap (λ o. flat_at m false o leaf.da_idx) (laws.array_element cs leaf.fcda_idx)
      ∙ at_eq (nth cs leaf.fcda_idx) leaf.da_idx h
      ∙ ap (λ o. apply_at o leaf.da_idx) (sym (value_at-slice_view cs leaf.fcda_idx full))

  pub leaves_eq :
      (cs : Components) (leaves : List SchemaLeaf) (out : Dict GoValue)
      → NoNull cs
      → FitsSchema cs leaves
      → for_leaves (flat_leaf m false (array cs)) leaves out
        ≡ for_leaves (apply_leaf (slice_view m false cs)) leaves out
  unfolding for_leaves
  leaves_eq cs [] out full h = refl
  leaves_eq cs (l ∷ ls) out full h =
      ap (λ o. for_leaves (flat_leaf m false (array cs)) ls (store_leaf l o out))
        (leaf_eq cs l full h.0)
      ∙ leaves_eq cs ls (store_leaf l (apply_leaf (slice_view m false cs) l) out) full h.1

  values_loop-eq :
      (depth : ℕ) (wt : Bool) (vs : MmsValue) (cs : Components) (i : ℕ)
      → NoNull cs
      → ((k j : ℕ) → j ≡ i + k → m.get_element vs j ≡ nth cs k)
      → height_components cs ≤ depth
      → read_values_loop m wt depth (components_size cs) vs i ≡ some (slice_view m wt cs)
  unfolding read_values_loop height data_view
  values_loop-eq d wt vs no_components i n r h = refl
  values_loop-eq d wt vs (null_component cs) i n r h = absurd n
  values_loop-eq d wt vs (component v cs) i n r h =
      rw
        (
          r 0 i (omega arith),
          read_values_loop,
          values_loop-eq d wt vs cs (suc i) n (λ k j p. r (suc k) j (omega arith)) (omega arith),
        )
        (cc (
          laws.type_law v,
          resolve_value_inline-eq m wt d v (type_of v),
          resolve_value-eq m laws wt d v (omega arith),
        ))

  -- A data set with no missing element is read whole, element by element.
  pub read_data_set_values-eq :
      (wt : Bool) (cs : Components)
      → NoNull cs
      → read_data_set_values m wt (read (data_set_of cs)) ≡ values (slice_view m wt cs)
  unfolding read_data_set_values
  read_data_set_values-eq wt cs full = ap or_fault (
      values_loop-eq (height (array cs)) wt (array cs) cs 0 full
        (λ k j e. laws.array_element cs j ∙ ap (nth cs) (omega arith)) (height_array_le cs))

  -- Where the values fit the schema, none is NULL and timestamps are kept, `ReadDataSetFlat` leaves the map that
  -- `ReadDataSetValues` followed by `ApplySchema` leaves.
  pub read_data_set_flat-eq-apply :
      (cs : Components) (schema : DataSetSchema) (out : Dict GoValue)
      → NoNull cs
      → FitsSchema cs schema.leaves
      → (s : MmsSlice) × (read_data_set_values m false (read (data_set_of cs)) ≡ values s)
        × (read_data_set_flat m false (read (data_set_of cs)) schema out
            ≡ (none, apply_schema schema s out))
  unfolding read_data_set_flat apply_schema
  read_data_set_flat-eq-apply cs schema out full fits = (
    slice_view m false cs,
    read_data_set_values-eq false cs full,
    ap (λ d. (none, d)) (leaves_eq cs schema.leaves out full fits),
  )
