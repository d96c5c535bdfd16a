-- ===== src/Client/Resolve/View.antt =====
-- The Go value that a data set read gives for an MMS value.
use go_libiec.Prelude.{ℕ, zero, suc, ◌+◌, ◌≤◌, ◌<◌, ◌≡◌, refl, ap, ◌∙◌, Bool, arith}
use go_libiec.Mms.Types.{MmsType}
use go_libiec.Mms.Value.{
  MmsValue, Components, array, structure, boolean, bit_string, integer, unsigned, floating_point,
  visible_string, text_string, utc_time, no_components, null_component, component, type_of, nth,
  components_size, height, height_components, height_pos, height_structure,
}
use go_libiec.Mms.Api.{MmsApi, MmsLaws}
use go_libiec.Values.{GoValue, MmsSlice, nil, bool, int64, float64, string, mms_slice, no_mms, mms}
use go_libiec.Report.Decode.{go_string}
use go_libiec.Client.Resolve.{unless, dig_loop, resolve_value}

module _ (m : MmsApi) (without_timestamps : Bool) where
  -- A structure is the slice of its elements up to the first NULL, each with its type; an array is
  -- the nil slice; a type that the switch does not name is nil.
  unfoldable mutual
    pub data_view : MmsValue → GoValue
    data_view (array cs) = mms_slice no_mms
    data_view (structure cs) = mms_slice (slice_view cs)
    data_view (boolean b) = bool (m.scalars.get_boolean (boolean b))
    data_view (bit_string n b) =
        unless without_timestamps (m.scalars.get_bit_string_as_integer (bit_string n b))
    data_view (integer p) = int64 (m.to_int64 (integer p))
    data_view (unsigned p) = int64 (m.to_int64 (unsigned p))
    data_view (floating_point e w b) = float64 (m.to_double (floating_point e w b))
    data_view (visible_string s n) = string (go_string (m.scalars.to_string (visible_string s n)))
    data_view (text_string s n) = string (go_string (m.scalars.to_string (text_string s n)))
    data_view (utc_time b) = unless without_timestamps (m.to_unix_timestamp (utc_time b))
    data_view _ = nil

    pub slice_view : Components → MmsSlice
    slice_view no_components = no_mms
    slice_view (null_component cs) = no_mms
    slice_view (component v cs) = mms (type_of v) (data_view v) (slice_view cs)

module _ (m : MmsApi) (laws : MmsLaws m) (without_timestamps : Bool) where
  abbrev Resolves : ℕ → (MmsValue → MmsType → GoValue) → Type 0
  Resolves depth rec =
      (v : MmsValue) → height v ≤ depth → rec v (type_of v) ≡ data_view m without_timestamps v

  dig_loop-eq :
      (depth fuel : ℕ) (rec : MmsValue → MmsType → GoValue) (v : MmsValue) (cs : Components) (i : ℕ)
      → Resolves depth rec
      → ((k j : ℕ) → j ≡ i + k → m.get_element v j ≡ nth cs k)
      → height_components cs ≤ depth
      → components_size cs < fuel
      → dig_loop m without_timestamps rec fuel v i ≡ slice_view m without_timestamps cs
  unfolding dig_loop height data_view
  dig_loop-eq d zero rec v cs i w r h e = absurd (omega arith)
  dig_loop-eq d (suc fuel) rec v no_components i w r h e = rw (r 0 i (omega arith), dig_loop)
  dig_loop-eq d (suc fuel) rec v (null_component cs) i w r h e = rw (r 0 i (omega arith), dig_loop)
  dig_loop-eq d (suc fuel) rec v (component x cs) i w r h e =
      let rest =
        dig_loop-eq d fuel rec v cs (suc i) w (λ k j p. r (suc k) j (omega arith)) (omega arith)
          (omega arith) in
      rw (r 0 i (omega arith), dig_loop) (cc (laws.type_law x, w x (omega arith), rest))

  resolve_step :
      (depth : ℕ) (v : MmsValue)
      → Resolves depth (resolve_value m without_timestamps depth)
      → height v ≤ suc depth
      → resolve_value m without_timestamps (suc depth) v (type_of v)
        ≡ data_view m without_timestamps v
  unfolding resolve_value data_view
  resolve_step depth (array cs) w h = refl
  resolve_step depth (structure cs) w h =
      let rec = resolve_value m without_timestamps depth in
      ap mms_slice (
        ap (λ n. dig_loop m without_timestamps rec (suc n) (structure cs) 0)
          (laws.structure_size cs)
        ∙ dig_loop-eq depth (suc (components_size cs)) rec (structure cs) cs 0 w
            (λ k j e. laws.structure_element cs j ∙ ap (nth cs) (omega arith))
            (height_structure cs depth h) (omega arith))
  resolve_step depth _ w h = refl

  resolve_value-Resolves : (depth : ℕ) → Resolves depth (resolve_value m without_timestamps depth)
  resolve_value-Resolves zero v h = absurd (omega (arith, height_pos v))
  resolve_value-Resolves (suc depth) v h = resolve_step depth v (resolve_value-Resolves depth) h

  -- With a depth of at least the value's height, the conversion gives the value that `data_view`
  -- describes: in a structure the elements up to the first NULL, and the nil slice for an array.
  pub resolve_value-eq :
      (depth : ℕ) (v : MmsValue)
      → height v ≤ depth
      → resolve_value m without_timestamps depth v (type_of v) ≡ data_view m without_timestamps v
  resolve_value-eq depth v h = resolve_value-Resolves depth v h
