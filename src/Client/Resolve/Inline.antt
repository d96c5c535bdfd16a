-- ===== src/Client/Resolve/Inline.antt =====
-- The optimised conversion against the plain one.
use Prim.Native.String.{len, slice}
use text.Mathlib.TextPositions.{slice_all, slice-zero-zero}
use mathlib.Core.Path.{fun_ext}
use go_libiec.Prelude.{
  ℕ, zero, suc, String, ◌≡◌, refl, ap, ◌∙◌, sym, inl, inr, Bool, Option, none, some, ◌==◌,
  Bool-cases, Option-cases, ==_iff,
}
use go_libiec.Mms.Types.{MmsType, mms_array, mms_structure, mms_visible_string, mms_string}
use go_libiec.Mms.Value.{MmsValue}
use go_libiec.Mms.Api.{MmsApi}
use go_libiec.Values.{
  GoValue, MmsSlice, nil, string, mms_slice, no_mms, mms, len_mms, append_mms, set_value_at,
}
use go_libiec.Report.Decode.{go_string}
use go_libiec.Client.Resolve.{
  c_string_to_go_string, dig_loop, dig_into_structure, dig_loop_optimized,
  dig_into_structure_optimized, resolve_typed, resolve_typed_inline, resolve_value,
  resolve_value_inline,
}

empty_of_len : (s : String) → len s ≡ 0 → "" ≡ s
empty_of_len s h = sym (slice-zero-zero s) ∙ sym (ap (slice s 0) h) ∙ slice_all s

-- The unsafe copy is `C.GoString`.
pub c_string_to_go_string-eq : (s : Option String) → c_string_to_go_string s ≡ go_string s
unfolding c_string_to_go_string
c_string_to_go_string-eq none = refl
c_string_to_go_string-eq (some s) = elim (Bool-cases (len s == 0)) [
  | inl empty ↦ rw empty (empty_of_len s ((==_iff (len s) 0).0 empty))
  | inr full ↦ rw full
]

abbrev append_slice : MmsSlice → MmsSlice → MmsSlice
append_slice no_mms r = r
append_slice (mms t v s) r = mms t v (append_slice s r)

append_slice-no_mms : (s : MmsSlice) → append_slice s no_mms ≡ s
append_slice-no_mms no_mms = refl
append_slice-no_mms (mms t v s) = ap (mms t v) (append_slice-no_mms s)

append_slice-append_mms :
    (s r : MmsSlice) (t : MmsType) (v : GoValue)
    → append_slice (append_mms s t v) r ≡ append_slice s (mms t v r)
append_slice-append_mms no_mms r t v = refl
append_slice-append_mms (mms u w s) r t v = ap (mms u w) (append_slice-append_mms s r t v)

-- Setting the entry just appended is appending it whole.
set_value_at-append_mms :
    (s : MmsSlice) (t : MmsType) (v w : GoValue)
    → set_value_at (append_mms s t w) (len_mms s) v ≡ append_mms s t v
set_value_at-append_mms no_mms t v w = refl
set_value_at-append_mms (mms u x s) t v w = ap (mms u x) (set_value_at-append_mms s t v w)

len_mms-append_mms :
    (s : MmsSlice) (t : MmsType) (v : GoValue) → suc (len_mms s) ≡ len_mms (append_mms s t v)
len_mms-append_mms no_mms t v = refl
len_mms-append_mms (mms u w s) t v = ap suc (len_mms-append_mms s t v)

module _ (m : MmsApi) (without_timestamps : Bool) where
  dig_loop_optimized-eq :
      (rec : MmsValue → MmsType → GoValue) (fuel : ℕ) (v : MmsValue) (index : ℕ) (s : MmsSlice)
      → index ≡ len_mms s
      → dig_loop_optimized m without_timestamps rec fuel v index s
        ≡ append_slice s (dig_loop m without_timestamps rec fuel v index)
  unfolding dig_loop_optimized dig_loop
  dig_loop_optimized-eq rec zero v index s h = sym (append_slice-no_mms s)
  dig_loop_optimized-eq rec (suc fuel) v index s h = elim (Option-cases (m.get_element v index)) [
    | inl missing ↦ rw (missing, dig_loop_optimized, dig_loop) (sym (append_slice-no_mms s))
    | inr (value, there) ↦
        let x = rec value (m.get_type value) in
        let t = m.get_type value in
        let stored : set_value_at (append_mms s t nil) index x ≡ append_mms s t x =
          ap (λ i. set_value_at (append_mms s t nil) i x) h ∙ set_value_at-append_mms s t x nil in
        rw (there, dig_loop_optimized, dig_loop)
          (ap (dig_loop_optimized m without_timestamps rec fuel v (suc index)) stored
            ∙ dig_loop_optimized-eq rec fuel v (suc index) (append_mms s t x)
                (ap suc h ∙ len_mms-append_mms s t x)
            ∙ append_slice-append_mms s (dig_loop m without_timestamps rec fuel v (suc index)) t x)
  ]

  optimized-eq :
      (rec : MmsValue → MmsType → GoValue) (v : MmsValue) (t : MmsType)
      → dig_into_structure_optimized m without_timestamps rec v t
        ≡ dig_into_structure m without_timestamps rec v t
  unfolding dig_into_structure_optimized dig_into_structure
  optimized-eq rec v mms_structure =
      dig_loop_optimized-eq rec (suc (m.get_array_size v)) v 0 no_mms refl
  optimized-eq rec v _ = refl

  typed-eq :
      (rec : MmsValue → MmsType → GoValue) (v : MmsValue) (t : MmsType)
      → resolve_typed_inline m without_timestamps rec v t
        ≡ resolve_typed m without_timestamps rec v t
  unfolding resolve_typed_inline resolve_typed
  typed-eq rec v mms_string = ap string (c_string_to_go_string-eq (m.scalars.to_string v))
  typed-eq rec v mms_visible_string = ap string (c_string_to_go_string-eq (m.scalars.to_string v))
  typed-eq rec v mms_structure = ap mms_slice (optimized-eq rec v mms_structure)
  typed-eq rec v mms_array = ap mms_slice (optimized-eq rec v mms_array)
  typed-eq rec v _ = refl

  inline-eq :
      (depth : ℕ)
      → resolve_value_inline m without_timestamps depth ≡ resolve_value m without_timestamps depth
  unfolding resolve_value_inline resolve_value
  inline-eq zero = refl
  inline-eq (suc depth) = fun_ext λ v. fun_ext λ t.
      typed-eq (resolve_value_inline m without_timestamps depth) v t
      ∙ ap (λ rec. resolve_typed m without_timestamps rec v t) (inline-eq depth)

  -- The optimised conversion gives the value of the plain one, for every value, type and depth, with
  -- or without the timestamps.
  pub resolve_value_inline-eq :
      (depth : ℕ) (v : MmsValue) (t : MmsType)
      → resolve_value_inline m without_timestamps depth v t
        ≡ resolve_value m without_timestamps depth v t
  resolve_value_inline-eq depth v t =
      ap (λ (f : MmsValue → MmsType → GoValue). f v t) (inline-eq depth)
