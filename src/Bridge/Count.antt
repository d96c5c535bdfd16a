-- ===== src/Bridge/Count.antt =====
-- `count_mms_elements` of iec61850/report_bridge.c: how many tokens a value takes.
pub mod Exact
use go_libiec.Prelude.{
  ℕ, zero, suc, ◌+◌, ◌%◌, ◌^◌, Bool, true, false, Option, none, some, if◌then◌else◌,
}
use go_libiec.Mms.Types.{MmsType, mms_structure, mms_array}
use go_libiec.Mms.Value.{MmsValue}
use go_libiec.Mms.Api.{MmsApi}

-- `t == MMS_STRUCTURE || t == MMS_ARRAY`
abbrev pub is_composite : MmsType → Bool
is_composite mms_structure = true
is_composite mms_array = true
is_composite _ = false

-- `a + b` on `int`, as the 32-bit pattern.
abbrev pub add_int : ℕ → ℕ → ℕ
add_int a b = (a + b) % 2 ^ 32

module _ (m : MmsApi) where
  -- The loop over the elements `i, i + 1, …` with `rounds` of them left; `rec` is the recursive call.
  unfoldable pub count_loop : (Option MmsValue → ℕ) → MmsValue → ℕ → ℕ → ℕ → ℕ
  count_loop rec v zero i count = count
  count_loop rec v (suc rounds) i count =
      count_loop rec v rounds (suc i) (add_int count (rec (m.get_element v i)))

  -- The first argument bounds the depth of the recursion.
  unfoldable pub count_mms_elements : ℕ → Option MmsValue → ℕ
  count_mms_elements zero val = 0
  count_mms_elements (suc f) none = 0
  count_mms_elements (suc f) (some v) =
      if is_composite (m.get_type v)
      then count_loop (count_mms_elements f) v (m.get_array_size v) 0 2
      else 1
