-- ===== src/Values.antt =====
-- The Go values that the binding hands to its caller: what an `interface{}` holds, and
-- `GoMmsValue` of iec61850/iec61850_client.go.
use go_libiec.Prelude.{ℕ, zero, suc, String, Bool}
use go_libiec.Mms.Types.{MmsType}

-- One constructor for each dynamic type that the binding stores. `MmsSlice` is a `[]GoMmsValue`,
-- each entry with its fields `Type` and `Value`, and `AnySlice` an `[]interface{}`; a nil slice is
-- the empty one. An `int64` is the number of its 64-bit pattern, as a `float64` is.
mutual
  pub data GoValue : Type 0 where
    nil : GoValue
    bool : Bool → GoValue
    int int64 uint32 float64 : ℕ → GoValue
    string : String → GoValue
    mms_slice : MmsSlice → GoValue
    any_slice : AnySlice → GoValue

  pub data MmsSlice : Type 0 where
    no_mms : MmsSlice
    mms : MmsType → GoValue → MmsSlice → MmsSlice

  pub data AnySlice : Type 0 where
    no_any : AnySlice
    any : GoValue → AnySlice → AnySlice

-- `len`
abbrev pub len_mms : MmsSlice → ℕ
len_mms no_mms = 0
len_mms (mms t v s) = suc (len_mms s)

-- `append(s, GoMmsValue{Type: t, Value: v})`
abbrev pub append_mms : MmsSlice → MmsType → GoValue → MmsSlice
append_mms no_mms t v = mms t v no_mms
append_mms (mms u w s) t v = mms u w (append_mms s t v)

-- `s[i].Value = v`
abbrev pub set_value_at : MmsSlice → ℕ → GoValue → MmsSlice
set_value_at no_mms i v = no_mms
set_value_at (mms t w s) zero v = mms t v s
set_value_at (mms t w s) (suc i) v = mms t w (set_value_at s i v)
