-- ===== src/Tests/Control.antt =====
-- The theorems on iec61850/iec61850_control.go with a small library.
use go_libiec.Prelude.{ℕ, ◌≡◌, refl, Bool, true, false, some, [], ◌∷◌, lookup, length, ltb}
use go_libiec.Mms.Types.{mms_boolean, mms_integer}
use go_libiec.Client.Errors.{access_denied, err}
use go_libiec.Itoa.{itoa_loop}
use go_libiec.Control.{
  wrong_type, operate_failed, boolean, int32, float32, create, new_value, set_value, set_origin,
  operate, ControlApi, Client, get_or_create, on_lookup, with_entry, with_value, send,
  direct_with_normal_security, direct_with_normal_security_int32,
  direct_with_normal_security_float32,
}
use go_libiec.Control.Balance.{control_handle, IsBalanced}
use go_libiec.Control.Direct.{direct_with_normal_security-IsBalanced}
use go_libiec.Control.Operate.{Reported, direct_with_normal_security-Reported}
use go_libiec.Control.Texts.{
  mms_type_name, hex, find_escape, quoted_chars, quote, control_error_text,
}
use go_libiec.Control.IntegerCheck.{direct_with_normal_security_int32-cached}

-- Every object has the number of calls before it; every control value is a Boolean, and the
-- operates are accepted.
abbrev pub switches : ControlApi
switches = record {
  created = λ log ref. some (length log);
  get_ctl_val_type = λ log ctrl. mms_boolean;
  allocated = λ log x. some (length log);
  operated = λ log ctrl v. true;
  get_last_error = λ log ctrl. access_denied;
}

-- A client with one control object and its value.
abbrev one_object : Client
one_object = record {
  control_cache = some (("LD/GGIO1.SPCSO1", record { ctrl = 0; ctl_reuse = some 1 }) ∷ []);
  log = new_value (boolean false) (some 1) ∷ create "LD/GGIO1.SPCSO1" (some 0) ∷ [];
}

direct_with_normal_security-IsBalanced_example :
    ((val : Bool)
      → IsBalanced
          (control_handle 2)
          (direct_with_normal_security switches "LD/GGIO1.SPCSO2" val one_object).1)
    × ((val : ℕ)
        → IsBalanced
            (control_handle 2)
            (direct_with_normal_security_int32 switches "LD/GGIO1.SPCSO2" val one_object).1)
    × ((val : ℕ)
        → IsBalanced
            (control_handle 2)
            (direct_with_normal_security_float32 switches "LD/GGIO1.SPCSO2" val one_object).1)
direct_with_normal_security-IsBalanced_example =
    direct_with_normal_security-IsBalanced switches (control_handle 2) "LD/GGIO1.SPCSO2" one_object
      refl

direct_with_normal_security-Reported_example :
    ((val : Bool)
      → Reported "LD/GGIO1.SPCSO1"
          (boolean val)
          one_object.log
          (direct_with_normal_security switches "LD/GGIO1.SPCSO1" val one_object))
    × ((val : ℕ)
        → Reported "LD/GGIO1.SPCSO1"
            (int32 val)
            one_object.log
            (direct_with_normal_security_int32 switches "LD/GGIO1.SPCSO1" val one_object))
    × ((val : ℕ)
        → Reported "LD/GGIO1.SPCSO1"
            (float32 val)
            one_object.log
            (direct_with_normal_security_float32 switches "LD/GGIO1.SPCSO1" val one_object))
direct_with_normal_security-Reported_example =
    direct_with_normal_security-Reported switches "LD/GGIO1.SPCSO1" one_object

direct_with_normal_security_int32-cached_example :
    direct_with_normal_security_int32 switches "LD/GGIO1.SPCSO1" 5 one_object
    ≡ direct_with_normal_security_int32
        (record switches { get_ctl_val_type = λ log c. mms_integer })
        "LD/GGIO1.SPCSO1"
        5
        one_object
unfolding lookup
direct_with_normal_security_int32-cached_example =
    direct_with_normal_security_int32-cached switches "LD/GGIO1.SPCSO1" 5 one_object
      (record { ctrl = 0; ctl_reuse = some 1 }) (λ log c. mms_integer) refl

-- An integer operate on the object of a Boolean: the value that was allocated as a Boolean is set.
mixed :
    (direct_with_normal_security_int32 switches "LD/GGIO1.SPCSO1" 5 one_object).1.log
    ≡ operate 0 1 true ∷ set_origin 0 3 ∷ set_value 1 (int32 5) ∷ one_object.log
unfolding direct_with_normal_security_int32 get_or_create on_lookup lookup with_entry with_value
    send
mixed = refl

abbrev ascii : ℕ → Bool
ascii c = ltb c 127

wrong_type_text :
    control_error_text ascii (int32 5) (wrong_type "LD/LN.Mod" mms_boolean)
    ≡ "control \"LD/LN.Mod\": ctlVal MMS type is 2 (MMS_BOOLEAN), want MMS_INTEGER for INC"
unfolding control_error_text quote quoted_chars find_escape hex mms_type_name itoa_loop
wrong_type_text = refl

operate_failed_text :
    control_error_text ascii (boolean true) (operate_failed "a\"\n" access_denied)
    ≡ "failed to operate \"a\\\"\\n\": IED_ERROR_ACCESS_DENIED"
unfolding control_error_text quote quoted_chars find_escape hex mms_type_name err
operate_failed_text = refl
