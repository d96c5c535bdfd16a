-- ===== src/Client/Errors.antt =====
-- `IedClientError` of iec61850/inc/iec61850/inc/iec61850_client.h and its text in iec61850/types.go.
use go_libiec.Prelude.{
  ℕ, String, some, [], ◌∷◌, Dict, lookup, ◌≡◌, ◌≢◌, refl, sym, ap, ◌∙◌, some_eq,
}

pub data IedClientError : Type 0 where
  ok not_connected already_connected connection_lost service_not_supported : IedClientError
  connection_rejected outstanding_call_limit_reached : IedClientError
  user_provided_invalid_argument enable_report_failed_dataset_mismatch : IedClientError
  object_reference_invalid unexpected_value_received timeout access_denied : IedClientError
  object_does_not_exist object_exists object_access_unsupported : IedClientError
  type_inconsistent temporarily_unavailable object_undefined invalid_address : IedClientError
  hardware_fault type_unsupported object_attribute_inconsistent : IedClientError
  object_value_invalid object_invalidated malformed_message : IedClientError
  object_constraint_conflict service_not_implemented unknown : IedClientError

-- The value of the enumerator.
unfoldable pub error_code : IedClientError → ℕ
error_code ok = 0
error_code not_connected = 1
error_code already_connected = 2
error_code connection_lost = 3
error_code service_not_supported = 4
error_code connection_rejected = 5
error_code outstanding_call_limit_reached = 6
error_code user_provided_invalid_argument = 10
error_code enable_report_failed_dataset_mismatch = 11
error_code object_reference_invalid = 12
error_code unexpected_value_received = 13
error_code timeout = 20
error_code access_denied = 21
error_code object_does_not_exist = 22
error_code object_exists = 23
error_code object_access_unsupported = 24
error_code type_inconsistent = 25
error_code temporarily_unavailable = 26
error_code object_undefined = 27
error_code invalid_address = 28
error_code hardware_fault = 29
error_code type_unsupported = 30
error_code object_attribute_inconsistent = 31
error_code object_value_invalid = 32
error_code object_invalidated = 33
error_code malformed_message = 34
error_code object_constraint_conflict = 35
error_code service_not_implemented = 98
error_code unknown = 99

-- `Err`; its `switch` has no case for `IED_ERROR_OBJECT_CONSTRAINT_CONFLICT`.
unfoldable pub err : IedClientError → String
err ok = "IED_ERROR_OK"
err not_connected = "IED_ERROR_NOT_CONNECTED"
err already_connected = "IED_ERROR_ALREADY_CONNECTED"
err connection_lost = "IED_ERROR_CONNECTION_LOST"
err service_not_supported = "IED_ERROR_SERVICE_NOT_SUPPORTED"
err connection_rejected = "IED_ERROR_CONNECTION_REJECTED"
err outstanding_call_limit_reached = "IED_ERROR_OUTSTANDING_CALL_LIMIT_REACHED"
err user_provided_invalid_argument = "IED_ERROR_USER_PROVIDED_INVALID_ARGUMENT"
err enable_report_failed_dataset_mismatch = "IED_ERROR_ENABLE_REPORT_FAILED_DATASET_MISMATCH"
err object_reference_invalid = "IED_ERROR_OBJECT_REFERENCE_INVALID"
err unexpected_value_received = "IED_ERROR_UNEXPECTED_VALUE_RECEIVED"
err timeout = "IED_ERROR_TIMEOUT"
err access_denied = "IED_ERROR_ACCESS_DENIED"
err object_does_not_exist = "IED_ERROR_OBJECT_DOES_NOT_EXIST"
err object_exists = "IED_ERROR_OBJECT_EXISTS"
err object_access_unsupported = "IED_ERROR_OBJECT_ACCESS_UNSUPPORTED"
err type_inconsistent = "IED_ERROR_TYPE_INCONSISTENT"
err temporarily_unavailable = "IED_ERROR_TEMPORARILY_UNAVAILABLE"
err object_undefined = "IED_ERROR_OBJECT_UNDEFINED"
err invalid_address = "IED_ERROR_INVALID_ADDRESS"
err hardware_fault = "IED_ERROR_HARDWARE_FAULT"
err type_unsupported = "IED_ERROR_TYPE_UNSUPPORTED"
err object_attribute_inconsistent = "IED_ERROR_OBJECT_ATTRIBUTE_INCONSISTENT"
err object_value_invalid = "IED_ERROR_OBJECT_VALUE_INVALID"
err object_invalidated = "IED_ERROR_OBJECT_INVALIDATED"
err malformed_message = "IED_ERROR_MALFORMED_MESSAGE"
err object_constraint_conflict = "IED_ERROR_UNDEFINED"
err service_not_implemented = "IED_ERROR_SERVICE_NOT_IMPLEMENTED"
err unknown = "IED_ERROR_UNKNOWN"

-- The texts with the errors that have them.
abbrev texts : Dict IedClientError
texts =
    ("IED_ERROR_OK", ok)
    ∷ ("IED_ERROR_NOT_CONNECTED", not_connected)
    ∷ ("IED_ERROR_ALREADY_CONNECTED", already_connected)
    ∷ ("IED_ERROR_CONNECTION_LOST", connection_lost)
    ∷ ("IED_ERROR_SERVICE_NOT_SUPPORTED", service_not_supported)
    ∷ ("IED_ERROR_CONNECTION_REJECTED", connection_rejected)
    ∷ ("IED_ERROR_OUTSTANDING_CALL_LIMIT_REACHED", outstanding_call_limit_reached)
    ∷ ("IED_ERROR_USER_PROVIDED_INVALID_ARGUMENT", user_provided_invalid_argument)
    ∷ ("IED_ERROR_ENABLE_REPORT_FAILED_DATASET_MISMATCH", enable_report_failed_dataset_mismatch)
    ∷ ("IED_ERROR_OBJECT_REFERENCE_INVALID", object_reference_invalid)
    ∷ ("IED_ERROR_UNEXPECTED_VALUE_RECEIVED", unexpected_value_received)
    ∷ ("IED_ERROR_TIMEOUT", timeout)
    ∷ ("IED_ERROR_ACCESS_DENIED", access_denied)
    ∷ ("IED_ERROR_OBJECT_DOES_NOT_EXIST", object_does_not_exist)
    ∷ ("IED_ERROR_OBJECT_EXISTS", object_exists)
    ∷ ("IED_ERROR_OBJECT_ACCESS_UNSUPPORTED", object_access_unsupported)
    ∷ ("IED_ERROR_TYPE_INCONSISTENT", type_inconsistent)
    ∷ ("IED_ERROR_TEMPORARILY_UNAVAILABLE", temporarily_unavailable)
    ∷ ("IED_ERROR_OBJECT_UNDEFINED", object_undefined)
    ∷ ("IED_ERROR_INVALID_ADDRESS", invalid_address)
    ∷ ("IED_ERROR_HARDWARE_FAULT", hardware_fault)
    ∷ ("IED_ERROR_TYPE_UNSUPPORTED", type_unsupported)
    ∷ ("IED_ERROR_OBJECT_ATTRIBUTE_INCONSISTENT", object_attribute_inconsistent)
    ∷ ("IED_ERROR_OBJECT_VALUE_INVALID", object_value_invalid)
    ∷ ("IED_ERROR_OBJECT_INVALIDATED", object_invalidated)
    ∷ ("IED_ERROR_MALFORMED_MESSAGE", malformed_message)
    ∷ ("IED_ERROR_SERVICE_NOT_IMPLEMENTED", service_not_implemented)
    ∷ ("IED_ERROR_UNKNOWN", unknown)
    ∷ []

lookup-err : (e : IedClientError) → e ≢ object_constraint_conflict → lookup (err e) texts ≡ some e
unfolding err lookup
lookup-err ok h = refl
lookup-err not_connected h = refl
lookup-err already_connected h = refl
lookup-err connection_lost h = refl
lookup-err service_not_supported h = refl
lookup-err connection_rejected h = refl
lookup-err outstanding_call_limit_reached h = refl
lookup-err user_provided_invalid_argument h = refl
lookup-err enable_report_failed_dataset_mismatch h = refl
lookup-err object_reference_invalid h = refl
lookup-err unexpected_value_received h = refl
lookup-err timeout h = refl
lookup-err access_denied h = refl
lookup-err object_does_not_exist h = refl
lookup-err object_exists h = refl
lookup-err object_access_unsupported h = refl
lookup-err type_inconsistent h = refl
lookup-err temporarily_unavailable h = refl
lookup-err object_undefined h = refl
lookup-err invalid_address h = refl
lookup-err hardware_fault h = refl
lookup-err type_unsupported h = refl
lookup-err object_attribute_inconsistent h = refl
lookup-err object_value_invalid h = refl
lookup-err object_invalidated h = refl
lookup-err malformed_message h = refl
lookup-err object_constraint_conflict h = absurd (h refl)
lookup-err service_not_implemented h = refl
lookup-err unknown h = refl

-- The text tells the errors apart, all but the one that the switch leaves out.
pub err-injective :
    (d e : IedClientError)
    → d ≢ object_constraint_conflict
    → e ≢ object_constraint_conflict
    → err d ≡ err e
    → d ≡ e
err-injective d e hd he same =
    some_eq (sym (lookup-err d hd) ∙ (ap (λ t. lookup t texts) same ∙ lookup-err e he))
