-- ===== src/Tests/Errors.antt =====
-- The texts of the errors of iec61850/types.go, and the constants.
use go_libiec.Prelude.{◌≡◌, refl}
use go_libiec.Client.Errors.{object_constraint_conflict, err}

-- The error that has no text of its own.
left_out : err object_constraint_conflict ≡ "IED_ERROR_UNDEFINED"
unfolding err
left_out = refl
