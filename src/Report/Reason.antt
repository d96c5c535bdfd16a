-- ===== src/Report/Reason.antt =====
-- `ReasonForInclusion` of iec61850/iec61850_report.go and its text.
pub mod Known
pub mod Names
use Prim.Native.String.{◌++◌ as join}
use go_libiec.Prelude.{
  ℕ, ◌/◌, ◌%◌, ◌≡◌, ◌≢◌, refl, sym, ap, ◌∙◌, String, Bool, true, false, Option, List, [], ◌∷◌, ◌++◌,
  ◌==◌, if◌then◌else◌, arith, ==_iff, Bool-cases, inl, inr,
}
use go_libiec.Itoa.{itoa}

abbrev pub reason_data_change : ℕ
reason_data_change = 1

abbrev pub reason_qual_change : ℕ
reason_qual_change = 2

abbrev pub reason_data_update : ℕ
reason_data_update = 4

abbrev pub reason_integrity : ℕ
reason_integrity = 8

abbrev pub reason_gi : ℕ
reason_gi = 16

abbrev pub reason_unknown : ℕ
reason_unknown = 32

-- `ri & b != 0` for a power of two `b`.
abbrev pub has_reason : ℕ → ℕ → Bool
has_reason ri b = (ri / b) % 2 == 1

-- One `if` of `String`: it appends the name.
abbrev pub name_of : Bool → String → List String → List String
name_of b name parts = if b then name ∷ parts else parts

-- The names of the bits that are set, in the order of the tests.
abbrev pub reason_parts : ℕ → List String
reason_parts ri = name_of (has_reason ri reason_data_change) "DATA_CHANGE" (
    name_of (has_reason ri reason_qual_change) "QUAL_CHANGE" (
      name_of (has_reason ri reason_data_update) "DATA_UPDATE" (
        name_of (has_reason ri reason_integrity) "INTEGRITY" (
          name_of (has_reason ri reason_gi) "GI"
            (name_of (has_reason ri reason_unknown) "UNKNOWN" [])))))

-- `strings.Join(parts, "|")`
abbrev pub join_bar : List String → String
join_bar [] = ""
join_bar (p ∷ []) = p
join_bar (p ∷ q ∷ ps) = join p (join "|" (join_bar (q ∷ ps)))

abbrev pub joined_or_raw : ℕ → List String → String
joined_or_raw ri [] = join "raw=" (itoa ri)
joined_or_raw ri (p ∷ ps) = join_bar (p ∷ ps)

-- `ReasonForInclusion.String`
unfoldable pub reason_string : ℕ → String
reason_string ri = if ri == 0 then "0" else joined_or_raw ri (reason_parts ri)
