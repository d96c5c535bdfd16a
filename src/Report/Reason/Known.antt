-- ===== src/Report/Reason/Known.antt =====
-- Which bits the text of a `ReasonForInclusion` of iec61850/iec61850_report.go shows.
use go_libiec.Prelude.{
  ℕ, ◌/◌, ◌%◌, ◌≡◌, ◌≢◌, refl, ap, ◌∙◌, String, Bool, true, false, List, [], ◌∷◌, ◌==◌, arith,
}
use go_libiec.Report.Reason.{has_reason, name_of, reason_parts, joined_or_raw, reason_string}

low_bits :
    (r : ℕ)
    → (has_reason r 1 ≡ has_reason (r % 64) 1)
      × (has_reason r 2 ≡ has_reason (r % 64) 2)
      × (has_reason r 4 ≡ has_reason (r % 64) 4)
      × (has_reason r 8 ≡ has_reason (r % 64) 8)
      × (has_reason r 16 ≡ has_reason (r % 64) 16)
      × (has_reason r 32 ≡ has_reason (r % 64) 32)
low_bits r = (
  ap (λ n. n == 1) (omega arith),
  ap (λ n. n == 1) (omega arith),
  ap (λ n. n == 1) (omega arith),
  ap (λ n. n == 1) (omega arith),
  ap (λ n. n == 1) (omega arith),
  ap (λ n. n == 1) (omega arith),
)

parts-low : (r : ℕ) → reason_parts r ≡ reason_parts (r % 64)
parts-low r = let (a, b, c, d, e, f) = low_bits r in rw (a, b, c, d, e, f) refl

name_of-nil :
    (b : Bool) (name : String) (parts : List String)
    → name_of b name parts ≡ []
    → (b ≡ false) × (parts ≡ [])
name_of-nil true name parts h = cc
name_of-nil false name parts h = (refl, h)

even : (n : ℕ) → (n % 2 == 1) ≡ false → n % 2 ≡ 0
even n h = ground arith

pub no_parts : (r : ℕ) → reason_parts r ≡ [] → r % 64 ≡ 0
no_parts r h =
    let (a, h1) = name_of-nil (has_reason r 1) "DATA_CHANGE" _ h in
    let (b, h2) = name_of-nil (has_reason r 2) "QUAL_CHANGE" _ h1 in
    let (c, h3) = name_of-nil (has_reason r 4) "DATA_UPDATE" _ h2 in
    let (d, h4) = name_of-nil (has_reason r 8) "INTEGRITY" _ h3 in
    let (e, h5) = name_of-nil (has_reason r 16) "GI" _ h4 in
    let (f, h6) = name_of-nil (has_reason r 32) "UNKNOWN" _ h5 in
    omega (
      arith,
      even (r / 1) a,
      even (r / 2) b,
      even (r / 4) c,
      even (r / 8) d,
      even (r / 16) e,
      even (r / 32) f,
    )

joined-known :
    (r s : ℕ) (parts : List String) → parts ≢ [] → joined_or_raw r parts ≡ joined_or_raw s parts
joined-known r s [] h = absurd (h refl)
joined-known r s (p ∷ ps) h = refl

-- Where a known bit is set, the text shows the known bits alone: it is that of the reason without all
-- other bits.
pub reason_string-known : (r : ℕ) → r % 64 ≢ 0 → reason_string r ≡ reason_string (r % 64)
unfolding reason_string
reason_string-known r h =
    let nonzero : (r == 0) ≡ false = ground (arith, h) in
    let nonzero' : (r % 64 == 0) ≡ false = ground (arith, h) in
    rw (nonzero, nonzero')
      (joined-known r (r % 64) (reason_parts r) (λ e. h (no_parts r e))
        ∙ ap (joined_or_raw (r % 64)) (parts-low r))
