-- ===== src/Report/Build/Total.antt =====
-- The decoding loop of `buildReport` in iec61850/iec61850_report.go ends, whatever is in the slice.
use go_libiec.Prelude.{ℕ, zero, suc, ◌<◌, ◌≤◌, ◌≡◌, refl, some, List, [], ◌∷◌, length, arith}
use go_libiec.Bridge.Flat.{FlatMmsValue}
use go_libiec.Report.Decode.Total.{extract-total}
use go_libiec.Report.Build.{ClientReport, ReportEntry, entry_at, decode_fuel, build_entries}

-- Decoding ends on every slice of tokens, also on one that no value has, in which ends are missing or
-- stand alone: with more fuel than tokens there is a list of entries, at most one for each token.
pub build_entries-total :
    (cr : ClientReport) (f i : ℕ) (ts : List FlatMmsValue)
    → length ts < f
    → (es : List ReportEntry) × (build_entries cr f i ts ≡ some es) × (length es ≤ length ts)
unfolding build_entries
build_entries-total cr zero i ts h = absurd (omega arith)
build_entries-total cr (suc f) i [] h = ([], refl, omega arith)
build_entries-total cr (suc f) i (t ∷ ts) h =
    let (v, r, e, le) = extract-total (decode_fuel (t ∷ ts)) (t ∷ ts) (omega arith) in
    let (es, e', few) = build_entries-total cr f (suc i) r (omega arith) in
    (entry_at cr i v ∷ es, rw (e, e') refl, omega arith)
