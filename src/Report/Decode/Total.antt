-- ===== src/Report/Decode/Total.antt =====
-- The decoder ends on every token list, balanced or not.
use go_libiec.Prelude.{
  ℕ, zero, suc, ◌+◌, ◌*◌, ◌≤◌, ◌<◌, ◌-◌, ◌≡◌, refl, inl, inr, some, List, [], ◌∷◌, length, arith,
  Bool-cases,
}
use go_libiec.Bridge.Flat.{FlatMmsValue}
use go_libiec.Values.{GoValue, AnySlice, nil, any_slice, no_any, any}
use go_libiec.Report.Decode.{extract_flat_value, extract_subs, is_start, is_end, leaf_value}

mutual
  unfolding extract_flat_value

  pub extract-total :
      (f : ℕ) (ts : List FlatMmsValue)
      → 2 * length ts < f
      → (v : GoValue) × (r : List FlatMmsValue) × (extract_flat_value f ts ≡ some (v, r))
        × (length r ≤ length ts - 1)
  extract-total zero ts h = absurd (omega arith)
  extract-total (suc f) [] h = (nil, [], refl, omega arith)
  extract-total (suc f) (x ∷ rest) h =
      let (vs, r, e, le) = subs-total f rest (omega arith) in
      elim (Bool-cases (is_start x.typ)) [
        | inl start ↦ (any_slice vs, r, rw (start, e), omega arith)
        | inr leaf ↦ (leaf_value x, rest, rw leaf, omega arith)
      ]

  subs-total :
      (f : ℕ) (ts : List FlatMmsValue)
      → 2 * length ts + 1 < f
      → (vs : AnySlice) × (r : List FlatMmsValue) × (extract_subs f ts ≡ some (vs, r))
        × (length r ≤ length ts - 1)
  subs-total zero ts h = absurd (omega arith)
  subs-total (suc f) [] h = (no_any, [], refl, omega arith)
  subs-total (suc f) (x ∷ rest) h =
      let (v, r, e, le) = extract-total f (x ∷ rest) (omega arith) in
      let (vs, r', e', le') = subs-total f r (omega arith) in
      elim (Bool-cases (is_end x.typ)) [
        | inl stop ↦ (no_any, rest, rw stop, omega arith)
        | inr go_on ↦ (any v vs, r', rw (go_on, e, e'), omega arith)
      ]
