-- ===== src/Report/Build/Entries.antt =====
-- What the entries of a report are.
use go_libiec.Prelude.{
  ℕ, zero, suc, ◌+◌, ◌%◌, ◌^◌, ◌<◌, ◌≡◌, refl, ap, ◌∙◌, String, true, Option, some, List, [], ◌∷◌,
  ◌++◌, length, length-append, leb-false, if◌then◌else◌, ◌>>=◌, arith,
}
use go_libiec.Mms.Value.{Components, array, no_components, null_component, component}
use go_libiec.Mms.Api.{MmsApi, MmsLaws}
use go_libiec.Bridge.Flat.{
  FlatMmsValue, Memory, Token, slice-write_tokens, stamps, stamps-append, length-stamps,
}
use go_libiec.Bridge.Tokens.{tokens, tokens_pos}
use go_libiec.Bridge.DataSet.{flatten_report_data_set}
use go_libiec.Bridge.DataSet.Exact.{
  data_set_tokens, data_set_tokens-nil, tokens_cons, length-tokens_cons, Flattened,
  flatten_report_data_set-eq, suc-eq-zero,
}
use go_libiec.Report.Decode.{extract_flat_value, go_string}
use go_libiec.Report.Decode.View.{report_view}
use go_libiec.Report.Decode.RoundTrip.{extract_flat_value-eq, starts_value, starts_value-tokens}
use go_libiec.Report.Build.{
  ClientReport, ReportEntry, entry_at, decode_fuel, build_entries, flat_slice, build_report,
}

build_entries_step :
    (cr : ClientReport) (f i : ℕ) (xs : List FlatMmsValue)
    → starts_value xs ≡ true
    → build_entries cr (suc f) i xs ≡ (
        extract_flat_value (decode_fuel xs) xs >>= λ p.
        build_entries cr f (suc i) p.1 >>= λ es. some (entry_at cr i p.0 ∷ es))
unfolding build_entries
build_entries_step cr f i [] h = cc
build_entries_step cr f i (x ∷ xs) h = refl

length-append_flat : (xs ys : List FlatMmsValue) → length (xs ++ ys) ≡ length xs + length ys
length-append_flat = length-append

module _ (m : MmsApi) (cr : ClientReport) where
  -- One entry for each element up to the first NULL, with the reason of its place.
  unfoldable pub entries_view : ℕ → Components → List ReportEntry
  entries_view i no_components = []
  entries_view i (null_component cs) = []
  entries_view i (component v cs) = entry_at cr i (report_view m v) ∷ entries_view (suc i) cs

module _ (m : MmsApi) (laws : MmsLaws m) (cr : ClientReport) where
  build_entries-eq :
      (cs : Components) (mem : Memory) (k f i : ℕ)
      → length (data_set_tokens m cs) < f
      → build_entries cr f i (stamps mem k (data_set_tokens m cs)) ≡ some (entries_view m cr i cs)
  unfolding build_entries entries_view stamps
  build_entries-eq cs mem k zero i h = absurd (omega arith)
  build_entries-eq no_components mem k (suc f) i h = rw (data_set_tokens-nil m)
  build_entries-eq (null_component cs) mem k (suc f) i h = rw (data_set_tokens-nil m)
  build_entries-eq (component v cs) mem k (suc f) i h =
      ap (build_entries cr (suc f) i) split
      ∙ build_entries_step cr f i (here ++ after) (starts_value-tokens m v mem k after)
      ∙ rw (read, build_entries-eq cs mem (k + length (tokens m v)) f (suc i) fuel_left)
    where
      here : List FlatMmsValue
      here = stamps mem k (tokens m v)

      after : List FlatMmsValue
      after = stamps mem (k + length (tokens m v)) (data_set_tokens m cs)

      split : stamps mem k (data_set_tokens m (component v cs)) ≡ here ++ after
      split =
          ap (stamps mem k) (tokens_cons m v cs)
          ∙ stamps-append mem k (tokens m v) (data_set_tokens m cs)

      read :
          extract_flat_value (decode_fuel (here ++ after)) (here ++ after)
          ≡ some (report_view m v, after)
      read =
          extract_flat_value-eq m laws v mem k (decode_fuel (here ++ after)) after
            (omega (arith, length-append_flat here after, length-stamps mem k (tokens m v)))

      fuel_left : length (data_set_tokens m cs) < f
      fuel_left = omega (arith, length-tokens_cons m v cs, tokens_pos m v)

  -- The slice that Go sees, given what malloc returned.
  flat_slice-Flattened :
      (ts : List Token) (mem : Memory)
      → length ts < 2 ^ 31
      → flat_slice (Flattened ts (some mem)) ≡ stamps mem 0 ts
  unfolding stamps
  flat_slice-Flattened [] mem h = refl
  flat_slice-Flattened (t ∷ ts) mem h =
      rw (leb-false _ _ h, suc-eq-zero (length ts)) (slice-write_tokens mem 0 (t ∷ ts))

  -- For a report whose values are an array the Go report has one entry for each element before the
  -- first NULL, in order, each with the reason of its index (0 where the report has none), and the
  -- names and numbers of the report; hypotheses: the laws of the library, fewer than 2^31 tokens,
  -- and a malloc that succeeds.
  pub build_report-entries :
      (malloc : ℕ → Option Memory) (rcb_ref : String) (cs : Components) (mem : Memory)
      → cr.data_set_values ≡ some (array cs)
      → length (data_set_tokens m cs) < 2 ^ 31
      → malloc (length (data_set_tokens m cs)) ≡ some mem
      → build_report m malloc rcb_ref cr
        ≡ some (record {
          rcb_ref = rcb_ref;
          data_set_ref = go_string cr.data_set_name;
          sequence_no = if cr.header.has_seq_num then cr.header.seq_num % 2 ^ 16 else 0;
          timestamp = if cr.header.has_timestamp then cr.header.timestamp % 2 ^ 64 else 0;
          entries = entries_view m cr 0 cs;
        })
  unfolding build_report
  build_report-entries malloc rcb_ref cs mem values fits got = rw (
    flat,
    build_entries-eq cs mem 0 (suc (length (stamps mem 0 (data_set_tokens m cs)))) 0
        (omega (arith, length-stamps mem 0 (data_set_tokens m cs))),
  )
    where
      flat :
          flat_slice (flatten_report_data_set m malloc cr.data_set_values)
          ≡ stamps mem 0 (data_set_tokens m cs)
      flat =
          ap (λ o. flat_slice (flatten_report_data_set m malloc o)) values
          ∙ ap flat_slice (flatten_report_data_set-eq m laws malloc cs fits)
          ∙ ap (λ o. flat_slice (Flattened (data_set_tokens m cs) o)) got
          ∙ flat_slice-Flattened (data_set_tokens m cs) mem fits
