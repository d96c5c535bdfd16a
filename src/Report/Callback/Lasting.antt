-- ===== src/Report/Callback/Lasting.antt =====
-- What a handler of iec61850/iec61850_report.go receives, from its subscription on.
use go_libiec.Prelude.{
  ℕ, ◌%◌, ◌^◌, ◌<◌, ◌≡◌, refl, ap, ◌∙◌, String, false, Option, none, some, length, str_eq, eq_iff,
  if◌then◌else◌, inl, inr,
}
use go_libiec.Mms.Value.{Components, array}
use go_libiec.Mms.Api.{MmsApi, MmsLaws}
use go_libiec.Bridge.Flat.{Memory}
use go_libiec.Bridge.DataSet.Exact.{data_set_tokens}
use go_libiec.Report.Decode.{go_string}
use go_libiec.Report.Build.{ClientReport}
use go_libiec.Report.Build.Entries.{entries_view, build_report-entries}
use go_libiec.Report.Registry.{HandlerEntry}
use go_libiec.Report.Subscribe.{
  RcbApi, RcbLaws, ReportConfig, Session, subscribe_report, unsubscribe_report, reached,
}
use go_libiec.Report.Subscribe.Delivery.{
  IsValid, HasId, Subscribed, subscribe_report-IsValid, subscribe_report-Subscribed,
}
use go_libiec.Report.Subscribe.Cancel.{unsubscribe_report-IsValid, unsubscribe_report-reached}
use go_libiec.Report.Callback.{on_entry, go_report_callback}

module _ (a : RcbApi) {H : Type 0} where
  -- Subscriptions and unsubscriptions of other control blocks, as many as there are numbers.
  pub data Meanwhile (ref : String) (s : Session a H) : Session a H → Type 0 where
    done : Meanwhile ref s s
    subscribing :
        {t : Session a H} (other : String) (cfg : Option ReportConfig) (h : H)
        → Meanwhile ref s t
        → str_eq other ref ≡ false
        → HasId t.registry
        → Meanwhile ref s (subscribe_report a t other cfg h).1
    unsubscribing :
        {t : Session a H} (other : String)
        → Meanwhile ref s t
        → str_eq other ref ≡ false
        → Meanwhile ref s (unsubscribe_report a t other)

module _ {a : RcbApi} (l : RcbLaws a) {H : Type 0} where
  -- A subscription of another control block, whether it succeeds or fails.
  Subscribed-other :
      (s t : Session a H) (ref other : String) (e : HandlerEntry H) (o : Option String)
      → Subscribed a s t other e o
      → str_eq other ref ≡ false
      → reached a t ref ≡ reached a s ref
  Subscribed-other s t ref other e none sub diff = sub ref ∙ rw diff refl
  Subscribed-other s t ref other e (some err) sub diff = elim (sub.1 ref) [
    | inl same ↦ same
    | inr (is, gone) ↦ absurd (cc ((eq_iff other ref).1 is, diff))
  ]

  Meanwhile-reached :
      (ref : String) (s : Session a H) {t : Session a H}
      → IsValid a s
      → Meanwhile a ref s t
      → IsValid a t × (reached a t ref ≡ reached a s ref)
  Meanwhile-reached ref s v done = (v, refl)
  Meanwhile-reached ref s v (subscribing {t} other cfg h path diff lt) =
      let before = Meanwhile-reached ref s v path in
      (
        subscribe_report-IsValid l t other cfg h before.0 lt,
        Subscribed-other t _ ref other _ _ (subscribe_report-Subscribed l t other cfg h before.0 lt)
              diff
            ∙ before.1,
      )
  Meanwhile-reached ref s v (unsubscribing {t} other path diff) =
      let before = Meanwhile-reached ref s v path in
      (
        unsubscribe_report-IsValid l t other before.0,
        (unsubscribe_report-reached l t other before.0).0 ref ∙ rw diff before.1,
      )

  new_reached :
      (s t : Session a H) (ref : String) (e : HandlerEntry H) (o : Option String)
      → Subscribed a s t ref e o
      → o ≡ none
      → reached a t ref ≡ some e
  new_reached s t ref e none sub is = sub ref ∙ rw ((eq_iff ref ref).1 refl) refl
  new_reached s t ref e (some err) sub is = absurd (cc)

  -- From a subscription that succeeded on, whatever is subscribed and unsubscribed for other control
  -- blocks meanwhile, a report of its control block calls its handler, with the reference of the
  -- control block, the names and numbers of the report, and one entry for each element of the data
  -- set before the first NULL; hypotheses: the laws of the library, the invariant of the process and
  -- a free number at the subscription, fewer than 2^31 tokens, and a malloc that succeeds.
  pub subscription_lasts :
      (m : MmsApi) (laws : MmsLaws m) (malloc : ℕ → Option Memory) (s : Session a H)
      {t : Session a H} (ref : String) (cfg : Option ReportConfig) (h : H) (cr : ClientReport)
      (cs : Components) (mem : Memory)
      → IsValid a s
      → HasId s.registry
      → (subscribe_report a s ref cfg h).0 ≡ none
      → Meanwhile a ref (subscribe_report a s ref cfg h).1 t
      → cr.data_set_values ≡ some (array cs)
      → length (data_set_tokens m cs) < 2 ^ 31
      → malloc (length (data_set_tokens m cs)) ≡ some mem
      → go_report_callback m malloc t.registry (a.callback t.connection ref) cr
        ≡ some (
            some (
              h,
              record {
                rcb_ref = ref;
                data_set_ref = go_string cr.data_set_name;
                sequence_no = if cr.header.has_seq_num then cr.header.seq_num % 2 ^ 16 else 0;
                timestamp = if cr.header.has_timestamp then cr.header.timestamp % 2 ^ 64 else 0;
                entries = entries_view m cr 0 cs;
              },
            ))
  unfolding go_report_callback
  subscription_lasts m laws malloc s ref cfg h cr cs mem v lt worked path values fits got =
      let s' = (subscribe_report a s ref cfg h).1 in
      let kept = Meanwhile-reached ref s' (subscribe_report-IsValid l s ref cfg h v lt) path in
      let new = new_reached s s' ref _ _ (subscribe_report-Subscribed l s ref cfg h v lt) worked in
      ap (λ o. on_entry m malloc o cr) (kept.1 ∙ new)
      ∙ rw (build_report-entries m laws cr malloc ref cs mem values fits got)
