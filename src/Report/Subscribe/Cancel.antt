-- ===== src/Report/Subscribe/Cancel.antt =====
-- What `UnsubscribeReport` does to a process: which handler a report reaches afterwards.
use go_libiec.Prelude.{
  ◌-◌, String, Option, none, ◌≡◌, ap, ◌∙◌, str_eq, if◌then◌else◌, ◌⊎◌, inl, inr, Bool-cases,
}
use go_libiec.Client.Errors.{IedClientError}
use go_libiec.Report.Registry.{deliver, count_ref}
use go_libiec.Report.Registry.Laws.{count_ref-delete_first}
use go_libiec.Report.Subscribe.{
  RcbApi, RcbLaws, Session, ReportConfig, subscribe_report, unsubscribe_report, reached, disable,
}
use go_libiec.Report.Subscribe.Delivery.{
  IsValid, subscribe_report-IsValid, HasId, deliver-kept, deliver-none,
}
use go_libiec.Report.Subscribe.Laws.{
  Replaced, Replaced-same, Replaced-other, Fits-delete, kept_others,
}

module _ {a : RcbApi} (l : RcbLaws a) {H : Type 0} where
  pub disable-callback :
      (s : Session a H) (ref : String) (answer : (IedClientError ⊎ a.rcb.Rcb) × a.Connection)
      → ((other : String) → a.callback answer.1 other ≡ a.callback s.connection other)
      → (other : String) → a.callback (disable a answer) other ≡ a.callback s.connection other
  disable-callback s ref (inl e, c) same other = same other
  disable-callback s ref (inr rcb, c) same other =
      l.destroy_law _ _ other ∙ (l.set_law _ _ _ other ∙ same other)

  unsubscribe-Replaced :
      (s : Session a H) (ref : String)
      → Replaced ref none
          (a.callback s.connection)
          (a.callback (unsubscribe_report a s ref).connection)
  unfolding unsubscribe_report
  unsubscribe-Replaced s ref other =
      l.install_law _ ref other none none
      ∙ ap (λ y. if str_eq ref other then none else y)
          (disable-callback s ref _ (l.get_law s.connection ref) other)

  -- Unsubscribing keeps the invariant.
  pub unsubscribe_report-IsValid :
      (s : Session a H) (ref : String) → IsValid a s → IsValid a (unsubscribe_report a s ref)
  unfolding unsubscribe_report
  unsubscribe_report-IsValid s ref v =
      Fits-delete ref s.registry.next_handler_id s.registry.handlers _ _ v
        (unsubscribe-Replaced s ref)

  -- Subscribing keeps the invariant, whether it succeeds or fails, where a number is free; and
  -- unsubscribing keeps it, whatever the server answers.
  pub subscriptions-IsValid :
      (s : Session a H) (ref : String) (cfg : Option ReportConfig) (h : H)
      → IsValid a s
      → HasId s.registry
      → IsValid a (subscribe_report a s ref cfg h).1 × IsValid a (unsubscribe_report a s ref)
  subscriptions-IsValid s ref cfg h v lt =
      (subscribe_report-IsValid l s ref cfg h v lt, unsubscribe_report-IsValid s ref v)

  -- After unsubscribing, the reports of the control block reach no handler and those of every other
  -- control block what they reached before, whatever the server answers; and of the entries of
  -- the control block in the map one is gone, if there was one. The process satisfies the invariant.
  pub unsubscribe_report-reached :
      (s : Session a H) (ref : String)
      → IsValid a s
      → ((other : String)
          → reached a (unsubscribe_report a s ref) other
            ≡ (if str_eq ref other then none else reached a s other))
        × (count_ref ref (unsubscribe_report a s ref).registry.handlers
            ≡ count_ref ref s.registry.handlers - 1)
  unfolding unsubscribe_report
  unsubscribe_report-reached s ref v = (
    λ other. elim (Bool-cases (str_eq ref other)) [
      | inl same ↦ rw same (
          ap (deliver _) (Replaced-same ref none _ _ other (unsubscribe-Replaced s ref) same)
          ∙ deliver-none _)
      | inr diff ↦ rw diff (
          ap (deliver _) (Replaced-other ref none _ _ other (unsubscribe-Replaced s ref) diff)
          ∙ deliver-kept s.registry _ (a.callback s.connection other)
              (λ id eq. kept_others ref other _ id _ _ v diff eq))
    ],
    count_ref-delete_first ref s.registry.handlers,
  )
