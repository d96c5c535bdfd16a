-- ===== src/Tests/Owned.antt =====
-- The theorem on the control blocks that the subscriptions of iec61850/iec61850_report.go hold, with a
-- server that counts them.
use go_libiec.Prelude.{
  ℕ, ◌+◌, ◌-◌, ◌≡◌, refl, String, none, some, [], ◌∷◌, ◌⊎◌, inl, inr, str_eq, ◌==◌, if◌then◌else◌,
}
use go_libiec.Client.Errors.{IedClientError, object_does_not_exist, temporarily_unavailable}
use go_libiec.Report.Subscribe.{
  RcbApi, Session, subscribe_report, subscribe_report_with_candidates, unsubscribe_report,
}
use go_libiec.Report.Subscribe.Owned.{got, RcbOwnership, subscriptions-held}
use go_libiec.Tests.Subscribe.{server}

abbrev answer_of : String → IedClientError ⊎ (ℕ × ℕ)
answer_of ref = if str_eq ref "b" then inl object_does_not_exist else inr (0, 0)

-- The control blocks of `server`; a connection is the number that was given out and not taken back.
abbrev counting : RcbApi
counting = record {
  rcb = server.rcb;
  Connection = ℕ;
  get_rcb_values = λ c ref. (answer_of ref, c + got (answer_of ref));
  set_rcb_values = λ c rcb mask. (if rcb.1 == 9 then some temporarily_unavailable else none, c);
  destroy_rcb = λ c rcb. c - 1;
  install_report_handler = λ c ref rpt_id h. c;
  callback = λ c ref. none;
}

abbrev counted : RcbOwnership counting
counted = record {
  held = λ c. c;
  get_held = λ c ref. refl;
  set_held = λ c rcb mask. refl;
  install_held = λ c ref rpt_id h. refl;
  destroy_held = λ c rcb. refl;
}

abbrev none_held : Session counting String
none_held = record { registry = record { next_handler_id = 0; handlers = [] }; connection = 0 }

subscriptions-held_example :
    ((subscribe_report counting none_held "a" none "print").1.connection ≡ 0)
    × ((subscribe_report_with_candidates counting none_held
          ("b" ∷ "c" ∷ [])
          none
          "print").1.connection
        ≡ 0)
    × ((unsubscribe_report counting none_held "a").connection ≡ 0)
subscriptions-held_example = subscriptions-held counted none_held "a" ("b" ∷ "c" ∷ []) none "print"
