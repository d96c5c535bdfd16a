-- ===== src/Tests/Subscribe.antt =====
-- The theorems on the subscriptions of iec61850/iec61850_report.go with a small server.
use go_libiec.Prelude.{
  ℕ, ◌+◌, ◌-◌, ◌<◌, ◌^◌, ◌≡◌, refl, String, true, Option, none, some, [], ◌∷◌, inl, inr, Dict,
  lookup, insert, lookup-insert, str_eq, ◌==◌, if◌then◌else◌, arith,
}
use go_libiec.Client.Errors.{object_does_not_exist, temporarily_unavailable}
use go_libiec.Report.Registry.{count_ref, handler_of, deliver}
use go_libiec.Report.Subscribe.{
  RcbApi, RcbLaws, ReportConfig, Session, configure, subscribe_report, unsubscribe_report,
  subscribe_report_with_candidates, reached, chosen, enable, finish, candidates_loop,
}
use go_libiec.Report.Subscribe.Delivery.{
  IsValid, Subscribed, subscribe_report-IsValid, subscribe_report-Subscribed,
}
use go_libiec.Report.Subscribe.Cancel.{subscriptions-IsValid, unsubscribe_report-reached}
use go_libiec.Prelude.{length}
use go_libiec.Report.Subscribe.States.{
  IsCovered, CoveredUpTo, subscribe_states, enable_states, finish_states, unsubscribe_states,
  subscribe_states-Covered, unsubscribe_states-Covered,
}
use go_libiec.Report.Subscribe.Candidates.{
  Explains, attempts, subscribe_report_with_candidates-Explains,
}

-- The callback of a control block, in the connection's table.
abbrev pub or_null : Option (Option ℕ) → Option ℕ
or_null none = none
or_null (some h) = h

abbrev pub callback_of : Dict (Option ℕ) → String → Option ℕ
callback_of c ref = or_null (lookup ref c)

-- A server without the control block "b", whose blocks reject a buffer time of 9 ms. A block is its
-- integrity period and its buffer time.
abbrev pub server : RcbApi
server = record {
  rcb = record {
    Rcb = ℕ × ℕ;
    set_trg_ops = λ rcb n. rcb;
    set_intg_pd = λ rcb n. (n, rcb.1);
    set_buf_tm = λ rcb n. (rcb.0, n);
    set_gi = λ rcb b. rcb;
    set_rpt_ena = λ rcb b. rcb;
    get_rpt_id = λ rcb. some "events";
  };
  Connection = Dict (Option ℕ);
  get_rcb_values = λ c ref. (if str_eq ref "b" then inl object_does_not_exist else inr (0, 0), c);
  set_rcb_values = λ c rcb mask. (if rcb.1 == 9 then some temporarily_unavailable else none, c);
  destroy_rcb = λ c rcb. c;
  install_report_handler = λ c ref rpt_id h. insert ref h c;
  callback = callback_of;
}

install_callback :
    (c : Dict (Option ℕ)) (ref other : String) (h : Option ℕ)
    → callback_of (insert ref h c) other ≡ (if str_eq ref other then h else callback_of c other)
install_callback c ref other h = rw lookup-insert (ground arith)

pub server_laws : RcbLaws server
server_laws = record {
  install_law = λ c ref other rpt_id h. install_callback c ref other h;
  get_law = λ c ref other. refl;
  set_law = λ c rcb mask other. refl;
  destroy_law = λ c rcb other. refl;
}

-- A process before its first subscription; a handler is its name.
abbrev pub idle : Session server String
idle = record { registry = record { next_handler_id = 0; handlers = [] }; connection = [] }

pub idle-IsValid : IsValid server idle
unfolding lookup handler_of
idle-IsValid = record { ids = tt; bound = λ ref id h. cc; own = λ ref id e h found. cc }

-- After subscribing to "a".
abbrev one_handler : Session server String
one_handler = (subscribe_report server idle "a" none "first").1

one_handler-IsValid : IsValid server one_handler
one_handler-IsValid =
    subscribe_report-IsValid server_laws idle "a" none "first" idle-IsValid (omega arith)

has_next : one_handler.registry.next_handler_id + 1 < 2 ^ 32
unfolding subscribe_report enable finish
has_next = omega arith

abbrev slow_buffer : ReportConfig
slow_buffer = record { trg_ops = 1; intg_pd = 0; buf_tm = 9; gi = true }

subscriptions-IsValid_example :
    IsValid server (subscribe_report server one_handler "a" (some slow_buffer) "second").1
    × IsValid server (unsubscribe_report server one_handler "a")
subscriptions-IsValid_example =
    subscriptions-IsValid server_laws one_handler "a" (some slow_buffer) "second"
      one_handler-IsValid has_next

subscribe_report-Subscribed_example :
    Subscribed server one_handler
      (subscribe_report server one_handler "c" none "second").1
      "c"
      (record { handler = "second"; rcb_ref = "c" })
      (subscribe_report server one_handler "c" none "second").0
subscribe_report-Subscribed_example =
    subscribe_report-Subscribed server_laws one_handler "c" none "second" one_handler-IsValid
      has_next

unsubscribe_report-reached_example :
    ((other : String)
      → reached server (unsubscribe_report server one_handler "a") other
        ≡ (if str_eq "a" other then none else reached server one_handler other))
    × (count_ref "a" (unsubscribe_report server one_handler "a").registry.handlers
        ≡ count_ref "a" one_handler.registry.handlers - 1)
unsubscribe_report-reached_example =
    unsubscribe_report-reached server_laws one_handler "a" one_handler-IsValid

subscribe_report_with_candidates-Explains_example :
    Explains server
      (some slow_buffer)
      "first"
      2
      []
      idle
      (attempts ("b" ∷ "a" ∷ []))
      (subscribe_report_with_candidates server idle ("b" ∷ "a" ∷ []) (some slow_buffer) "first")
subscribe_report_with_candidates-Explains_example =
    subscribe_report_with_candidates-Explains server idle "b" ("a" ∷ []) (some slow_buffer) "first"

-- The server lacks "b" but has "b01".
second_attempt :
    (subscribe_report_with_candidates server idle ("b" ∷ "a" ∷ []) none "first").0 ≡ chosen "b01"
unfolding subscribe_report_with_candidates candidates_loop subscribe_report enable finish configure
second_attempt = refl

-- A subscription that the server rejects leaves its control block without a callback, also where it
-- had one before.
lost :
    reached server (subscribe_report server one_handler "a" (some slow_buffer) "second").1 "a"
    ≡ none
unfolding subscribe_report enable finish configure lookup insert deliver
lost = refl

idle-Covered : IsCovered server idle
unfolding lookup
idle-Covered ref id h = cc

one_handler-Covered : IsCovered server one_handler
unfolding subscribe_report enable finish configure subscribe_states enable_states finish_states
one_handler-Covered =
    (subscribe_states-Covered server_laws idle "a" none "first" idle-IsValid (omega arith)
      idle-Covered).1.1.1.0

subscribe_states-Covered_example :
    CoveredUpTo server
      (subscribe_report server idle "a" (some slow_buffer) "second").1
      (subscribe_states server idle "a" (some slow_buffer) "second")
subscribe_states-Covered_example =
    subscribe_states-Covered server_laws idle "a" (some slow_buffer) "second" idle-IsValid
      (omega arith) idle-Covered

-- The statements before a rejected subscription is over.
state_count : length (subscribe_states server idle "a" (some slow_buffer) "second") ≡ 7
unfolding subscribe_states enable_states finish_states configure
state_count = refl

unsubscribe_states-Covered_example :
    CoveredUpTo server
      (unsubscribe_report server one_handler "a")
      (unsubscribe_states server one_handler "a")
unsubscribe_states-Covered_example =
    unsubscribe_states-Covered server_laws one_handler "a" one_handler-IsValid one_handler-Covered
