-- ===== src/Tests/InFlight.antt =====
-- The theorems on reports in flight (iec61850/iec61850_report.go): an unsubscription that overtakes a
-- report, and two reports of one subscription.
use go_libiec.Prelude.{◌+◌, ◌≤◌, String, none, [], ◌∷◌, ◌≡◌, refl, arith}
use go_libiec.Report.Registry.{HandlerEntry, handler_of, set_handler}
use go_libiec.Report.InFlight.{Process, Reach, here, next, invoke, look_up, number, add}
use go_libiec.Report.InFlight.Removed.{count_id, removed-calls}
use go_libiec.Report.InFlight.Numbers.{at_start, number-entry}

abbrev entry : HandlerEntry String
entry = record { handler = "print"; rcb_ref = "LD/LLN0.RP.urcb01" }

abbrev other : HandlerEntry String
other = record { handler = "store"; rcb_ref = "LD/LLN0.RP.urcb02" }

-- The entry of number 1 was removed while a report with it is on its way.
abbrev overtaken : Process String
overtaken = record {
  registry = record { next_handler_id = 1; handlers = [] };
  pending = [];
  in_flight = (1, entry) ∷ [];
  invoked = [];
}

abbrev numbered : Process String
numbered = record overtaken {
  registry = record { next_handler_id = 2; handlers = [] };
  pending = (2, other) ∷ [];
}

abbrev delivered : Process String
delivered = record numbered { in_flight = []; invoked = (1, entry) ∷ [] }

delivered_reached : Reach overtaken delivered
delivered_reached =
    next (next here (number overtaken other (omega arith))) (invoke numbered [] [] (1, entry) refl)

removed-calls_example :
    (count_id 1 delivered.invoked + count_id 1 delivered.in_flight
      ≡ count_id 1 overtaken.invoked + count_id 1 overtaken.in_flight)
    × (count_id 1 delivered.invoked ≤ count_id 1 overtaken.invoked + count_id 1 overtaken.in_flight)
    × (handler_of 1 delivered.registry.handlers ≡ none)
unfolding handler_of
removed-calls_example = removed-calls 1 refl refl (omega arith) delivered_reached

-- A subscription, and two reports: the first was handed over, the second is on its way.
abbrev taken : Process String
taken = record (at_start String) {
  registry = record { next_handler_id = 1; handlers = [] };
  pending = (1, entry) ∷ [];
}

abbrev added : Process String
added = record (at_start String) {
  registry = record { next_handler_id = 1; handlers = (1, entry) ∷ [] };
}

abbrev first : Process String
first = record added { in_flight = (1, entry) ∷ [] }

abbrev handed : Process String
handed = record added { invoked = (1, entry) ∷ [] }

abbrev second : Process String
second = record handed { in_flight = (1, entry) ∷ [] }

second_reached : Reach (at_start String) second
unfolding handler_of set_handler
second_reached =
    next
      (next
        (next
          (next (next here (number (at_start String) entry (omega arith)))
            (add taken [] [] 1 entry refl))
          (look_up added 1 entry refl))
        (invoke first [] [] (1, entry) refl))
      (look_up handed 1 entry refl)

number-entry_example : entry ≡ entry
number-entry_example = number-entry 0 1 1 entry entry second_reached refl refl
