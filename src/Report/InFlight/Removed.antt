-- ===== src/Report/InFlight/Removed.antt =====
-- What still reaches a handler of iec61850/iec61850_report.go after its entry was removed.
use go_libiec.Prelude.{
  ℕ, ◌+◌, ◌≤◌, ◌<◌, false, none, List, [], ◌∷◌, ◌++◌, ◌==◌, if◌then◌else◌, ◌≡◌, refl, ◌∙◌, ap, ◌^◌,
  Bool-cases, ==_iff, inl, inr, arith,
}
use go_libiec.Report.Registry.{Handlers, handler_of, delete_handler, Registry, new_id}
use go_libiec.Report.Registry.Laws.{handler_of-set_handler, handler_of-delete_first}
use go_libiec.Report.InFlight.{
  Job, Process, Step, look_up, miss, invoke, number, add, roll_back, unsubscribe, Reach, here, next,
}

module _ {H : Type 0} where
  -- How many of the jobs came with the number.
  abbrev pub count_id : ℕ → List (Job H) → ℕ
  count_id id [] = 0
  count_id id ((j, e) ∷ js) = (if j == id then 1 else 0) + count_id id js

  count_id-append :
      (id : ℕ) (xs ys : List (Job H)) → count_id id (xs ++ ys) ≡ count_id id xs + count_id id ys
  count_id-append id [] ys = omega arith
  count_id-append id ((j, e) ∷ xs) ys = omega (arith, count_id-append id xs ys)

  handler_of-delete_handler :
      (id j : ℕ) (hs : Handlers H)
      → handler_of j hs ≡ none
      → handler_of j (delete_handler id hs) ≡ none
  unfolding handler_of delete_handler
  handler_of-delete_handler id j [] h = h
  handler_of-delete_handler id j ((i, f) ∷ hs) h = ground (arith, handler_of-delete_handler id j hs)

  -- The calls of the number's handler, with those that are still to come.
  abbrev pub calls : ℕ → Process H → ℕ
  calls id p = count_id id p.invoked + count_id id p.in_flight

  -- The number was given out, and has no entry in the map or on its way into it.
  abbrev pub IsRemoved : ℕ → Process H → Type 0
  IsRemoved id p =
      (handler_of id p.registry.handlers ≡ none)
      × (count_id id p.pending ≡ 0)
      × (id ≤ p.registry.next_handler_id)

  later_id :
      (id : ℕ) (r : Registry H)
      → id ≤ r.next_handler_id
      → r.next_handler_id + 1 < 2 ^ 32
      → (new_id r == id) ≡ false
  later_id id r le fits = ground arith

  Step-Removed :
      (id : ℕ) {p q : Process H}
      → IsRemoved id p
      → Step p q
      → IsRemoved id q × (calls id q ≡ calls id p)
  Step-Removed id r (look_up p j e found) = elim (Bool-cases (j == id)) [
    | inl same ↦ absurd (cc ((==_iff j id).0 same, r.0, found))
    | inr other ↦ (r, rw other (omega arith))
  ]
  Step-Removed id r (miss p j none_there) = (r, refl)
  Step-Removed id r (invoke p xs ys (j, e) is) = (
    r,
    omega
        (arith, ap (count_id id) is, count_id-append id xs ys, count_id-append id xs ((j, e) ∷ ys)),
  )
  Step-Removed id r (number p e fits) =
      ((r.0, rw (later_id id p.registry r.2 fits) (omega (arith, r.1)), omega arith), refl)
  Step-Removed id r (add p xs ys j e is) =
      let split = count_id-append id xs ((j, e) ∷ ys) in
      let rest = count_id-append id xs ys in
      let all = ap (count_id id) is in
      elim (Bool-cases (j == id)) [
        | inl same ↦ let one = rw same at split in absurd (omega (arith, all, r.1, one))
        | inr other ↦ (
          (
            handler_of-set_handler j id e p.registry.handlers ∙ rw other r.0,
            omega (arith, all, r.1, split, rest),
            r.2,
          ),
          refl,
        )
      ]
  Step-Removed id r (roll_back p j) =
      ((handler_of-delete_handler j id p.registry.handlers r.0, r.1, r.2), refl)
  Step-Removed id r (unsubscribe p ref) = (
    (handler_of-delete_first ref id p.registry.handlers (λ e found. absurd (cc)) ∙ r.0, r.1, r.2),
    refl,
  )

  Reach-Removed :
      (id : ℕ) {p q : Process H}
      → IsRemoved id p
      → Reach p q
      → IsRemoved id q × (calls id q ≡ calls id p)
  Reach-Removed id r here = (r, refl)
  Reach-Removed id r (next path st) =
      let before = Reach-Removed id r path in
      let after = Step-Removed id before.0 st in (after.0, after.1 ∙ before.1)

  -- Once a number that was given out has no entry any more, after a subscription that failed or after
  -- an unsubscription, its handler is called only for reports that had looked it up before: whatever
  -- is subscribed, unsubscribed, received and called in whatever order, as long as the numbers do not
  -- start again, the calls that were made and the calls that are still to come stay the same in
  -- number, at most those that were to come are made, and the number stays without an entry.
  pub removed-calls :
      {p q : Process H} (id : ℕ)
      → handler_of id p.registry.handlers ≡ none
      → count_id id p.pending ≡ 0
      → id ≤ p.registry.next_handler_id
      → Reach p q
      → (count_id id q.invoked + count_id id q.in_flight
          ≡ count_id id p.invoked + count_id id p.in_flight)
        × (count_id id q.invoked ≤ count_id id p.invoked + count_id id p.in_flight)
        × (handler_of id q.registry.handlers ≡ none)
  removed-calls id gone no_entry le path =
      let all = Reach-Removed id (gone, no_entry, le) path in (all.1, omega (arith, all.1), all.0.0)
