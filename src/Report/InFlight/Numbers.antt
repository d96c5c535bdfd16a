-- ===== src/Report/InFlight/Numbers.antt =====
-- A handler number of iec61850/iec61850_report.go stands for one entry.
use go_libiec.Prelude.{
  ℕ, zero, suc, ◌+◌, ◌^◌, ◌≤◌, ◌<◌, String, true, Option, none, some, List, [], ◌∷◌, ◌++◌,
  get_elem?, str_eq, ◌==◌, ==_iff, if◌then◌else◌, ◌≡◌, refl, sym, ap, ◌∙◌, some_eq, inl, inr,
  Bool-cases, arith,
}
use mathlib.Core.Path.{subst}
use go_libiec.Report.Registry.{
  HandlerEntry, Handlers, Registry, handler_of, set_handler, delete_handler, delete_first, new_id,
}
use go_libiec.Report.InFlight.{
  Job, Process, Step, look_up, miss, invoke, number, add, roll_back, unsubscribe, Reach, here, next,
}

-- Which entry each number was given out for.
abbrev Given : Type 0 → Type 0
Given H = ℕ → Option (HandlerEntry H)

module _ {H : Type 0} where
  -- The jobs have the entries of their numbers, which are at most `n`.
  abbrev Named : Given H → ℕ → List (Job H) → Type 0
  Named g n [] = Unit
  Named g n ((id, e) ∷ js) = ((g id ≡ some e) × (id ≤ n)) × Named g n js

  record IsNamed (g : Given H) (p : Process H) : Type 0 where
    in_map : Named g p.registry.next_handler_id p.registry.handlers
    on_way : Named g p.registry.next_handler_id p.pending
    flying : Named g p.registry.next_handler_id p.in_flight
    called : Named g p.registry.next_handler_id p.invoked

  Named-middle :
      (g : Given H) (n : ℕ) (xs ys : List (Job H)) (id : ℕ) (e : HandlerEntry H)
      → Named g n (xs ++ ((id, e) ∷ ys))
      → Named g n (xs ++ ys) × ((g id ≡ some e) × (id ≤ n))
  Named-middle g n [] ys id e w = (w.1, w.0)
  Named-middle g n ((i, f) ∷ xs) ys id e w =
      let rest = Named-middle g n xs ys id e w.1 in ((w.0, rest.0), rest.1)

  Named-append :
      (g : Given H) (n : ℕ) (xs ys : List (Job H))
      → Named g n xs
      → Named g n ys
      → Named g n (xs ++ ys)
  Named-append g n [] ys w v = v
  Named-append g n ((i, f) ∷ xs) ys w v = (w.0, Named-append g n xs ys w.1 v)

  -- One more number.
  abbrev with_number : Given H → ℕ → HandlerEntry H → Given H
  with_number g k e i = if i == k then some e else g i

  with_number_below :
      (g : Given H) (k i : ℕ) (e : HandlerEntry H) → i < k → with_number g k e i ≡ g i
  with_number_below g k i e lt = ground arith

  Named-number :
      (g : Given H) (n k : ℕ) (e : HandlerEntry H) (js : List (Job H))
      → n < k
      → Named g n js
      → Named (with_number g k e) k js
  Named-number g n k e [] lt w = tt
  Named-number g n k e ((i, f) ∷ js) lt w = (
    (with_number_below g k i e (omega (arith, w.0.1)) ∙ w.0.0, omega (arith, w.0.1)),
    Named-number g n k e js lt w.1,
  )

  set_handler-Named :
      (g : Given H) (n id : ℕ) (e : HandlerEntry H) (hs : Handlers H)
      → (g id ≡ some e) × (id ≤ n)
      → Named g n hs
      → Named g n (set_handler id e hs)
  unfolding set_handler
  set_handler-Named g n id e [] new w = (new, tt)
  set_handler-Named g n id e ((i, f) ∷ hs) new w = elim (Bool-cases (i == id)) [
    | inl same ↦ rw same (new, w.1)
    | inr other ↦ rw other (w.0, set_handler-Named g n id e hs new w.1)
  ]

  delete_handler-Named :
      (g : Given H) (n id : ℕ) (hs : Handlers H) → Named g n hs → Named g n (delete_handler id hs)
  unfolding delete_handler
  delete_handler-Named g n id [] w = tt
  delete_handler-Named g n id ((i, f) ∷ hs) w = elim (Bool-cases (i == id)) [
    | inl same ↦ rw same w.1
    | inr other ↦ rw other (w.0, delete_handler-Named g n id hs w.1)
  ]

  delete_first-Named :
      (g : Given H) (n : ℕ) (ref : String) (hs : Handlers H)
      → Named g n hs
      → Named g n (delete_first ref hs)
  unfolding delete_first
  delete_first-Named g n ref [] w = tt
  delete_first-Named g n ref ((i, f) ∷ hs) w = elim (Bool-cases (str_eq f.rcb_ref ref)) [
    | inl same ↦ rw same w.1
    | inr other ↦ rw other (w.0, delete_first-Named g n ref hs w.1)
  ]

  handler_of-Named :
      (g : Given H) (n id : ℕ) (e : HandlerEntry H) (hs : Handlers H)
      → Named g n hs
      → handler_of id hs ≡ some e
      → (g id ≡ some e) × (id ≤ n)
  unfolding handler_of
  handler_of-Named g n id e [] w found = absurd (cc)
  handler_of-Named g n id e ((i, f) ∷ hs) w found = elim (Bool-cases (i == id)) [
    | inl same ↦
        let is = (==_iff i id).0 same in
        let f_is : some f ≡ some e = rw same at found in
        (ap g (sym is) ∙ (w.0.0 ∙ f_is), omega (arith, is, w.0.1))
    | inr other ↦ handler_of-Named g n id e hs w.1 (rw other at found)
  ]

  new_id_lem : (r : Registry H) → r.next_handler_id + 1 < 2 ^ 32 → new_id r ≡ r.next_handler_id + 1
  new_id_lem r fits = omega arith

  Step-Named :
      {p q : Process H} (g : Given H) → IsNamed g p → Step p q → (g' : Given H) × IsNamed g' q
  Step-Named g w (look_up p id e found) = (
    g,
    record {
      in_map = w.in_map;
      on_way = w.on_way;
      flying = (handler_of-Named g _ id e p.registry.handlers w.in_map found, w.flying);
      called = w.called;
    },
  )
  Step-Named g w (miss p id none_there) = (g, w)
  Step-Named g w (invoke p xs ys (id, e) is) =
      let split =
        Named-middle g p.registry.next_handler_id xs ys id e
          (subst (Named g p.registry.next_handler_id) is w.flying) in
      (
        g,
        record {
          in_map = w.in_map;
          on_way = w.on_way;
          flying = split.0;
          called = (split.1, w.called);
        },
      )
  Step-Named g w (number p e fits) =
      let n = p.registry.next_handler_id in
      let k = new_id p.registry in
      let lt : n < k = omega (arith, new_id_lem p.registry fits) in
      let same : (k == k) ≡ true = (==_iff k k).1 refl in
      (
        with_number g k e,
        record {
          in_map = Named-number g n k e p.registry.handlers lt w.in_map;
          on_way = ((rw same refl, omega arith), Named-number g n k e p.pending lt w.on_way);
          flying = Named-number g n k e p.in_flight lt w.flying;
          called = Named-number g n k e p.invoked lt w.called;
        },
      )
  Step-Named g w (add p xs ys id e is) =
      let n = p.registry.next_handler_id in
      let split = Named-middle g n xs ys id e (subst (Named g n) is w.on_way) in
      (
        g,
        record {
          in_map = set_handler-Named g n id e p.registry.handlers split.1 w.in_map;
          on_way = split.0;
          flying = w.flying;
          called = w.called;
        },
      )
  Step-Named g w (roll_back p id) = (
    g,
    record {
      in_map = delete_handler-Named g _ id p.registry.handlers w.in_map;
      on_way = w.on_way;
      flying = w.flying;
      called = w.called;
    },
  )
  Step-Named g w (unsubscribe p ref) = (
    g,
    record {
      in_map = delete_first-Named g _ ref p.registry.handlers w.in_map;
      on_way = w.on_way;
      flying = w.flying;
      called = w.called;
    },
  )

module _ (H : Type 0) where
  -- The process at its start.
  abbrev pub at_start : Process H
  at_start = record {
    registry = record { next_handler_id = 0; handlers = [] };
    pending = [];
    in_flight = [];
    invoked = [];
  }

module _ {H : Type 0} where
  Reach-Named : {q : Process H} → Reach (at_start H) q → (g : Given H) × IsNamed g q
  Reach-Named here = ((λ i. none), record { in_map = tt; on_way = tt; flying = tt; called = tt })
  Reach-Named (next path st) = let before = Reach-Named path in Step-Named before.0 before.1 st

  get_elem?-Named :
      (g : Given H) (n : ℕ) (js : List (Job H)) (i id : ℕ) (e : HandlerEntry H)
      → Named g n js
      → get_elem? js i ≡ some (id, e)
      → g id ≡ some e
  get_elem?-Named g n [] i id e w at = absurd (cc)
  get_elem?-Named g n ((k, f) ∷ js) zero id e w at =
      ap g (ap (λ (j : Job H). j.0) (sym (some_eq at)))
      ∙ (w.0.0 ∙ ap (λ (j : Job H). some j.1) (some_eq at))
  get_elem?-Named g n ((k, f) ∷ js) (suc i) id e w at = get_elem?-Named g n js i id e w.1 at

  -- However subscriptions, unsubscriptions and reports interleave from the start of the process on, as
  -- long as the numbers do not start again, all reports that came with one number went, or are on
  -- their way, to one entry: the same handler with the same control block.
  pub number-entry :
      {q : Process H} (i j id : ℕ) (e f : HandlerEntry H)
      → Reach (at_start H) q
      → get_elem? (q.invoked ++ q.in_flight) i ≡ some (id, e)
      → get_elem? (q.invoked ++ q.in_flight) j ≡ some (id, f)
      → e ≡ f
  number-entry {q} i j id e f path at_i at_j =
      let (g, w) = Reach-Named path in
      let all = Named-append g q.registry.next_handler_id q.invoked q.in_flight w.called w.flying in
      some_eq (
        sym (get_elem?-Named g _ (q.invoked ++ q.in_flight) i id e all at_i)
        ∙ get_elem?-Named g _ (q.invoked ++ q.in_flight) j id f all at_j)
