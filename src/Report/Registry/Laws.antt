-- ===== src/Report/Registry/Laws.antt =====
-- The operations of the registry.
use go_libiec.Prelude.{
  ℕ, ◌-◌, ◌≤◌, ◌<◌, ◌≡◌, refl, String, none, some, false, [], ◌∷◌, str_eq, ◌==◌, if◌then◌else◌,
  arith, inl, inr, Bool-cases,
}
use go_libiec.Report.Registry.{
  HandlerEntry, Handlers, handler_of, set_handler, delete_handler, delete_first, count_ref,
}

module _ {H : Type 0} where
  -- Every key of the map is at most `n`.
  abbrev pub IdsAtMost : ℕ → Handlers H → Type 0
  IdsAtMost n [] = Unit
  IdsAtMost n ((j, e) ∷ hs) = (j ≤ n) × IdsAtMost n hs

  pub handler_of-set_handler :
      (id j : ℕ) (e : HandlerEntry H) (hs : Handlers H)
      → handler_of j (set_handler id e hs) ≡ (if id == j then some e else handler_of j hs)
  unfolding handler_of set_handler
  handler_of-set_handler id j e [] = refl
  handler_of-set_handler id j e ((i, f) ∷ hs) = ground (arith, handler_of-set_handler id j e hs)

  -- Above the keys of the map nothing is found, and deleting a new entry gives the map back.
  pub handler_of-fresh :
      (n j : ℕ) (hs : Handlers H) → IdsAtMost n hs → n < j → handler_of j hs ≡ none
  unfolding handler_of
  handler_of-fresh n j [] h lt = refl
  handler_of-fresh n j ((i, f) ∷ hs) h lt = ground (arith, handler_of-fresh n j hs h.1 lt)

  pub delete_handler-set_handler :
      (n id : ℕ) (e : HandlerEntry H) (hs : Handlers H)
      → IdsAtMost n hs
      → n < id
      → delete_handler id (set_handler id e hs) ≡ hs
  unfolding set_handler delete_handler
  delete_handler-set_handler n id e [] h lt = ground arith
  delete_handler-set_handler n id e ((i, f) ∷ hs) h lt =
      ground (arith, delete_handler-set_handler n id e hs h.1 lt)

  pub IdsAtMost-mono : (n k : ℕ) (hs : Handlers H) → IdsAtMost n hs → n ≤ k → IdsAtMost k hs
  IdsAtMost-mono n k [] h le = tt
  IdsAtMost-mono n k ((i, f) ∷ hs) h le = (omega arith, IdsAtMost-mono n k hs h.1 le)

  pub set_handler-IdsAtMost :
      (n id : ℕ) (e : HandlerEntry H) (hs : Handlers H)
      → IdsAtMost n hs
      → n < id
      → IdsAtMost id (set_handler id e hs)
  unfolding set_handler
  set_handler-IdsAtMost n id e [] h lt = omega arith
  set_handler-IdsAtMost n id e ((i, f) ∷ hs) h lt = elim (Bool-cases (i == id)) [
    | inl same ↦ rw same (omega arith, IdsAtMost-mono n id hs h.1 (omega arith))
    | inr other ↦ rw other (omega arith, set_handler-IdsAtMost n id e hs h.1 lt)
  ]

  pub count_ref-delete_first :
      (ref : String) (hs : Handlers H) → count_ref ref (delete_first ref hs) ≡ count_ref ref hs - 1
  unfolding count_ref delete_first
  count_ref-delete_first ref [] = omega arith
  count_ref-delete_first ref ((i, f) ∷ hs) = elim (Bool-cases (str_eq f.rcb_ref ref)) [
    | inl same ↦ rw same (omega arith)
    | inr other ↦ rw (other, other) (count_ref-delete_first ref hs)
  ]

  pub delete_first-IdsAtMost :
      (n : ℕ) (ref : String) (hs : Handlers H) → IdsAtMost n hs → IdsAtMost n (delete_first ref hs)
  unfolding delete_first
  delete_first-IdsAtMost n ref [] h = tt
  delete_first-IdsAtMost n ref ((i, f) ∷ hs) h = elim (Bool-cases (str_eq f.rcb_ref ref)) [
    | inl same ↦ rw same h.1
    | inr other ↦ rw other (h.0, delete_first-IdsAtMost n ref hs h.1)
  ]

  -- Deleting an entry of a reference keeps what a number finds, unless it finds one of that
  -- reference.
  pub handler_of-delete_first :
      (ref : String) (j : ℕ) (hs : Handlers H)
      → ((e : HandlerEntry H) → handler_of j hs ≡ some e → str_eq e.rcb_ref ref ≡ false)
      → handler_of j (delete_first ref hs) ≡ handler_of j hs
  unfolding handler_of delete_first
  handler_of-delete_first ref j [] h = refl
  handler_of-delete_first ref j ((i, f) ∷ hs) h = elim (Bool-cases (i == j)) [
    | inl found ↦ rw (h f (rw found refl), found) refl
    | inr other ↦ elim (Bool-cases (str_eq f.rcb_ref ref)) [
      | inl same ↦ rw (same, other) refl
      | inr kept ↦
          rw (kept, other) (handler_of-delete_first ref j hs (λ e found. h e (rw other found)))
    ]
  ]
