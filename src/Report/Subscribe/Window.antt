-- ===== src/Report/Subscribe/Window.antt =====
-- Callbacks that find their handler, for iec61850/iec61850_report.go, and the steps that keep them so.
use go_libiec.Prelude.{
  ℕ, ◌≤◌, ◌<◌, String, Option, none, some, ◌≡◌, sym, ap, ◌∙◌, str_eq, eq_iff, inl, inr, Bool-cases,
  some_eq,
}
use go_libiec.Report.Registry.{HandlerEntry, Handlers, handler_of, set_handler, delete_first}
use go_libiec.Report.Subscribe.Laws.{
  Fits, Replaced, Replaced-same, Replaced-other, kept_below, kept_others,
}

-- Every installed callback has a handler of its control block: no report arrives that finds none.
abbrev pub Covers : {H : Type 0} → (String → Option ℕ) → Handlers H → Type 0
Covers {H} f hs =
    (ref : String) (id : ℕ)
    → f ref ≡ some id
    → (e : HandlerEntry H) × (handler_of id hs ≡ some e) × (e.rcb_ref ≡ ref)

module _ {H : Type 0} where
  pub Covers-same :
      (f g : String → Option ℕ) (hs : Handlers H)
      → Covers f hs
      → ((other : String) → g other ≡ f other)
      → Covers g hs
  Covers-same f g hs c same ref id h = c ref id (sym (same ref) ∙ h)

  -- Adding an entry above all numbers in use.
  pub Covers-register :
      (f : String → Option ℕ) (n k : ℕ) (e : HandlerEntry H) (hs : Handlers H)
      → n < k
      → ((ref : String) (id : ℕ) → f ref ≡ some id → id ≤ n)
      → Covers f hs
      → Covers f (set_handler k e hs)
  Covers-register f n k e hs lt bound c ref id h =
      let (d, found, named) = c ref id h in
      (d, sym (kept_below n k id e hs lt (bound ref id h)) ∙ found, named)

  pub Covers-install :
      (f g : String → Option ℕ) (ref : String) (id : ℕ) (e : HandlerEntry H) (hs : Handlers H)
      → handler_of id hs ≡ some e
      → e.rcb_ref ≡ ref
      → Replaced ref (some id) f g
      → Covers f hs
      → Covers g hs
  Covers-install f g ref id e hs found named r c other j h = elim (Bool-cases (str_eq ref other)) [
    | inl same ↦ (
      e,
      ap (λ i. handler_of i hs)
            (sym (some_eq (sym (Replaced-same ref (some id) f g other r same) ∙ h)))
          ∙ found,
      named ∙ (eq_iff ref other).0 same,
    )
    | inr diff ↦ c other j (sym (Replaced-other ref (some id) f g other r diff) ∙ h)
  ]

  pub Covers-uninstall :
      (f g : String → Option ℕ) (ref : String) (hs : Handlers H)
      → Replaced ref none f g
      → Covers f hs
      → Covers g hs
  Covers-uninstall f g ref hs r c other j h = elim (Bool-cases (str_eq ref other)) [
    | inl same ↦ cc (h, Replaced-same ref none f g other r same)
    | inr diff ↦ c other j (sym (Replaced-other ref none f g other r diff) ∙ h)
  ]

  pub Covers-delete :
      (f g : String → Option ℕ) (ref : String) (n : ℕ) (hs : Handlers H)
      → Fits n hs f
      → Replaced ref none f g
      → Covers f hs
      → Covers g (delete_first ref hs)
  Covers-delete f g ref n hs v r c other j h = elim (Bool-cases (str_eq ref other)) [
    | inl same ↦ cc (h, Replaced-same ref none f g other r same)
    | inr diff ↦
        let before = sym (Replaced-other ref none f g other r diff) ∙ h in
        let (e, found, named) = c other j before in
        (e, kept_others ref other n j hs f v diff before ∙ found, named)
  ]
