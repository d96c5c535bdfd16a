-- ===== src/Report/Subscribe/Laws.antt =====
-- The invariant of the registry and the callbacks, and what the steps of the subscriptions do to it.
use go_libiec.Prelude.{
  ℕ, ◌≤◌, ◌<◌, String, true, false, Option, none, some, ◌≡◌, sym, ap, ◌∙◌, str_eq, eq_iff,
  if◌then◌else◌, arith, inl, inr, Bool-cases, some_eq,
}
use go_libiec.Report.Registry.{HandlerEntry, Handlers, handler_of, set_handler, delete_first}
use go_libiec.Report.Registry.Laws.{
  IdsAtMost, IdsAtMost-mono, handler_of-set_handler, set_handler-IdsAtMost, delete_first-IdsAtMost,
  handler_of-delete_first,
}

-- The callbacks `f` of the connection and the map fit: no number above `n` is in use, in the map or
-- as the parameter of a callback, and a callback leads to no entry of another control block.
pub record Fits {H : Type 0} (n : ℕ) (hs : Handlers H) (f : String → Option ℕ) : Type 0 where
  pub ids : IdsAtMost n hs
  pub bound : (ref : String) (id : ℕ) → f ref ≡ some id → id ≤ n
  pub own :
      (ref : String) (id : ℕ) (e : HandlerEntry H)
      → f ref ≡ some id
      → handler_of id hs ≡ some e
      → e.rcb_ref ≡ ref

-- The callbacks `g` are `f` with that of one control block replaced.
abbrev pub Replaced : String → Option ℕ → (String → Option ℕ) → (String → Option ℕ) → Type 0
Replaced ref h f g = (other : String) → g other ≡ (if str_eq ref other then h else f other)

pub Replaced-same :
    (ref : String) (h : Option ℕ) (f g : String → Option ℕ) (other : String)
    → Replaced ref h f g
    → str_eq ref other ≡ true
    → g other ≡ h
Replaced-same ref h f g other r same = r other ∙ ap (λ b. if b then h else f other) same

pub Replaced-other :
    (ref : String) (h : Option ℕ) (f g : String → Option ℕ) (other : String)
    → Replaced ref h f g
    → str_eq ref other ≡ false
    → g other ≡ f other
Replaced-other ref h f g other r same = r other ∙ ap (λ b. if b then h else f other) same

module _ {H : Type 0} where
  pub Fits-same :
      (n : ℕ) (hs : Handlers H) (f g : String → Option ℕ)
      → Fits n hs f
      → ((other : String) → g other ≡ f other)
      → Fits n hs g
  Fits-same n hs f g v same = record {
    ids = v.ids;
    bound = λ ref id h. v.bound ref id (sym (same ref) ∙ h);
    own = λ ref id e h found. v.own ref id e (sym (same ref) ∙ h) found;
  }

  pub Fits-uninstall :
      (ref : String) (n k : ℕ) (hs : Handlers H) (f g : String → Option ℕ)
      → Fits n hs f
      → n ≤ k
      → Replaced ref none f g
      → Fits k hs g
  Fits-uninstall ref n k hs f g v le r = record {
    ids = IdsAtMost-mono n k hs v.ids le;
    bound = λ other id h. elim (Bool-cases (str_eq ref other)) [
      | inl same ↦ cc (h, Replaced-same ref none f g other r same)
      | inr diff ↦
          omega (arith, v.bound other id (sym (Replaced-other ref none f g other r diff) ∙ h), le)
    ];
    own = λ other id e h found. elim (Bool-cases (str_eq ref other)) [
      | inl same ↦ cc (h, Replaced-same ref none f g other r same)
      | inr diff ↦ v.own other id e (sym (Replaced-other ref none f g other r diff) ∙ h) found
    ];
  }

  -- The new entry is found by its number, and below it nothing changes.
  pub found_new :
      (n : ℕ) (e : HandlerEntry H) (hs : Handlers H) → handler_of n (set_handler n e hs) ≡ some e
  found_new n e hs = ground (arith, handler_of-set_handler n n e hs)

  pub kept_below :
      (n k id : ℕ) (e : HandlerEntry H) (hs : Handlers H)
      → n < k
      → id ≤ n
      → handler_of id hs ≡ handler_of id (set_handler k e hs)
  kept_below n k id e hs lt le = ground (arith, handler_of-set_handler k id e hs, lt, le)

  installed_own :
      (ref other : String) (k id : ℕ) (e d : HandlerEntry H) (hs : Handlers H)
      → e.rcb_ref ≡ ref
      → ref ≡ other
      → k ≡ id
      → handler_of id (set_handler k e hs) ≡ some d
      → d.rcb_ref ≡ other
  installed_own ref other k id e d hs named same num found =
      ap (λ x. x.rcb_ref)
        (some_eq
          (sym found ∙ (ap (λ j. handler_of j (set_handler k e hs)) (sym num) ∙ found_new k e hs)))
      ∙ (named ∙ same)

  pub Fits-install :
      (ref : String) (n k : ℕ) (e : HandlerEntry H) (hs : Handlers H) (f g : String → Option ℕ)
      → n < k
      → e.rcb_ref ≡ ref
      → Fits n hs f
      → Replaced ref (some k) f g
      → Fits k (set_handler k e hs) g
  Fits-install ref n k e hs f g lt named v r = record {
    ids = set_handler-IdsAtMost n k e hs v.ids lt;
    bound = λ other id h. elim (Bool-cases (str_eq ref other)) [
      | inl same ↦ omega (arith, some_eq (sym (Replaced-same ref _ f g other r same) ∙ h))
      | inr diff ↦ omega (arith, v.bound other id (sym (Replaced-other ref _ f g other r diff) ∙ h))
    ];
    own = λ other id d h found. elim (Bool-cases (str_eq ref other)) [
      | inl same ↦
          installed_own ref other k id e d hs named ((eq_iff ref other).0 same)
            (some_eq (sym (Replaced-same ref _ f g other r same) ∙ h)) found
      | inr diff ↦ v.own other id d (sym (Replaced-other ref _ f g other r diff) ∙ h) (
          kept_below n k id e hs lt
            (v.bound other id (sym (Replaced-other ref _ f g other r diff) ∙ h))
          ∙ found)
    ];
  }

  -- Deleting an entry of one control block keeps what the callbacks of the others reach.
  pub kept_others :
      (ref other : String) (n id : ℕ) (hs : Handlers H) (f : String → Option ℕ)
      → Fits n hs f
      → str_eq ref other ≡ false
      → f other ≡ some id
      → handler_of id (delete_first ref hs) ≡ handler_of id hs
  kept_others ref other n id hs f v diff h = handler_of-delete_first ref id hs (λ e found.
      ground (arith, diff, v.own other id e h found, eq_iff ref other, eq_iff e.rcb_ref ref))

  pub Fits-delete :
      (ref : String) (n : ℕ) (hs : Handlers H) (f g : String → Option ℕ)
      → Fits n hs f
      → Replaced ref none f g
      → Fits n (delete_first ref hs) g
  Fits-delete ref n hs f g v r = record {
    ids = delete_first-IdsAtMost n ref hs v.ids;
    bound = λ other id h. elim (Bool-cases (str_eq ref other)) [
      | inl same ↦ cc (h, Replaced-same ref none f g other r same)
      | inr diff ↦ v.bound other id (sym (Replaced-other ref none f g other r diff) ∙ h)
    ];
    own = λ other id e h found. elim (Bool-cases (str_eq ref other)) [
      | inl same ↦ cc (h, Replaced-same ref none f g other r same)
      | inr diff ↦ v.own other id e (sym (Replaced-other ref none f g other r diff) ∙ h) (
          sym (
            kept_others ref other n id hs f v diff
              (sym (Replaced-other ref none f g other r diff) ∙ h))
          ∙ found)
    ];
  }
