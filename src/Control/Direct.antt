-- ===== src/Control/Direct.antt =====
-- The three operates of iec61850/iec61850_control.go keep account of the library's objects.
use go_libiec.Prelude.{
  ℕ, ◌+◌, String, Bool, true, false, Option, none, some, ◌∷◌, lookup, insert, ◌≡◌, refl, ap, ◌∙◌,
  eq_refl, if◌then◌else◌, ◌⊎◌, inl, inr, arith, Bool-cases, lookup-insert,
}
use go_libiec.Mms.Types.{MmsType}
use go_libiec.Control.{
  CtlVal, create, new_value, set_value, set_origin, ControlApi, CachedControl, Client, entries,
  ControlError, is_integer, accept, on_create, on_lookup, get_or_create, send, on_new, with_value,
  with_entry, direct_with_normal_security, direct_with_normal_security_int32,
  direct_with_normal_security_float32, initial, boolean, int32, float32,
}
use go_libiec.Control.Balance.{
  Handle, opened, closed, owns, tally, total, weight, total-insert, IsBalanced, create-none,
  create-some, destroy-owns, new_value-none, new_value-some, send-quiet,
}

module _ (a : ControlApi) (h : Handle) where
  -- What a lookup of the entry gives: a balanced client whose cache has the entry.
  abbrev Found : String → (ControlError ⊎ CachedControl) × Client → Type 0
  Found ref (inl e, c) = IsBalanced h c
  Found ref (inr e, c) = IsBalanced h c × (lookup ref (entries c.control_cache) ≡ some e)

  -- A created control object that the cache does not have yet.
  abbrev Created : ℕ → Client → Type 0
  Created n c =
      tally (opened h) c.log
      ≡ tally (closed h) c.log
        + (total (owns h) (entries c.control_cache)
            + owns h (record { ctrl = n; ctl_reuse = none }))

  kept-Found :
      (ref : String) (c : Client) (ctrl : ℕ)
      → lookup ref (entries c.control_cache) ≡ none
      → Created ctrl c
      → Found ref (
        inr (record { ctrl = ctrl; ctl_reuse = none }),
        record c {
          control_cache =
              some
                (insert ref (record { ctrl = ctrl; ctl_reuse = none }) (entries c.control_cache));
        },
      )
  kept-Found ref c ctrl fresh b =
      let e : CachedControl = record { ctrl = ctrl; ctl_reuse = none } in
      let t = total-insert (owns h) ref e (entries c.control_cache) in
      let was = ap (weight (owns h)) fresh in
      (
        omega (arith, t, was, b),
        lookup-insert ref ref e (entries c.control_cache)
            ∙ ap (λ b. if b then some e else lookup ref (entries c.control_cache)) (eq_refl ref),
      )

  accept-Found :
      (ref : String) (require : Bool) (c : Client) (ctrl : ℕ) (got : MmsType)
      → lookup ref (entries c.control_cache) ≡ none
      → Created ctrl c
      → Found ref (accept a ref require c ctrl got)
  unfolding accept
  accept-Found ref false c ctrl got fresh b = kept-Found ref c ctrl fresh b
  accept-Found ref true c ctrl got fresh b = elim (Bool-cases (is_integer got)) [
    | inl integer ↦ rw integer (kept-Found ref c ctrl fresh b)
    | inr other ↦ rw other (let q = destroy-owns h ctrl in omega (arith, q.0, q.1, b))
  ]

  on_create-Found :
      (ref : String) (require : Bool) (c : Client) (answer : Option ℕ)
      → lookup ref (entries c.control_cache) ≡ none
      → IsBalanced h c
      → Found ref (on_create a ref require (record c { log = create ref answer ∷ c.log }) answer)
  unfolding on_create
  on_create-Found ref require c none fresh b =
      let q = create-none h ref in omega (arith, q.0, q.1, b)
  on_create-Found ref require c (some n) fresh b =
      accept-Found ref require (record c { log = create ref (some n) ∷ c.log }) n _ fresh
        (let q = create-some h ref n in omega (arith, q.0, q.1, b))

  on_lookup-Found :
      (ref : String) (require : Bool) (c : Client) (found : Option CachedControl)
      → lookup ref (entries c.control_cache) ≡ found
      → IsBalanced h c
      → Found ref (on_lookup a ref require c found)
  unfolding on_lookup
  on_lookup-Found ref require c (some e) is b = (b, is)
  on_lookup-Found ref require c none is b = on_create-Found ref require c _ is b

  send-IsBalanced :
      (ref : String) (x : CtlVal) (ctrl v : ℕ) (c : Client)
      → IsBalanced h c
      → IsBalanced h (send a ref x ctrl v c).1
  unfolding send
  send-IsBalanced ref x ctrl v c b =
      let q =
        send-quiet h ctrl v x (a.operated (set_origin ctrl 3 ∷ set_value v x ∷ c.log) ctrl v) in
      omega (arith, q.0, q.1, b)

  on_new-IsBalanced :
      (ref : String) (x y : CtlVal) (ctrl : ℕ) (c : Client) (answer : Option ℕ)
      → lookup ref (entries c.control_cache) ≡ some (record { ctrl = ctrl; ctl_reuse = none })
      → IsBalanced h c
      → IsBalanced h (on_new a ref x ctrl (record c { log = new_value y answer ∷ c.log }) answer).1
  unfolding on_new
  on_new-IsBalanced ref x y ctrl c none is b =
      let q = new_value-none h y in omega (arith, q.0, q.1, b)
  on_new-IsBalanced ref x y ctrl c (some v) is b =
      send-IsBalanced ref x ctrl v
        (record {
          control_cache =
              some
                (insert ref (record { ctrl = ctrl; ctl_reuse = some v }) (entries c.control_cache));
          log = new_value y (some v) ∷ c.log;
        })
        (let q = new_value-some h y ctrl v in
          let t =
            total-insert (owns h) ref (record { ctrl = ctrl; ctl_reuse = some v })
              (entries c.control_cache) in
          let was = ap (weight (owns h)) is in omega (arith, q.0, q.1, b, t, was))

  with_value-IsBalanced :
      (ref : String) (x : CtlVal) (c : Client) (ctrl : ℕ) (o : Option ℕ)
      → lookup ref (entries c.control_cache) ≡ some (record { ctrl = ctrl; ctl_reuse = o })
      → IsBalanced h c
      → IsBalanced h (with_value a ref x c ctrl o).1
  unfolding with_value
  with_value-IsBalanced ref x c ctrl (some v) is b = send-IsBalanced ref x ctrl v c b
  with_value-IsBalanced ref x c ctrl none is b = on_new-IsBalanced ref x (initial a x) ctrl c _ is b

  with_entry-IsBalanced :
      (ref : String) (x : CtlVal) (r : (ControlError ⊎ CachedControl) × Client)
      → Found ref r
      → IsBalanced h (with_entry a ref x r).1
  unfolding with_entry
  with_entry-IsBalanced ref x (inl e, c) b = b
  with_entry-IsBalanced ref x (inr e, c) b =
      with_value-IsBalanced ref x c e.ctrl e.ctl_reuse b.1 b.0

  direct-IsBalanced :
      (ref : String) (x : CtlVal) (require : Bool) (c : Client)
      → IsBalanced h c
      → IsBalanced h (with_entry a ref x (get_or_create a ref require c)).1
  unfolding get_or_create
  direct-IsBalanced ref x require c b = with_entry-IsBalanced ref x _ (
      on_lookup-Found ref require (record c { control_cache = some (entries c.control_cache) }) _
        refl b)

-- None of the three operates loses an object of the library: what was created as often as it was
-- released or is held by the cache still is, on every path.
pub direct_with_normal_security-IsBalanced :
    (a : ControlApi) (h : Handle) (ref : String) (c : Client)
    → IsBalanced h c
    → ((val : Bool) → IsBalanced h (direct_with_normal_security a ref val c).1)
      × ((val : ℕ) → IsBalanced h (direct_with_normal_security_int32 a ref val c).1)
      × ((val : ℕ) → IsBalanced h (direct_with_normal_security_float32 a ref val c).1)
unfolding direct_with_normal_security direct_with_normal_security_int32
    direct_with_normal_security_float32
direct_with_normal_security-IsBalanced a h ref c b = (
  (λ val. direct-IsBalanced a h ref (boolean val) false c b),
  (λ val. direct-IsBalanced a h ref (int32 val) true c b),
  (λ val. direct-IsBalanced a h ref (float32 val) false c b),
)
