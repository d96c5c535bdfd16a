-- ===== src/Client/Connection/Quiet.antt =====
-- The three operates of iec61850/iec61850_control.go neither close nor destroy the connection.
use go_libiec.Prelude.{
  ℕ, suc, String, Bool, true, false, Option, none, some, List, [], ◌∷◌, ◌≡◌, refl, ◌∙◌, ◌⊎◌, Dict,
  lookup, inl, inr, Bool-cases,
}
use go_libiec.Mms.Types.{MmsType}
use go_libiec.Control.{
  CtlVal, Event, create, new_value, close_connection, destroy_connection, ControlApi, CachedControl,
  Client, ControlError, is_integer, accept, on_create, on_lookup, get_or_create, send, on_new,
  with_value, with_entry, release, release_value, destroy, initial, entries,
}

-- How many calls close or destroy the connection.
abbrev pub ended : List Event → ℕ
ended [] = 0
ended (close_connection ∷ log) = suc (ended log)
ended (destroy_connection ∷ log) = suc (ended log)
ended (e ∷ log) = ended log

module _ (a : ControlApi) where
  accept-ended :
      (ref : String) (require : Bool) (c : Client) (ctrl : ℕ) (got : MmsType)
      → ended (accept a ref require c ctrl got).1.log ≡ ended c.log
  unfolding accept
  accept-ended ref false c ctrl got = refl
  accept-ended ref true c ctrl got = elim (Bool-cases (is_integer got)) [
    | inl integer ↦ rw integer
    | inr other ↦ rw other
  ]

  on_create-ended :
      (ref : String) (require : Bool) (c : Client) (answer : Option ℕ)
      → ended (on_create a ref require c answer).1.log ≡ ended c.log
  unfolding on_create
  on_create-ended ref require c none = refl
  on_create-ended ref require c (some n) = accept-ended ref require c n _

  on_lookup-ended :
      (ref : String) (require : Bool) (c : Client) (found : Option CachedControl)
      → ended (on_lookup a ref require c found).1.log ≡ ended c.log
  unfolding on_lookup
  on_lookup-ended ref require c (some e) = refl
  on_lookup-ended ref require c none =
      let answer = a.created c.log ref in
      on_create-ended ref require (record c { log = create ref answer ∷ c.log }) answer

  on_new-ended :
      (ref : String) (x : CtlVal) (ctrl : ℕ) (c : Client) (answer : Option ℕ)
      → ended (on_new a ref x ctrl c answer).1.log ≡ ended c.log
  unfolding on_new send
  on_new-ended ref x ctrl c none = refl
  on_new-ended ref x ctrl c (some v) = refl

  with_value-ended :
      (ref : String) (x : CtlVal) (c : Client) (ctrl : ℕ) (o : Option ℕ)
      → ended (with_value a ref x c ctrl o).1.log ≡ ended c.log
  unfolding with_value send
  with_value-ended ref x c ctrl (some v) = refl
  with_value-ended ref x c ctrl none =
      let answer = a.allocated c.log (initial a x) in
      on_new-ended ref x ctrl (record c { log = new_value (initial a x) answer ∷ c.log }) answer

  with_entry-ended :
      (ref : String) (x : CtlVal) (r : (ControlError ⊎ CachedControl) × Client)
      → ended (with_entry a ref x r).1.log ≡ ended r.1.log
  unfolding with_entry
  with_entry-ended ref x (inl e, c) = refl
  with_entry-ended ref x (inr e, c) = with_value-ended ref x c e.ctrl e.ctl_reuse

  pub operate-ended :
      (ref : String) (x : CtlVal) (require : Bool) (c : Client)
      → ended (with_entry a ref x (get_or_create a ref require c)).1.log ≡ ended c.log
  unfolding get_or_create
  operate-ended ref x require c =
      with_entry-ended ref x (get_or_create a ref require c)
      ∙ on_lookup-ended ref require (record c { control_cache = some (entries c.control_cache) })
          (lookup ref (entries c.control_cache))

release_value-ended : (o : Option ℕ) (log : List Event) → ended (release_value o log) ≡ ended log
release_value-ended none log = refl
release_value-ended (some v) log = refl

pub release-ended : (d : Dict CachedControl) (log : List Event) → ended (release d log) ≡ ended log
unfolding release
release-ended [] log = refl
release-ended ((k, e) ∷ d) log =
    release-ended d (destroy e.ctrl ∷ release_value e.ctl_reuse log)
    ∙ release_value-ended e.ctl_reuse log
