-- ===== src/Server/Strings.antt =====
-- The C strings that iec61850/model.go and iec61850/iec61850_server.go leave behind.
use go_libiec.Prelude.{
  ℕ, ◌+◌, String, Bool, Option, none, some, List, [], ◌∷◌, ◌++◌, length, length-append,
  append_assoc, ◌≡◌, refl, sym, ap, ◌∙◌, ◌>>=◌, >>=-eq-some, some_eq, arith,
}
use go_libiec.Prelude.Int.{ℤ, negsuc}
use go_libiec.CStrings.{malloc, free, erase}
use go_libiec.Server.Library.{
  Ptr, ModelNodeType, data_attribute_model_type, ServerApi, ServerState, model_node_get_child,
  data_set_create, data_set_entry_create, report_control_block_create,
}
use go_libiec.Server.Model.{
  c_string_freed, Write, written, nil_dereference, beyond_object, write_at, new_ied_model,
  create_logical_device, create_logical_node, create_data_object_cdc_ens,
  create_data_object_cdc_vss, create_data_object_cdc_sav, create_data_object_cdc_apc, get_child,
  set_trigger_options, create_data_set, add_data_set_entry, create_report_control_block,
  destroy_ied_model,
}
use go_libiec.Server.Ied.{
  new_ied_server, is_running, start, stop, destroy, lock_data_model, unlock_data_model,
  update_utc_time_attribute_value, update_float_attribute_value, update_int32_attribute_value,
  update_visible_string_attribute_value,
}

-- What a user of the two files may call.
pub data Operation : Type 0 where
  model : String → Operation
  model_destroyed : Ptr → Operation
  device node ens vss : Ptr → String → Operation
  sav : Ptr → String → Bool → Operation
  apc : Ptr → String → ℤ → Operation
  child : Ptr → String → Operation
  trigger : Ptr → ℕ → Operation
  set entry : Ptr → String → Operation
  control_block : Ptr → String → String → Bool → String → ℕ → ℕ → ℕ → ℕ → ℕ → Operation
  server : Ptr → Operation
  started : Ptr → ℤ → Operation
  asked_running stopped destroyed locked unlocked : Ptr → Operation
  time : Ptr → Ptr → ℤ → Operation
  float int32 : Ptr → Ptr → ℕ → Operation
  visible_string : Ptr → Ptr → String → Operation

-- After a write; a nil pointer ends the process, and a write past an object has no defined result.
abbrev pub after_write : Write → Option ServerState
after_write (written s) = some s
after_write nil_dereference = none
after_write beyond_object = none

-- The C strings that the call allocates and does not free: those of the constructors of the model
-- and of its nodes, and the one of an update of a visible string.
abbrev pub kept : Operation → ℕ
kept (model name) = 1
kept (device p name) = 1
kept (node p name) = 1
kept (ens p name) = 1
kept (vss p name) = 1
kept (sav p name b) = 1
kept (apc p name c) = 1
kept (visible_string p attr v) = 1
kept o = 0

abbrev pub kept_by : List Operation → ℕ
kept_by [] = 0
kept_by (o ∷ os) = kept o + kept_by os

module _ (a : ServerApi) where
  unfoldable pub perform : Operation → ServerState → Option ServerState
  perform (model name) s = some (new_ied_model a name s).1
  perform (model_destroyed p) s = some (destroy_ied_model p s)
  perform (device p name) s = some (create_logical_device a p name s).1
  perform (node p name) s = some (create_logical_node a p name s).1
  perform (ens p name) s = some (create_data_object_cdc_ens a p name s).1
  perform (vss p name) s = some (create_data_object_cdc_vss a p name s).1
  perform (sav p name b) s = some (create_data_object_cdc_sav a p name b s).1
  perform (apc p name c) s = some (create_data_object_cdc_apc a p name c s).1
  perform (child p name) s = some (get_child a p name s).1
  perform (trigger p opts) s = after_write (set_trigger_options a p opts s)
  perform (set p name) s = some (create_data_set a p name s).1
  perform (entry p ref) s = some (add_data_set_entry a p ref s).1
  perform (control_block p name id b ds rev trg opt buf intg) s =
      some (create_report_control_block a p name id b ds rev trg opt buf intg s).1
  perform (server p) s = some (new_ied_server a p s).1
  perform (started p port) s = some (start p port s)
  perform (asked_running p) s = some (is_running a p s).1
  perform (stopped p) s = some (stop p s)
  perform (destroyed p) s = some (destroy p s)
  perform (locked p) s = some (lock_data_model p s)
  perform (unlocked p) s = some (unlock_data_model p s)
  perform (time p attr v) s = some (update_utc_time_attribute_value p attr v s)
  perform (float p attr v) s = some (update_float_attribute_value p attr v s)
  perform (int32 p attr v) s = some (update_int32_attribute_value p attr v s)
  perform (visible_string p attr v) s = some (update_visible_string_attribute_value p attr v s)

  unfoldable pub perform_all : List Operation → ServerState → Option ServerState
  unfolding perform
  perform_all [] s = some s
  perform_all (o ∷ os) s = perform o s >>= perform_all os

-- What a call adds to the buffers.
abbrev Adds : ℕ → ServerState → ServerState → Type 0
Adds n s t = (bs : List ℕ) × (t.strings.live ≡ bs ++ s.strings.live) × (length bs ≡ n)

c_string_freed-live :
    {A : Type 0} (f : ServerState → A × ServerState)
    → ((s : ServerState) → (f s).1.strings.live ≡ s.strings.live)
    → (s : ServerState) → (c_string_freed f s).1.strings.live ≡ s.strings.live
unfolding c_string_freed malloc free erase
c_string_freed-live f same s =
    let inside : ServerState = record s {
      strings = record { next = s.strings.next + 1; live = s.strings.next ∷ s.strings.live };
    } in
    rw (same inside) (ground arith)

same-Adds : (s t u : ServerState) → t.strings.live ≡ s.strings.live → some t ≡ some u → Adds 0 s u
same-Adds s t u live h =
    ([], ap (λ (r : ServerState). r.strings.live) (sym (some_eq h)) ∙ live, refl)

more-Adds :
    (p : ℕ) (s t u : ServerState)
    → t.strings.live ≡ p ∷ s.strings.live
    → some t ≡ some u
    → Adds 1 s u
more-Adds p s t u live h =
    (p ∷ [], ap (λ (r : ServerState). r.strings.live) (sym (some_eq h)) ∙ live, refl)

module _ (a : ServerApi) where
  write_at-Adds :
      (t : ModelNodeType) (p opts : ℕ) (s u : ServerState)
      → after_write (write_at t p opts s) ≡ some u
      → Adds 0 s u
  unfolding write_at
  write_at-Adds data_attribute_model_type p opts s u h = same-Adds s _ u refl h
  write_at-Adds t p opts s u h = cc

  perform-Adds : (o : Operation) (s t : ServerState) → perform a o s ≡ some t → Adds (kept o) s t
  unfolding perform set_trigger_options new_ied_model create_logical_device create_logical_node
      create_data_object_cdc_ens create_data_object_cdc_vss create_data_object_cdc_sav
      create_data_object_cdc_apc get_child create_data_set add_data_set_entry
      create_report_control_block destroy_ied_model new_ied_server start is_running stop destroy
      lock_data_model unlock_data_model update_utc_time_attribute_value update_float_attribute_value
      update_int32_attribute_value update_visible_string_attribute_value
  perform-Adds (trigger none opts) s t h = absurd (cc)
  perform-Adds (trigger (some p) opts) s t h =
      write_at-Adds (a.model_type s.requests p) p opts s t h
  perform-Adds (model name) s t h = more-Adds s.strings.next s _ t refl h
  perform-Adds (device p name) s t h = more-Adds s.strings.next s _ t refl h
  perform-Adds (node p name) s t h = more-Adds s.strings.next s _ t refl h
  perform-Adds (ens p name) s t h = more-Adds s.strings.next s _ t refl h
  perform-Adds (vss p name) s t h = more-Adds s.strings.next s _ t refl h
  perform-Adds (sav p name b) s t h = more-Adds s.strings.next s _ t refl h
  perform-Adds (apc p name c) s t h = more-Adds s.strings.next s _ t refl h
  perform-Adds (visible_string p attr v) s t h = more-Adds s.strings.next s _ t refl h
  perform-Adds (child p name) s t h =
      same-Adds s _ t (c_string_freed-live (model_node_get_child a p name) (λ u. refl) s) h
  perform-Adds (set p name) s t h =
      same-Adds s _ t (c_string_freed-live (data_set_create a name p) (λ u. refl) s) h
  perform-Adds (entry p ref) s t h =
      same-Adds s _ t
        (c_string_freed-live (data_set_entry_create a p ref (negsuc 0) none) (λ u. refl) s) h
  perform-Adds (control_block p name id b ds rev trg opt buf intg) s t h =
      let call = report_control_block_create a name p id b ds rev trg opt buf intg in
      same-Adds s _ t
        (c_string_freed-live (c_string_freed (c_string_freed call))
          (c_string_freed-live (c_string_freed call) (c_string_freed-live call (λ u. refl))) s)
        h
  perform-Adds (model_destroyed p) s t h = same-Adds s _ t refl h
  perform-Adds (server p) s t h = same-Adds s _ t refl h
  perform-Adds (started p port) s t h = same-Adds s _ t refl h
  perform-Adds (asked_running p) s t h = same-Adds s _ t refl h
  perform-Adds (stopped p) s t h = same-Adds s _ t refl h
  perform-Adds (destroyed p) s t h = same-Adds s _ t refl h
  perform-Adds (locked p) s t h = same-Adds s _ t refl h
  perform-Adds (unlocked p) s t h = same-Adds s _ t refl h
  perform-Adds (time p attr v) s t h = same-Adds s _ t refl h
  perform-Adds (float p attr v) s t h = same-Adds s _ t refl h
  perform-Adds (int32 p attr v) s t h = same-Adds s _ t refl h

  -- After any calls of the two files, in any order, none of which wrote through a nil pointer or past
  -- an object, the C buffers of before are still allocated, and in front of them there are exactly as
  -- many new ones as there were calls that do not free their C string: constructors of a model, of a
  -- logical device or node and of a data object, and updates of a visible string.
  pub perform_all-keeps :
      (os : List Operation) (s t : ServerState)
      → perform_all a os s ≡ some t
      → (bs : List ℕ) × (t.strings.live ≡ bs ++ s.strings.live) × (length bs ≡ kept_by os)
  unfolding perform_all
  perform_all-keeps [] s t h = same-Adds s s t refl h
  perform_all-keeps (o ∷ os) s t h =
      let (u, first, rest) = >>=-eq-some (perform a o s) (perform_all a os) h in
      let (bs, now, n) = perform-Adds o s u first in
      let (cs, later, m) = perform_all-keeps os u t rest in
      (
        cs ++ bs,
        later ∙ (ap (λ l. cs ++ l) now ∙ sym (append_assoc cs bs s.strings.live)),
        omega (arith, length-append cs bs, n, m),
      )
