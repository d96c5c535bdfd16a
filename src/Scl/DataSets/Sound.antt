-- ===== src/Scl/DataSets/Sound.antt =====
-- What `GetDataSet` returns.
use go_libiec.Prelude.{
  String, ◌≡◌, refl, sym, ap, ◌∙◌, ◌⊎◌, inl, inr, none, some, List, [], ◌∷◌, str_eq, eq_iff,
  Option-cases, some_eq, Bool-cases,
}
use go_libiec.Scl.Types.{DataSet, DataSetDetail, LDevice, AccessPoint, Ied, Scl}
use go_libiec.Scl.DataSets.{
  Lookup, LookupError, ok, split_slash, device_ref, set_ref, find_set, find_in_devices,
  find_in_points, find_in_ieds, detail, get_data_set, get_by_parts,
}

-- Some entry of the list has the property.
abbrev pub AnyOf {ℓ} : {A : Type ℓ} → (A → Type 0) → List A → Type 0
AnyOf P [] = ⊥
AnyOf P (x ∷ xs) = P x ⊎ AnyOf P xs

abbrev pub HasSet : String → DataSet → LDevice → Type 0
HasSet b s ld = AnyOf (λ s'. (set_ref ld s' ≡ b) × (s' ≡ s)) ld.ln0.data_sets

-- The IED has, in some access point, a device of the name `a` with the data set `s` of the name `b`.
abbrev pub Holds : String → String → DataSet → Ied → Type 0
Holds a b s ied =
    AnyOf (λ (p : AccessPoint). AnyOf (λ ld. (device_ref ied ld ≡ a) × HasSet b s ld) p.l_devices)
      ied.access_points

find_set_sound :
    (ld : LDevice) (ss : List DataSet) (b : String) {s : DataSet}
    → find_set ld ss b ≡ some s
    → AnyOf (λ s'. (set_ref ld s' ≡ b) × (s' ≡ s)) ss
unfolding find_set
find_set_sound ld [] b h = cc
find_set_sound ld (x ∷ ss) b h = elim (Bool-cases (str_eq (set_ref ld x) b)) [
  | inl e ↦ inl ((eq_iff (set_ref ld x) b).0 e, some_eq (rw e at h))
  | inr n ↦ inr (find_set_sound ld ss b (rw n at h))
]

find_in_devices_sound :
    (ied : Ied) (lds : List LDevice) (a b : String) {s : DataSet}
    → find_in_devices ied lds a b ≡ some s
    → AnyOf (λ ld. (device_ref ied ld ≡ a) × HasSet b s ld) lds
unfolding find_in_devices
find_in_devices_sound ied [] a b h = cc
find_in_devices_sound ied (ld ∷ lds) a b h = elim (Bool-cases (str_eq (device_ref ied ld) a)) [
  | inl e ↦
      inl ((eq_iff (device_ref ied ld) a).0 e, find_set_sound ld ld.ln0.data_sets b (rw e at h))
  | inr n ↦ inr (find_in_devices_sound ied lds a b (rw n at h))
]

find_in_points_sound :
    (ied : Ied) (ps : List AccessPoint) (a b : String) {s : DataSet}
    → find_in_points ied ps a b ≡ some s
    → AnyOf
        (λ (p : AccessPoint). AnyOf (λ ld. (device_ref ied ld ≡ a) × HasSet b s ld) p.l_devices)
        ps
unfolding find_in_points
find_in_points_sound ied [] a b h = cc
find_in_points_sound ied (p ∷ ps) a b h =
    elim (Option-cases (find_in_devices ied p.l_devices a b)) [
      | inl none_here ↦ inr (find_in_points_sound ied ps a b (rw (none_here, find_in_points) at h))
      | inr (t, here) ↦
          inl (find_in_devices_sound ied p.l_devices a b (here ∙ (rw (here, find_in_points) at h)))
    ]

find_in_ieds_sound :
    (ieds : List Ied) (a b : String) {name : String} {s : DataSet}
    → find_in_ieds ieds a b ≡ some (name, s)
    → AnyOf (λ (ied : Ied). (ied.name ≡ name) × Holds a b s ied) ieds
unfolding find_in_ieds
find_in_ieds_sound [] a b h = cc
find_in_ieds_sound (ied ∷ ieds) a b {name} {s} h =
    elim (Option-cases (find_in_points ied ied.access_points a b)) [
      | inl none_here ↦ inr (find_in_ieds_sound ieds a b (rw (none_here, find_in_ieds) at h))
      | inr (t, here) ↦
          let same : some (ied.name, t) ≡ some (name, s) = rw (here, find_in_ieds) at h in
          inl (
            ap (λ (p : String × DataSet). p.0) (some_eq same),
            find_in_points_sound ied ied.access_points a b
                (here ∙ ap some (ap (λ (p : String × DataSet). p.1) (some_eq same))),
          )
    ]

ok_eq : {d e : DataSetDetail} → Lookup.ok d ≡ ok e → d ≡ e
ok_eq h = cc

err_ne_ok : {x : LookupError} {d : DataSetDetail} → Lookup.err x ≡ ok d → ⊥
err_ne_ok h = cc

by_parts_sound :
    (scl : Scl) (ref : String) (parts : List String) (d : DataSetDetail)
    → get_by_parts scl ref parts ≡ ok d
    → (a : String) × (b : String) × (parts ≡ a ∷ b ∷ [])
      × AnyOf (λ (ied : Ied). (ied.name ≡ d.ied_name) × Holds a b d.data_set ied) scl.ieds
      × (d.do_types ≡ none)
      × (d.templates ≡ scl.templates)
by_parts_sound scl ref [] d h = cc
by_parts_sound scl ref (a ∷ []) d h = cc
by_parts_sound scl ref (a ∷ b ∷ []) d h = elim (Option-cases (find_in_ieds scl.ieds a b)) [
  | inl nothing ↦ absurd (err_ne_ok (rw nothing at h))
  | inr ((name, s), found) ↦
      let same : detail scl (name, s) ≡ d = ok_eq (rw found at h) in
      let whole : find_in_ieds scl.ieds a b ≡ some (d.ied_name, d.data_set) =
        found ∙ ap (λ (x : DataSetDetail). some (x.ied_name, x.data_set)) same in
      (
        a,
        b,
        refl,
        find_in_ieds_sound scl.ieds a b whole,
        sym (ap (λ (x : DataSetDetail). x.do_types) same),
        sym (ap (λ (x : DataSetDetail). x.templates) same),
      )
]
by_parts_sound scl ref (a ∷ b ∷ c ∷ r) d h = cc

-- A data set that is returned is the one that the reference names: the reference has two parts
-- between its slash, some IED of the returned name has a device whose name is the first and which has
-- that data set under the second, the cache is empty and the templates are those of the model.
pub get_data_set_sound :
    (scl : Scl) (ref : String) (d : DataSetDetail)
    → get_data_set scl ref ≡ ok d
    → (a : String) × (b : String) × (split_slash ref ≡ a ∷ b ∷ [])
      × AnyOf (λ (ied : Ied). (ied.name ≡ d.ied_name) × Holds a b d.data_set ied) scl.ieds
      × (d.do_types ≡ none)
      × (d.templates ≡ scl.templates)
unfolding get_data_set
get_data_set_sound scl ref d h = by_parts_sound scl ref (split_slash ref) d h
