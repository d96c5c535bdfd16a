-- ===== src/Scl/DataSets/Complete.antt =====
-- What `GetDataSet` of iec61850/scl_xml/scl.go finds.
use go_libiec.Prelude.{
  String, ◌≡◌, ◌≢◌, refl, sym, ap, ◌∙◌, inl, inr, false, Option, none, some, List, [], ◌∷◌, str_eq,
  eq_iff, Option-cases, Bool-cases,
}
use go_libiec.Scl.Types.{DataSet, DataSetDetail, LDevice, AccessPoint, Ied, Scl}
use go_libiec.Scl.DataSets.{
  ok, split_slash, device_ref, set_ref, find_set, find_in_devices, find_in_points, find_in_ieds,
  detail, get_data_set, found_or_not, get_by_parts,
}
use go_libiec.Scl.DataSets.Sound.{AnyOf}

abbrev pub EachOf {ℓ} : {A : Type ℓ} → (A → Type 0) → List A → Type 0
EachOf P [] = Unit
EachOf P (x ∷ xs) = P x × EachOf P xs

-- The device has a data set of the name `b`.
abbrev pub NamesSet : String → LDevice → Type 0
NamesSet b ld = AnyOf (λ s. set_ref ld s ≡ b) ld.ln0.data_sets

-- The IED has, in some access point, a device of the name `a` with a data set of the name `b`.
abbrev pub Names : String → String → Ied → Type 0
Names a b ied =
    AnyOf (λ (p : AccessPoint). AnyOf (λ ld. (device_ref ied ld ≡ a) × NamesSet b ld) p.l_devices)
      ied.access_points

-- The devices have pairwise different names.
abbrev pub DistinctDevices : Ied → List LDevice → Type 0
DistinctDevices ied [] = Unit
DistinctDevices ied (ld ∷ lds) =
    EachOf (λ other. device_ref ied other ≢ device_ref ied ld) lds × DistinctDevices ied lds

-- In every access point of every IED the devices have pairwise different names.
abbrev pub DistinctNames : Scl → Type 0
DistinctNames scl =
    EachOf
      (λ (ied : Ied).
        EachOf (λ (p : AccessPoint). DistinctDevices ied p.l_devices) ied.access_points)
      scl.ieds

abbrev Found : {A : Type 0} → Option A → Type 0
Found {A} o = (x : A) × (o ≡ some x)

differ : (a b : String) → str_eq a b ≡ false → a ≡ b → ⊥
differ a b h e = cc ((eq_iff a b).1 e, h)

none_ne_some : {A : Type 0} {x : A} → none ≡ some x → ⊥
none_ne_some h = cc

find_set_complete :
    (ld : LDevice) (ss : List DataSet) (b : String)
    → AnyOf (λ s. set_ref ld s ≡ b) ss
    → Found (find_set ld ss b)
unfolding find_set
find_set_complete ld [] b h = elim h [ ]
find_set_complete ld (s ∷ ss) b h = elim (Bool-cases (str_eq (set_ref ld s) b)) [
  | inl same ↦ (s, rw same refl)
  | inr other ↦ elim h [
    | inl here ↦ absurd (differ (set_ref ld s) b other here)
    | inr there ↦ let (x, e) = find_set_complete ld ss b there in (x, rw other e)
  ]
]

not_named :
    (ied : Ied) (ld : LDevice) (lds : List LDevice) (a b : String)
    → EachOf (λ other. device_ref ied other ≢ device_ref ied ld) lds
    → AnyOf (λ x. (device_ref ied x ≡ a) × NamesSet b x) lds
    → str_eq (device_ref ied ld) a ≡ false
not_named ied ld [] a b d h = elim h [ ]
not_named ied ld (x ∷ lds) a b d (inl here) = elim (Bool-cases (str_eq (device_ref ied ld) a)) [
  | inl same ↦ absurd (d.0 (here.0 ∙ sym ((eq_iff (device_ref ied ld) a).0 same)))
  | inr other ↦ other
]
not_named ied ld (x ∷ lds) a b d (inr there) = not_named ied ld lds a b d.1 there

find_in_devices_complete :
    (ied : Ied) (lds : List LDevice) (a b : String)
    → DistinctDevices ied lds
    → AnyOf (λ ld. (device_ref ied ld ≡ a) × NamesSet b ld) lds
    → Found (find_in_devices ied lds a b)
unfolding find_in_devices
find_in_devices_complete ied [] a b d h = elim h [ ]
find_in_devices_complete ied (ld ∷ lds) a b d (inl here) =
    rw ((eq_iff (device_ref ied ld) a).1 here.0) (find_set_complete ld ld.ln0.data_sets b here.1)
find_in_devices_complete ied (ld ∷ lds) a b d (inr there) =
    rw (not_named ied ld lds a b d.0 there) (find_in_devices_complete ied lds a b d.1 there)

find_in_points_complete :
    (ied : Ied) (ps : List AccessPoint) (a b : String)
    → EachOf (λ (p : AccessPoint). DistinctDevices ied p.l_devices) ps
    → AnyOf
        (λ (p : AccessPoint). AnyOf (λ ld. (device_ref ied ld ≡ a) × NamesSet b ld) p.l_devices)
        ps
    → Found (find_in_points ied ps a b)
unfolding find_in_points
find_in_points_complete ied [] a b d h = elim h [ ]
find_in_points_complete ied (p ∷ ps) a b d h =
    elim (Option-cases (find_in_devices ied p.l_devices a b)) [
      | inr (s, here) ↦ (s, rw (here, find_in_points) refl)
      | inl nothing ↦ elim h [
        | inl here ↦
            let (s, e) = find_in_devices_complete ied p.l_devices a b d.0 here in
            absurd (none_ne_some (sym nothing ∙ e))
        | inr there ↦
            let (s, e) = find_in_points_complete ied ps a b d.1 there in
            (s, rw (nothing, find_in_points) e)
      ]
    ]

find_in_ieds_complete :
    (ieds : List Ied) (a b : String)
    → EachOf
        (λ (ied : Ied).
          EachOf (λ (p : AccessPoint). DistinctDevices ied p.l_devices) ied.access_points)
        ieds
    → AnyOf (Names a b) ieds
    → Found (find_in_ieds ieds a b)
unfolding find_in_ieds
find_in_ieds_complete [] a b d h = elim h [ ]
find_in_ieds_complete (ied ∷ ieds) a b d h =
    elim (Option-cases (find_in_points ied ied.access_points a b)) [
      | inr (s, here) ↦ ((ied.name, s), rw (here, find_in_ieds) refl)
      | inl nothing ↦ elim h [
        | inl here ↦
            let (s, e) = find_in_points_complete ied ied.access_points a b d.0 here in
            absurd (none_ne_some (sym nothing ∙ e))
        | inr there ↦
            let (s, e) = find_in_ieds_complete ieds a b d.1 there in
            (s, rw (nothing, find_in_ieds) e)
      ]
    ]

-- Where the devices of every access point have different names, a data set that the model has is
-- found: for a reference of two parts, some IED with a device of the first name that has a data set of
-- the second name, the result is a data set and no error.
pub get_data_set_complete :
    (scl : Scl) (ref a b : String)
    → DistinctNames scl
    → split_slash ref ≡ a ∷ b ∷ []
    → AnyOf (Names a b) scl.ieds
    → (d : DataSetDetail) × (get_data_set scl ref ≡ ok d)
unfolding get_data_set
get_data_set_complete scl ref a b d parts h =
    let (found, e) = find_in_ieds_complete scl.ieds a b d h in
    (detail scl found, ap (get_by_parts scl ref) parts ∙ ap (found_or_not scl ref) e)
