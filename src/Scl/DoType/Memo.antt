-- ===== src/Scl/DoType/Memo.antt =====
-- The cache of `GetDOType` against the look-up without it.
use Prim.Native.String.{◌++◌ as join}
use text.Mathlib.TextLemmas.{append_assoc as append_text}
use go_libiec.Prelude.{
  String, ◌≡◌, refl, sym, ap, ◌∙◌, inl, inr, Option, none, some, List, [], ◌∷◌, map, Dict, lookup,
  lookup-insert, str_eq, eq_iff, arith, if◌then◌else◌, Option-cases, Bool-cases,
}
use go_libiec.Scl.Types.{DoType, no_do_type, DataTypeTemplates, DataSetDetail}
use go_libiec.Scl.DoType.{cache_key, cached, remember, search_do_type, get_do_type}

-- The arguments of a call.
pub record Query : Type 0 where
  pub prefix : String
  pub ln_class : String
  pub name : String

abbrev pub key : Query → String
key q = cache_key q.prefix q.ln_class q.name

-- The look-up in the templates; the zero value where there is nothing.
abbrev pub answer : DataTypeTemplates → Query → Option DoType
answer t q = search_do_type t q.prefix q.ln_class q.name

abbrev pub or_zero : Option DoType → DoType
or_zero none = no_do_type
or_zero (some typ) = typ

abbrev pub resolve : DataTypeTemplates → Query → DoType
resolve t q = or_zero (answer t q)

abbrev pub call : DataSetDetail → Query → DoType × DataSetDetail
call ds q = get_do_type ds q.prefix q.ln_class q.name

cached-remember :
    (c : Option (Dict DoType)) (k j : String) (t : DoType)
    → cached (remember c k t) j ≡ (if str_eq k j then some t else cached c j)
cached-remember none k j t = rw lookup-insert (ground (arith, lookup_nil))
  where
    lookup_nil : lookup {V = DoType} j [] ≡ none
    lookup_nil = unfold lookup in refl
cached-remember (some d) k j t = lookup-insert k j t d

-- Queries of `P` that share a key have the same answer in the templates.
abbrev pub Unambiguous : DataTypeTemplates → (Query → Type 0) → Type 0
Unambiguous t P = (q r : Query) → P q → P r → key q ≡ key r → answer t q ≡ answer t r

-- What the cache holds for a query of `P` is its answer in the templates.
abbrev pub Coherent : (Query → Type 0) → DataSetDetail → Type 0
Coherent P ds =
    (q : Query) (typ : DoType)
    → P q
    → cached ds.do_types (key q) ≡ some typ
    → answer ds.templates q ≡ some typ

module _ (ds : DataSetDetail) (q : Query) where
  call-hit : {typ : DoType} → cached ds.do_types (key q) ≡ some typ → call ds q ≡ (typ, ds)
  unfolding get_do_type
  call-hit h = rw (h, get_do_type)

  call-found :
      {typ : DoType}
      → cached ds.do_types (key q) ≡ none
      → answer ds.templates q ≡ some typ
      → call ds q ≡ (typ, record ds { do_types = remember ds.do_types (key q) typ })
  unfolding get_do_type
  call-found h e = rw (h, get_do_type, e)

  call-missing :
      cached ds.do_types (key q) ≡ none
      → answer ds.templates q ≡ none
      → call ds q ≡ (no_do_type, ds)
  unfolding get_do_type
  call-missing h e = rw (h, get_do_type, e)

  -- A call leaves the data set, its name and the templates as they are.
  pub call-templates : (call ds q).1.templates ≡ ds.templates
  unfolding get_do_type
  call-templates = ground arith

  pub call-ied_name : (call ds q).1.ied_name ≡ ds.ied_name
  unfolding get_do_type
  call-ied_name = ground arith

module _ (P : Query → Type 0) (ds : DataSetDetail) (one : Unambiguous ds.templates P)
    (ok : Coherent P ds) where
  pub call-eq-resolve : (q : Query) → P q → (call ds q).0 ≡ resolve ds.templates q
  call-eq-resolve q p = elim (Option-cases (cached ds.do_types (key q))) [
    | inr (typ, hit) ↦
        ap (λ (r : DoType × DataSetDetail). r.0) (call-hit ds q hit)
        ∙ sym (ap or_zero (ok q typ p hit))
    | inl miss ↦ elim (Option-cases (answer ds.templates q)) [
      | inl e ↦
          ap (λ (r : DoType × DataSetDetail). r.0) (call-missing ds q miss e) ∙ sym (ap or_zero e)
      | inr (typ, e) ↦
          ap (λ (r : DoType × DataSetDetail). r.0) (call-found ds q miss e) ∙ sym (ap or_zero e)
    ]
  ]

  remember-Coherent :
      (q : Query) (typ : DoType)
      → P q
      → answer ds.templates q ≡ some typ
      → Coherent P (record ds { do_types = remember ds.do_types (key q) typ })
  remember-Coherent q typ p e r t pr h = elim (Bool-cases (str_eq (key q) (key r))) [
    | inl same ↦
        sym (one q r p pr ((eq_iff (key q) (key r)).0 same)) ∙ e ∙ (rw (cached-remember, same) at h)
    | inr other ↦ ok r t pr (rw (cached-remember, other) at h)
  ]

  pub call-Coherent : (q : Query) → P q → Coherent P (call ds q).1
  call-Coherent q p = elim (Option-cases (cached ds.do_types (key q))) [
    | inr (typ, hit) ↦ rw (call-hit ds q hit) ok
    | inl miss ↦ elim (Option-cases (answer ds.templates q)) [
      | inl e ↦ rw (call-missing ds q miss e) ok
      | inr (typ, e) ↦ rw (call-found ds q miss e) (remember-Coherent q typ p e)
    ]
  ]

abbrev pub AllOf : (Query → Type 0) → List Query → Type 0
AllOf P [] = Unit
AllOf P (q ∷ qs) = P q × AllOf P qs

-- The answers of a sequence of calls on one data set.
pub calls : DataSetDetail → List Query → List DoType
calls ds [] = []
calls ds (q ∷ qs) = (call ds q).0 ∷ calls (call ds q).1 qs

calls-Coherent :
    (P : Query → Type 0) (ds : DataSetDetail) (qs : List Query)
    → Unambiguous ds.templates P
    → Coherent P ds
    → AllOf P qs
    → calls ds qs ≡ map (resolve ds.templates) qs
unfolding calls
calls-Coherent P ds [] one ok h = refl
calls-Coherent P ds (q ∷ qs) one ok h =
    let same = call-templates ds q in
    let rest =
      calls-Coherent P (call ds q).1 qs (rw same one) (call-Coherent P ds one ok q h.0) h.1 in
    cc (call-eq-resolve P ds one ok q h.0, rest, ap (λ t. map (resolve t) qs) same)

pub nothing_cached : (P : Query → Type 0) (ds : DataSetDetail) → ds.do_types ≡ none → Coherent P ds
nothing_cached P ds fresh q typ p h =
    let empty : cached ds.do_types (key q) ≡ none = ap (λ c. cached c (key q)) fresh in cc

-- The cache cannot be seen: on a fresh data set, any sequence of calls whose queries with equal keys
-- have equal answers in the templates returns, call by call, what the templates alone give.
pub calls-eq-resolve :
    (P : Query → Type 0) (ds : DataSetDetail) (qs : List Query)
    → ds.do_types ≡ none
    → Unambiguous ds.templates P
    → AllOf P qs
    → calls ds qs ≡ map (resolve ds.templates) qs
calls-eq-resolve P ds qs fresh one h = calls-Coherent P ds qs one (nothing_cached P ds fresh) h

-- The answers of two calls in a row on a fresh data set whose queries share a key: both times that of
-- the first.
calls-shared :
    (ds : DataSetDetail) (q r : Query) (typ : DoType)
    → ds.do_types ≡ none
    → key q ≡ key r
    → answer ds.templates q ≡ some typ
    → calls ds (q ∷ r ∷ []) ≡ typ ∷ typ ∷ []
unfolding calls
calls-shared ds q r typ fresh same found =
    let miss : cached ds.do_types (key q) ≡ none = ap (λ c. cached c (key q)) fresh in
    rw (call-found ds q miss found) (
      ap (λ (p : DoType × DataSetDetail). typ ∷ p.0 ∷ [])
        (call-hit (record ds { do_types = remember ds.do_types (key q) typ }) r
          (rw (cached-remember, (eq_iff (key q) (key r)).1 same))))

-- The key has nothing between the prefix and the class of a logical node: of two queries for objects
-- of one name whose prefixes and classes only together read the same, on a fresh data set
-- whichever comes first gives its answer to both, though the templates have an answer for each.
pub get_do_type_collision :
    (ds : DataSetDetail) (q r : Query) (typ other : DoType)
    → ds.do_types ≡ none
    → join q.prefix q.ln_class ≡ join r.prefix r.ln_class
    → q.name ≡ r.name
    → answer ds.templates q ≡ some typ
    → answer ds.templates r ≡ some other
    → (calls ds (q ∷ r ∷ []) ≡ typ ∷ typ ∷ []) × (calls ds (r ∷ q ∷ []) ≡ other ∷ other ∷ [])
get_do_type_collision ds q r typ other fresh together named found found' =
    let same : key q ≡ key r =
      sym (append_text q.prefix q.ln_class _)
      ∙ (ap (λ s. join s (join "/" (join q.name ""))) together
          ∙ (ap (λ s. join (join r.prefix r.ln_class) (join "/" (join s ""))) named
              ∙ append_text r.prefix r.ln_class _)) in
    (calls-shared ds q r typ fresh same found, calls-shared ds r q other fresh (sym same) found')
