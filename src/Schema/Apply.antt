-- ===== src/Schema/Apply.antt =====
-- What a map holds after the leaves were stored.
use go_libiec.Prelude.{
  ℕ, zero, suc, ◌≡◌, refl, sym, ap, ◌∙◌, String, false, Option, none, some, List, [], ◌∷◌,
  get_elem?, str_eq, eq_iff, eq_refl, Dict, lookup, lookup-insert, if◌then◌else◌, arith, some_eq,
  ◌>>=◌,
}
use go_libiec.Values.{GoValue, MmsSlice, no_mms, mms, mms_slice}
use go_libiec.Schema.{
  SchemaLeaf, DataSetSchema, store_leaf, for_leaves, apply_leaf, apply_schema, value_at,
  unwrap_single, sub_value, apply_at,
}

-- No leaf has the path.
abbrev pub NoPath : String → List SchemaLeaf → Type 0
NoPath p [] = Unit
NoPath p (l ∷ ls) = (str_eq l.path p ≡ false) × NoPath p ls

-- The paths are pairwise different.
abbrev pub DistinctPaths : List SchemaLeaf → Type 0
DistinctPaths [] = Unit
DistinctPaths (l ∷ ls) = NoPath l.path ls × DistinctPaths ls

abbrev pub or_old : Option GoValue → Option GoValue → Option GoValue
or_old none old = old
or_old (some v) old = some v

str_ne_sym : (a b : String) → str_eq a b ≡ false → str_eq b a ≡ false
str_ne_sym a b h = ground (arith, eq_iff a b, eq_iff b a)

lookup-store_leaf :
    (leaf : SchemaLeaf) (o : Option GoValue) (p : String) (out : Dict GoValue)
    → lookup p (store_leaf leaf o out)
      ≡ (if str_eq leaf.path p then or_old o (lookup p out) else lookup p out)
lookup-store_leaf leaf none p out = ground arith
lookup-store_leaf leaf (some v) p out = lookup-insert leaf.path p v out

module _ (read : SchemaLeaf → Option GoValue) where
  pub for_leaves-other :
      (leaves : List SchemaLeaf) (p : String) (out : Dict GoValue)
      → NoPath p leaves
      → lookup p (for_leaves read leaves out) ≡ lookup p out
  unfolding for_leaves
  for_leaves-other [] p out h = refl
  for_leaves-other (l ∷ ls) p out h =
      for_leaves-other ls p (store_leaf l (read l) out) h.1
      ∙ lookup-store_leaf l (read l) p out
      ∙ rw h.0

  pub for_leaves-at :
      (leaves : List SchemaLeaf) (i : ℕ) (leaf : SchemaLeaf) (out : Dict GoValue)
      → DistinctPaths leaves
      → get_elem? leaves i ≡ some leaf
      → lookup leaf.path (for_leaves read leaves out) ≡ or_old (read leaf) (lookup leaf.path out)
  unfolding for_leaves
  for_leaves-at [] i leaf out d h = cc
  for_leaves-at (l ∷ ls) zero leaf out d h =
      let same : l ≡ leaf = some_eq h in
      rw (← same) (
        for_leaves-other ls l.path (store_leaf l (read l) out) d.0
        ∙ lookup-store_leaf l (read l) l.path out
        ∙ rw (eq_refl l.path))
  for_leaves-at (l ∷ ls) (suc i) leaf out d h =
      for_leaves-at ls i leaf (store_leaf l (read l) out) d.1 h
      ∙ ap (or_old (read leaf))
          (lookup-store_leaf l (read l) leaf.path out ∙ rw (differs ls i d.0 h))
    where
      differs :
          (ls : List SchemaLeaf) (i : ℕ)
          → NoPath l.path ls
          → get_elem? ls i ≡ some leaf
          → str_eq l.path leaf.path ≡ false
      differs [] i n e = cc
      differs (k ∷ ls) zero n e =
          ap (λ (x : SchemaLeaf). str_eq l.path x.path) (sym (some_eq e))
          ∙ str_ne_sym k.path l.path n.0
      differs (k ∷ ls) (suc i) n e = differs ls i n.1 e

-- The values of a slice; those of a value that is no slice are none.
abbrev pub elements : MmsSlice → List GoValue
elements no_mms = []
elements (mms t v s) = v ∷ elements s

abbrev pub elements_of : GoValue → List GoValue
elements_of (mms_slice s) = elements s
elements_of _ = []

-- A value with just one element stands for that.
abbrev pub or_only : GoValue → List GoValue → GoValue
or_only v (x ∷ []) = x
or_only v xs = v

-- What the read values have at the two indices of a leaf.
abbrev pub picked : List GoValue → ℕ → Option ℕ → Option GoValue
picked values idx none = get_elem? values idx
picked values idx (some k) = do
  top ← get_elem? values idx
  v ← get_elem? (elements_of top) k
  some (or_only v (elements_of v))

value_at-elements : (s : MmsSlice) (i : ℕ) → value_at s i ≡ get_elem? (elements s) i
value_at-elements no_mms i = refl
value_at-elements (mms t v s) zero = refl
value_at-elements (mms t v s) (suc i) = value_at-elements s i

unwrap_single-only : (v : GoValue) → unwrap_single v ≡ or_only v (elements_of v)
unwrap_single-only (mms_slice no_mms) = refl
unwrap_single-only (mms_slice (mms t v no_mms)) = refl
unwrap_single-only (mms_slice (mms t v (mms u w s))) = refl
unwrap_single-only _ = refl

sub_value-picked :
    (top : GoValue) (k : ℕ)
    → sub_value top k ≡ (do v ← get_elem? (elements_of top) k; some (or_only v (elements_of v)))
sub_value-picked (mms_slice s) k =
    ap (λ o. o >>= λ v. some (unwrap_single v)) (value_at-elements s k)
    ∙ unwrapped (get_elem? (elements s) k)
  where
    unwrapped :
        (o : Option GoValue)
        → (o >>= λ v. some (unwrap_single v)) ≡ (o >>= λ v. some (or_only v (elements_of v)))
    unwrapped none = refl
    unwrapped (some v) = ap some (unwrap_single-only v)
sub_value-picked _ k = refl

-- `picked` from its first index on.
abbrev picked_at : Option GoValue → Option ℕ → Option GoValue
picked_at o none = o
picked_at o (some k) = do
  top ← o
  v ← get_elem? (elements_of top) k
  some (or_only v (elements_of v))

apply_at-picked_at : (o : Option GoValue) (d : Option ℕ) → apply_at o d ≡ picked_at o d
apply_at-picked_at none none = refl
apply_at-picked_at none (some k) = refl
apply_at-picked_at (some top) none = refl
apply_at-picked_at (some top) (some k) = sub_value-picked top k

picked_at-picked :
    (vs : List GoValue) (i : ℕ) (d : Option ℕ) → picked_at (get_elem? vs i) d ≡ picked vs i d
picked_at-picked vs i none = refl
picked_at-picked vs i (some k) = refl

apply_leaf-picked :
    (values : MmsSlice) (leaf : SchemaLeaf)
    → apply_leaf values leaf ≡ picked (elements values) leaf.fcda_idx leaf.da_idx
unfolding apply_leaf
apply_leaf-picked values leaf =
    ap (λ o. apply_at o leaf.da_idx) (value_at-elements values leaf.fcda_idx)
    ∙ apply_at-picked_at (get_elem? (elements values) leaf.fcda_idx) leaf.da_idx
    ∙ picked_at-picked (elements values) leaf.fcda_idx leaf.da_idx

-- With pairwise different paths, after `ApplySchema` the map holds under the path of each leaf what
-- the values have at its indices, or what it held before where they have nothing there, and it is
-- unchanged at a path that no leaf has: the first index picks a value; the second, if the leaf has
-- one, picks among the elements of that value, and a value picked so that has just one element is
-- replaced by that.
pub apply_schema-lookup :
    (schema : DataSetSchema) (values : MmsSlice) (out : Dict GoValue) (i : ℕ) (leaf : SchemaLeaf)
    (p : String)
    → DistinctPaths schema.leaves
    → get_elem? schema.leaves i ≡ some leaf
    → NoPath p schema.leaves
    → (lookup leaf.path (apply_schema schema values out)
        ≡ or_old (picked (elements values) leaf.fcda_idx leaf.da_idx) (lookup leaf.path out))
      × (lookup p (apply_schema schema values out) ≡ lookup p out)
unfolding apply_schema
apply_schema-lookup schema values out i leaf p d h n = (
  for_leaves-at (apply_leaf values) schema.leaves i leaf out d h
      ∙ ap (λ o. or_old o (lookup leaf.path out)) (apply_leaf-picked values leaf),
  for_leaves-other (apply_leaf values) schema.leaves p out n,
)
