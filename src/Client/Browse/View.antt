-- ===== src/Client/Browse/View.antt =====
-- What the browsing of iec61850/iec61850_client.go returns for a server whose names form trees.
use go_libiec.Prelude.{
  ℕ, zero, suc, ◌+◌, ◌≤◌, max, String, concat, ◌≡◌, refl, sym, ap, Option, some, List, [], ◌∷◌, ◌⊎◌,
  inl, inr, arith,
}
use go_libiec.Client.Errors.{IedClientError}
use go_libiec.Scl.Types.{dai, Dais, no_dais, more_dais, sdi, Sdis, no_sdis, more_sdis}
use go_libiec.Client.Browse.{
  Directory, child_ref, attribute_loop, sdo_loop, on_names, browse_data_attributes_scl,
  browse_sdi_scl,
}

-- The names below a data object.
mutual
  pub data Tree : Type 0 where
    tree : String → Trees → Tree

  pub data Trees : Type 0 where
    no_trees : Trees
    more_trees : Tree → Trees → Trees

abbrev pub names : Trees → List String
names no_trees = []
names (more_trees (tree n ts) rest) = n ∷ names rest

-- How deep the trees are.
unfoldable pub depth : Trees → ℕ
depth no_trees = 0
depth (more_trees (tree n ts) rest) = max (suc (depth ts)) (depth rest)

-- The request for a reference gives the names of the trees, or an error where there are none.
abbrev pub Lists : Directory → String → Trees → Type 0
Lists d ref no_trees =
    (d.data_directory ref ≡ inr []) ⊎ ((e : IedClientError) × (d.data_directory ref ≡ inl e))
Lists d ref ts = d.data_directory ref ≡ inr (names ts)

-- The directory of every reference below `ref` lists its tree.
unfoldable pub Below : Directory → String → Trees → Type 0
Below d ref no_trees = Unit
Below d ref (more_trees (tree n ts) rest) =
    Lists d (concat (ref ∷ "." ∷ n ∷ [])) ts
    × (Below d (concat (ref ∷ "." ∷ n ∷ [])) ts × Below d ref rest)

-- The attributes and the sub-objects that the binding makes of the trees: it takes every name for
-- an attribute with a value, and below the first level for a sub-object too.
unfoldable mutual
  pub sdis_view : Trees → Sdis
  sdis_view no_trees = no_sdis
  sdis_view (more_trees (tree n ts) rest) =
      more_sdis (sdi n (dais_view ts) (sdis_view ts)) (sdis_view rest)

  pub dais_view : Trees → Dais
  dais_view no_trees = no_dais
  dais_view (more_trees (tree n ts) rest) =
      more_dais (dai n "SomeValue" (sdis_view ts)) (dais_view rest)

module _ (d : Directory) where
  -- A recursive call describes the trees of a depth below `f`.
  abbrev pub Describes : {A : Type 0} → ℕ → (String → Option A) → (Trees → A) → Type 0
  Describes f rec view =
      (ref : String) (ts : Trees)
      → Lists d ref ts
      → Below d ref ts
      → depth ts + 1 ≤ f
      → rec ref ≡ some (view ts)

  attribute_loop-eq :
      (f : ℕ) (rec : String → Option Sdis) (ref : String) (ts : Trees)
      → Describes f rec sdis_view
      → Below d ref ts
      → depth ts ≤ f
      → attribute_loop rec ref (names ts) ≡ some (dais_view ts)
  unfolding attribute_loop Below depth dais_view
  attribute_loop-eq f rec ref no_trees w b h = refl
  attribute_loop-eq f rec ref (more_trees (tree n ts) rest) w b h =
      rw
        (
          w (child_ref ref n) ts b.0 b.1.0 (omega arith),
          attribute_loop-eq f rec ref rest w b.1.1 (omega arith),
        )
        refl

  sdo_loop-eq :
      (f : ℕ) (rec_dai : String → Option Dais) (rec_sdi : String → Option Sdis) (ref : String)
      (ts : Trees)
      → Describes f rec_dai dais_view
      → Describes f rec_sdi sdis_view
      → Below d ref ts
      → depth ts ≤ f
      → sdo_loop rec_dai rec_sdi ref (names ts) ≡ some (sdis_view ts)
  unfolding sdo_loop Below depth sdis_view
  sdo_loop-eq f rec_dai rec_sdi ref no_trees w v b h = refl
  sdo_loop-eq f rec_dai rec_sdi ref (more_trees (tree n ts) rest) w v b h =
      rw
        (
          w (child_ref ref n) ts b.0 b.1.0 (omega arith),
          v (child_ref ref n) ts b.0 b.1.0 (omega arith),
          sdo_loop-eq f rec_dai rec_sdi ref rest w v b.1.1 (omega arith),
        )
        refl

  pub on_names-eq :
      {A : Type 0} (empty : A) (loop : List String → Option A) (view : Trees → A) (ref : String)
      (ts : Trees)
      → Lists d ref ts
      → view no_trees ≡ empty
      → loop (names ts) ≡ some (view ts)
      → on_names empty loop (d.data_directory ref) ≡ some (view ts)
  on_names-eq empty loop view ref no_trees (inl listed) nil e = rw listed e
  on_names-eq empty loop view ref no_trees (inr (err, failed)) nil e = rw failed (ap some (sym nil))
  on_names-eq empty loop view ref (more_trees (tree n ts) rest) listed nil e = rw listed e

  browse-Describes :
      (f : ℕ)
      → Describes f (browse_data_attributes_scl d f) dais_view
        × Describes f (browse_sdi_scl d f) sdis_view
  unfolding browse_data_attributes_scl dais_view sdis_view
  browse-Describes zero =
      ((λ ref ts l b h. absurd (omega (arith, h))), (λ ref ts l b h. absurd (omega (arith, h))))
  browse-Describes (suc f) =
      let w = browse-Describes f in
      (
        (λ ref ts l b h.
            on_names-eq no_dais (attribute_loop (browse_sdi_scl d f) ref) dais_view ref ts l refl
              (attribute_loop-eq f (browse_sdi_scl d f) ref ts w.1 b (omega (arith, h)))),
        (λ ref ts l b h.
            on_names-eq no_sdis (sdo_loop (browse_data_attributes_scl d f) (browse_sdi_scl d f) ref)
              sdis_view ref ts l refl
              (sdo_loop-eq f (browse_data_attributes_scl d f) (browse_sdi_scl d f) ref ts w.0 w.1 b
                (omega (arith, h)))),
      )

  -- Where the directories below a data object list trees of names, browsing it ends, with a depth above
  -- that of the trees, and returns the attributes that the trees describe: each name with the
  -- sub-objects below it, and each of these both with the attributes and with the sub-objects below.
  pub browse_data_attributes_scl-eq :
      (f : ℕ) (ref : String) (ts : Trees)
      → Lists d ref ts
      → Below d ref ts
      → depth ts + 1 ≤ f
      → browse_data_attributes_scl d f ref ≡ some (dais_view ts)
  browse_data_attributes_scl-eq f ref ts l b h = (browse-Describes f).0 ref ts l b h
