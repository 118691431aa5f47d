-- ===== src/Store/Resource/Merged.antt =====
-- What updateInDb keeps: the table has one row a label path, and with `merge` nothing is taken away.
use mathlib.Core.Option.{some-injective}
use arborist.Base.{
  Text, codes, ◌≡◌, refl, sym, ◌∙◌, ap, subst, inl, inr, Bool, true, none, some, List, [], ◌∷◌,
  ◌++◌, Elem, here, there, Elem-append_cases, Option-cases, Bool-cases, if◌then◌else◌, nat_eq,
  text_eq, any, any_found,
}
use arborist.Base.Exec.{Result, ok, err, after_ok, or_fail_ok}
use arborist.Core.Strings.{collapse_slashes}
use arborist.Core.Paths.{format_path_for_db}
use arborist.Store.Ltree.{Ltree, IsLawful}
use arborist.Store.Schema.{Db, ResourceRow}
use arborist.Store.Rows.{insert, insert-new}
use arborist.Store.Resource.{
  ResourceIn, resource_in, Subresources, end, item, add_path, ensure_resource,
}
use arborist.Store.Resource.Extends.{HasRow, insert-Extends}
use arborist.Store.Resource.Updates.{
  Updates, HasRow-KeepsRows, Updates-trans, Updates-refl, Extends-Updates, describe-Updates,
  dropped-Updates,
}
use arborist.Store.Resource.Update.{describe, drop_children, update_at, update_all, update_resource}

-- The paths that an update names: a subresource that gives no path is at its parent's path, a slash
-- and its name, with repeated slashes made one.
unfoldable mutual
  pub named_all : Text → Subresources → List Text
  named_all parent end = []
  named_all parent (item r rest) = named_child parent r ++ named_all parent rest

  pub named_child : Text → ResourceIn → List Text
  named_child parent (resource_in [] [] description subresources) = []
  named_child parent (resource_in (c ∷ name) [] description subresources) =
      collapse_slashes (parent ++ codes "/" ++ c ∷ name)
      ∷ named_all (collapse_slashes (parent ++ codes "/" ++ c ∷ name)) subresources
  named_child parent (resource_in name (c ∷ given) description subresources) =
      collapse_slashes (c ∷ given) ∷ named_all (collapse_slashes (c ∷ given)) subresources

-- The root of an update gives its path.
unfoldable pub named : ResourceIn → List Text
named (resource_in name path description subresources) = path ∷ named_all path subresources

abbrev named_at : Text → ResourceIn → List Text
named_at path (resource_in name given description subresources) = path ∷ named_all path subresources

path_or : Result Text → Text
path_or (ok p) = p
path_or (err c) = []

named_child-add_path :
    (parent : Text) (r : ResourceIn) (path : Text)
    → add_path parent r ≡ ok path
    → named_child parent r ≡ named_at path r
unfolding named_all add_path path_or
named_child-add_path parent (resource_in [] [] description subresources) path h = absurd (cc h)
named_child-add_path parent (resource_in (c ∷ name) [] description subresources) path h =
    ap (λ q. q ∷ named_all q subresources) (ap path_or h)
named_child-add_path parent (resource_in name (c ∷ given) description subresources) path h =
    ap (λ q. q ∷ named_all q subresources) (ap path_or h)

module _ (L : Ltree) where
  module _ (laws : IsLawful L) (new_tag : List (ResourceRow L.Label) → Text) where
    ensure_resource-Updates :
        (merge : Bool) (p : L.Label) (db db' : Db L.Label)
        → ensure_resource L new_tag p db ≡ some db'
        → ((r : ResourceRow L.Label) × Elem r db'.resource × (r.path ≡ p)) × Updates L merge db db'
    unfolding ensure_resource
    ensure_resource-Updates merge p db db' h = elim (Option-cases (L.last_label p)) [
      | inl e ↦ absurd (cc (rw (e, ensure_resource) at h))
      | inr (name, e) ↦
          let row : ResourceRow L.Label = record {
            id = db.serial;
            tag = new_tag db.resource;
            name = name;
            description = none;
            path = p;
          } in
          elim (Option-cases (insert (λ r. L.path_beq r.path p) row db.resource)) [
            | inl k ↦
                let z = some-injective _ _ (rw (e, ensure_resource, k) at h) in
                let (r, m, q) = taken row k in
                rw (← z) ((r, m, (laws.path_beq_iff r.path p).0 q), Updates-refl L merge db)
            | inr (rows, k) ↦
                let z = some-injective _ _ (rw (e, ensure_resource, k) at h) in
                let (m, x) =
                  insert-Extends L laws db db' row rows k (ap (λ d. d.resource) (sym z)) in
                ((row, m, refl), Extends-Updates L merge db db' x)
          ]
    ]
      where
        taken :
            (row : ResourceRow L.Label)
            → insert (λ r. L.path_beq r.path p) row db.resource ≡ none
            → (r : ResourceRow L.Label) × Elem r db.resource × (L.path_beq r.path p ≡ true)
        taken row k = elim (Bool-cases (any (λ r. L.path_beq r.path p) db.resource)) [
          | inl e ↦ any_found _ db.resource e
          | inr e ↦ absurd (cc (sym (insert-new _ row db.resource e) ∙ k))
        ]

    begins :
        (q path : Text) (rest : List Text)
        → Elem q (path ∷ rest)
        → {A : Type 0} → (q ≡ path → A)
        → (Elem q rest → A)
        → A
    begins q path rest (here e) f g = f e
    begins q path rest (there m) f g = g m

    mutual
      unfolding update_at named_all

      update_at-named :
          (merge : Bool) (path : Text) (r : ResourceIn) (db db' : Db L.Label)
          → update_at L new_tag merge path r db ≡ (ok tt, db')
          → (merge ≡ true → (q : Text) → Elem q (named_at path r) → HasRow L db' q)
            × Updates L merge db db'
      update_at-named merge path (resource_in name given description subresources) db db' h =
          let (p, e, h1) = or_fail_ok (L.text2ltree (format_path_for_db path)) 409 db _ db' h in
          let (db1, e1, h2) = or_fail_ok (ensure_resource L new_tag p db) 409 db _ db' h1 in
          let db2 = describe L p description db1 in
          let (_, db3, e3, h3) =
            after_ok (if merge then (ok tt, db2) else drop_children L p path subresources db2) _ db'
              h2 in
          let ((row, m, q), x) = ensure_resource-Updates merge p db db1 e1 in
          let y = describe-Updates L merge p description db1 in
          let z = dropped-Updates L merge p path subresources db2 db3 e3 in
          let (all, w) = update_all-named merge path subresources db3 db' h3 in
          let later = Updates-trans L merge db1 db2 db' y (Updates-trans L merge db2 db3 db' z w) in
          (
            λ t k n.
                begins k path (named_all path subresources) n
                  (λ i.
                    rw i (
                      HasRow-KeepsRows L db1 db' path (later.rows t) (row, m, e ∙ ap some (sym q))))
                  (all t k),
            Updates-trans L merge db db1 db' x later,
          )

      update_all-named :
          (merge : Bool) (parent : Text) (rs : Subresources) (db db' : Db L.Label)
          → update_all L new_tag merge parent rs db ≡ (ok tt, db')
          → (merge ≡ true → (q : Text) → Elem q (named_all parent rs) → HasRow L db' q)
            × Updates L merge db db'
      update_all-named merge parent end db db' h =
          (λ t q m. elim m [ ], rw (← ap (λ x. x.1) h) (Updates-refl L merge db))
      update_all-named merge parent (item r rest) db db' h =
          let (path, db0, e, h0) = after_ok (add_path parent r, db) _ db' h in
          let (_, db1, h1, h2) = after_ok (update_at L new_tag merge path r db0) _ db' h0 in
          let (one, x') = update_at-named merge path r db0 db1 h1 in
          let x = subst (λ d. Updates L merge d db1) (sym (ap (λ z. z.1) e)) x' in
          let (all, y) = update_all-named merge parent rest db1 db' h2 in
          (
            λ t q m. elim (Elem-append_cases q (named_child parent r) _ m) [
              | inl k ↦
                  HasRow-KeepsRows L db1 db' q (y.rows t)
                    (one t q (rw (named_child-add_path parent r path (ap (λ z. z.0) e)) at k))
              | inr k ↦ all t q k
            ],
            Updates-trans L merge db db1 db' x y,
          )

    -- If a resource can be overwritten, the table has one row a label path afterwards if it had
    -- before. When the request merges, each row is still there, its id and path unchanged, and
    -- every path that the request names has a row; a subresource that gives no path is at its
    -- parent's path, a slash and its name, with repeated slashes made one.
    pub update_resource-named :
        (merge : Bool) (r : ResourceIn) (db db' : Db L.Label)
        → update_resource L new_tag merge r db ≡ (ok tt, db')
        → (merge ≡ true → (q : Text) → Elem q (named r) → HasRow L db' q) × Updates L merge db db'
    unfolding update_resource named
    update_resource-named merge (resource_in name path description subresources) db db' h =
        update_at-named merge path (resource_in name path description subresources) db db' h
