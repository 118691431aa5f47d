-- ===== src/Store/Resource/Created.antt =====
-- What creating a tree of resources leaves in the table.
use mathlib.Core.Option.{some-injective}
use arborist.Base.{
  ◌+◌, subst, Text, codes, ◌≡◌, ◌⊎◌, refl, sym, ◌∙◌, ap, inl, inr, Option, some, List, [], ◌∷◌,
  ◌++◌, Elem, here, there, Elem-append_left, Elem-append_right, Elem-append_cases, Option-cases,
  nat_eq, text_eq,
}
use arborist.Base.Exec.{ok, after_ok, or_fail_ok}
use arborist.Core.Paths.{format_path_for_db}
use arborist.Store.Ltree.{Ltree, IsLawful}
use arborist.Store.Schema.{Db, ResourceRow}
use arborist.Store.Rows.{insert}
use arborist.Store.Rows.Inserted.{insert-Elem}
use arborist.Store.Resource.Extends.{Extends, Extends-refl, Extends-trans, insert-Extends, only}
use arborist.Store.Resource.{
  ResourceIn, resource_in, Subresources, end, item, filled_path, insert_resource, create_at,
  create_all, create_recursively,
}

-- The paths and descriptions that a tree of resources names, parents first: a subresource that gives
-- no path lies at its parent's path, a slash and its name.
unfoldable mutual
  pub listed_all : Text → Subresources → List (Text × Option Text)
  listed_all parent end = []
  listed_all parent (item r rest) = listed_child parent r ++ listed_all parent rest

  pub listed_child : Text → ResourceIn → List (Text × Option Text)
  listed_child parent (resource_in name [] description subresources) =
      (parent ++ codes "/" ++ name, description)
      ∷ listed_all (parent ++ codes "/" ++ name) subresources
  listed_child parent (resource_in name (c ∷ given) description subresources) =
      (c ∷ given, description) ∷ listed_all (c ∷ given) subresources

-- The root of a tree gives its path.
unfoldable pub listed : ResourceIn → List (Text × Option Text)
listed (resource_in name path description subresources) =
    (path, description) ∷ listed_all path subresources

abbrev listed_at : Text → ResourceIn → List (Text × Option Text)
listed_at path (resource_in name given description subresources) =
    (path, description) ∷ listed_all path subresources

listed_child-filled_path :
    (parent : Text) (r : ResourceIn) → listed_child parent r ≡ listed_at (filled_path parent r) r
unfolding listed_all
listed_child-filled_path parent (resource_in name [] description subresources) = refl
listed_child-filled_path parent (resource_in name (c ∷ given) description subresources) = refl

module _ (L : Ltree) where
  -- The row of a path with this description; the trigger names it by the last label.
  pub record Stores (x : Text × Option Text) (r : ResourceRow L.Label) : Type 0 where
    pub path_is : L.text2ltree (format_path_for_db x.0) ≡ some r.path
    pub description_is : r.description ≡ x.1
    pub name_is : L.last_label r.path ≡ some r.name

  -- The rows that the list names are the only ones that came to the database.
  pub record Created (xs : List (Text × Option Text)) (db db' : Db L.Label) : Type 0 where
    pub stored :
        (x : Text × Option Text)
        → Elem x xs
        → (r : ResourceRow L.Label) × Elem r db'.resource × Stores x r
    pub fresh :
        (r : ResourceRow L.Label)
        → Elem r db'.resource
        → Elem r db.resource ⊎ ((x : Text × Option Text) × Elem x xs × Stores x r)
    pub extends : Extends L db db'
    pub only_resources : db' ≡ record db { resource = db'.resource; serial = db'.serial }

  Created-nil : (db : Db L.Label) → Created [] db db
  Created-nil db = record {
    stored = λ x m. elim m [ ];
    fresh = λ r m. inl m;
    extends = Extends-refl L db;
    only_resources = refl;
  }

  Created-append :
      (xs ys : List (Text × Option Text)) (a b c : Db L.Label)
      → Created xs a b
      → Created ys b c
      → Created (xs ++ ys) a c
  Created-append xs ys a b c h k = record {
    stored = λ x m. elim (Elem-append_cases x xs ys m) [
      | inl l ↦ let (r, n, s) = h.stored x l in (r, k.extends.kept r n, s)
      | inr l ↦ k.stored x l
    ];
    fresh = λ r m. elim (k.fresh r m) [
      | inl n ↦ elim (h.fresh r n) [
        | inl o ↦ inl o
        | inr (x, o, s) ↦ inr (x, Elem-append_left x xs ys o, s)
      ]
      | inr (x, n, s) ↦ inr (x, Elem-append_right x xs ys n, s)
    ];
    extends = Extends-trans L a b c h.extends k.extends;
    only_resources =
        subst (λ d. c ≡ record d { resource = c.resource; serial = c.serial }) h.only_resources
          k.only_resources;
  }

  module _ (laws : IsLawful L) (new_tag : List (ResourceRow L.Label) → Text) where
    single : {y x : Text × Option Text} → Elem y (x ∷ []) → y ≡ x
    single (here e) = e
    single (there n) = elim n [ ]

    -- The row that an INSERT puts in.
    one_row :
        (path : Text) (description : Option Text) (db db' : Db L.Label) (row : ResourceRow L.Label)
        (rows : List (ResourceRow L.Label))
        → insert (λ r. L.path_beq r.path row.path) row db.resource ≡ some rows
        → record db { resource = rows; serial = db.serial + 1 } ≡ db'
        → Stores (path, description) row
        → Created ((path, description) ∷ []) db db'
    one_row path description db db' row rows k z s =
        let (m, x) = insert-Extends L laws db db' row rows k (ap (λ d. d.resource) (sym z)) in
        record {
          stored = λ y n. (row, m, rw (single n) s);
          fresh = λ r n.
              elim (Elem-append_cases r db.resource _ (
                subst (Elem r) (ap (λ d. d.resource) (sym z) ∙ insert-Elem _ row db.resource rows k)
                  n)) [ inl o ↦ inl o | inr o ↦ inr (_, here refl, rw (only L laws r row o) s) ];
          extends = x;
          only_resources = rw (← z) refl;
        }

    insert_resource-Created :
        (path : Text) (description : Option Text) (db db' : Db L.Label)
        → insert_resource L new_tag (format_path_for_db path) description db ≡ some db'
        → Created ((path, description) ∷ []) db db'
    unfolding insert_resource
    insert_resource-Created path description db db' h =
        elim (Option-cases (L.text2ltree (format_path_for_db path))) [
          | inl e ↦ absurd (cc (rw (e, insert_resource) at h))
          | inr (p, e) ↦ elim (Option-cases (L.last_label p)) [
            | inl e' ↦ absurd (cc (rw (e, insert_resource, e') at h))
            | inr (name, e') ↦
                let row : ResourceRow L.Label = record {
                  id = db.serial;
                  tag = new_tag db.resource;
                  name = name;
                  description = description;
                  path = p;
                } in
                elim (Option-cases (insert (λ r. L.path_beq r.path p) row db.resource)) [
                  | inl k ↦ absurd (cc (rw (e, insert_resource, e', k) at h))
                  | inr (rows, k) ↦
                      let z = some-injective _ _ (rw (e, insert_resource, e', k) at h) in
                      one_row path description db db' row rows k z
                        (record { path_is = e; description_is = refl; name_is = e' })
                ]
          ]
        ]

    mutual
      unfolding create_at listed_all

      create_at-Created :
          (path : Text) (r : ResourceIn) (db db' : Db L.Label)
          → create_at L new_tag path r db ≡ (ok tt, db')
          → Created (listed_at path r) db db'
      create_at-Created path (resource_in name given description subresources) db db' h =
          let (db1, e, h1) =
            or_fail_ok (insert_resource L new_tag (format_path_for_db path) description db) 409 db _
              db' h in
          Created-append ((path, description) ∷ []) (listed_all path subresources) db db1 db'
            (insert_resource-Created path description db db1 e)
            (create_all-Created path subresources db1 db' h1)

      create_all-Created :
          (parent : Text) (rs : Subresources) (db db' : Db L.Label)
          → create_all L new_tag parent rs db ≡ (ok tt, db')
          → Created (listed_all parent rs) db db'
      create_all-Created parent end db db' h = rw (← ap (λ x. x.1) h) (Created-nil db)
      create_all-Created parent (item r rest) db db' h =
          let (_, db1, h1, h2) =
            after_ok (create_at L new_tag (filled_path parent r) r db) _ db' h in
          Created-append (listed_child parent r) (listed_all parent rest) db db1 db'
            (rw (listed_child-filled_path parent r)
              (create_at-Created (filled_path parent r) r db db1 h1))
            (create_all-Created parent rest db1 db' h2)

    -- If a tree of resources can be created, every path that it names has a row afterwards, with
    -- the description given and the last label as its name, and no other rows have come; a
    -- subresource that gives no path is at its parent's path, a slash and its name. The rows of
    -- before are still there, the table has one row a label path if it had before, and no other
    -- table changes.
    pub create_recursively-listed :
        (r : ResourceIn) (db db' : Db L.Label)
        → create_recursively L new_tag r db ≡ (ok tt, db')
        → Created (listed r) db db'
    unfolding create_recursively listed
    create_recursively-listed (resource_in name path description subresources) db db' h =
        create_at-Created path (resource_in name path description subresources) db db' h
