-- ===== src/Store/Resource/Extends.antt =====
-- Tables of resources to which rows are added.
use arborist.Base.{
  Text, ◌≡◌, sym, ◌∙◌, ap, inl, inr, some, List, [], ◌∷◌, any, any_of_Elem, Elem, here, there,
  Elem-append_left, Elem-append_right, Elem-append_cases, Bool-cases, false≢true, refl,
}
use arborist.Core.Paths.{format_path_for_db}
use arborist.Store.Ltree.{Ltree, IsLawful}
use arborist.Store.Schema.{Db, ResourceRow}
use arborist.Store.Rows.{insert}
use arborist.Store.Rows.Inserted.{insert-Elem}

module _ (L : Ltree) where
  -- A row for the path is in the table.
  abbrev pub HasRow : Db L.Label → Text → Type 0
  HasRow db path =
      (r : ResourceRow L.Label) × Elem r db.resource
      × (L.text2ltree (format_path_for_db path) ≡ some r.path)

  -- The table has only one row for a label path.
  abbrev pub UniquePaths : Db L.Label → Type 0
  UniquePaths db =
      (r s : ResourceRow L.Label)
      → Elem r db.resource
      → Elem s db.resource
      → r.path ≡ s.path
      → r ≡ s

  -- Nothing is taken out of the table, and one row a label path stays so.
  pub record Extends (db db' : Db L.Label) : Type 0 where
    pub kept : (r : ResourceRow L.Label) → Elem r db.resource → Elem r db'.resource
    pub unique : UniquePaths db → UniquePaths db'

  pub Extends-refl : (db : Db L.Label) → Extends db db
  Extends-refl db = record { kept = λ r m. m; unique = λ u. u }

  pub Extends-trans : (a b c : Db L.Label) → Extends a b → Extends b c → Extends a c
  Extends-trans a b c h k = record {
    kept = λ r m. k.kept r (h.kept r m);
    unique = λ u. k.unique (h.unique u);
  }

  module _ (laws : IsLawful L) where
    pub only : (r x : ResourceRow L.Label) → Elem r (x ∷ []) → r ≡ x
    only r x (here e) = e
    only r x (there m) = elim m [ ]

    -- A row whose path is new, put into the table: the table has it besides the rows of before.
    pub insert-Extends :
        (db db' : Db L.Label) (row : ResourceRow L.Label) (rows : List (ResourceRow L.Label))
        → insert (λ r. L.path_beq r.path row.path) row db.resource ≡ some rows
        → db'.resource ≡ rows
        → Elem row db'.resource × Extends db db'
    unfolding insert
    insert-Extends db db' row rows h z =
        elim (Bool-cases (any (λ r. L.path_beq r.path row.path) db.resource)) [
          | inl e ↦ absurd (cc (rw (e, insert) at h))
          | inr e ↦
              let shape = z ∙ insert-Elem _ row db.resource rows h in
              let fresh : (r : ResourceRow L.Label) → Elem r db.resource → r.path ≡ row.path → ⊥ =
                λ r m q. false≢true (
                  sym e
                  ∙ any_of_Elem _ db.resource r m ((laws.path_beq_iff r.path row.path).1 q)) in
              (
                rw shape (Elem-append_right row db.resource _ (here refl)),
                record {
                  kept = λ r m. rw shape (Elem-append_left r db.resource _ m);
                  unique = λ u r s mr ms q.
                      elim (Elem-append_cases r db.resource _ (rw shape at mr)) [
                        | inl kr ↦ elim (Elem-append_cases s db.resource _ (rw shape at ms)) [
                          | inl ks ↦ u r s kr ks q
                          | inr ks ↦ absurd (fresh r kr (q ∙ ap (λ x. x.path) (only s row ks)))
                        ]
                        | inr kr ↦ elim (Elem-append_cases s db.resource _ (rw shape at ms)) [
                          | inl ks ↦ absurd (fresh s ks (sym q ∙ ap (λ x. x.path) (only r row kr)))
                          | inr ks ↦ only r row kr ∙ sym (only s row ks)
                        ]
                      ];
                },
              )
        ]
