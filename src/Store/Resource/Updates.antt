-- ===== src/Store/Resource/Updates.antt =====
-- The steps of an update that keep the rows of the table.
use arborist.Base.{
  Text, ◌≡◌, refl, sym, ◌∙◌, ap, inl, inr, Bool, true, false, Option, none, some, map, Elem,
  Elem-map, Elem-map_of, Option-cases, false≢true, if◌then◌else◌, nat_eq, text_eq,
}
use arborist.Base.Exec.{ok}
use arborist.Store.Ltree.{Ltree}
use arborist.Store.Schema.{Db, ResourceRow}
use arborist.Store.Rows.{Elem-delete}
use arborist.Store.Resource.{Subresources, paths_keep, delete_resources}
use arborist.Store.Resource.Extends.{HasRow, UniquePaths, Extends}
use arborist.Store.Resource.Update.{cast_all, describe, is_dropped, drop_children}

module _ (L : Ltree) where
  -- Each row is still there, perhaps with another description.
  abbrev pub KeepsRows : Db L.Label → Db L.Label → Type 0
  KeepsRows db db' =
      (r : ResourceRow L.Label)
      → Elem r db.resource
      → (s : ResourceRow L.Label) × Elem s db'.resource × (s.id ≡ r.id) × (s.path ≡ r.path)

  -- What a step of an update preserves.
  pub record Updates (merge : Bool) (db db' : Db L.Label) : Type 0 where
    pub unique : UniquePaths L db → UniquePaths L db'
    pub rows : merge ≡ true → KeepsRows db db'

  pub HasRow-KeepsRows :
      (db db' : Db L.Label) (path : Text) → KeepsRows db db' → HasRow L db path → HasRow L db' path
  HasRow-KeepsRows db db' path k (r, m, e) = let (s, n, _, p) = k r m in (s, n, e ∙ ap some (sym p))

  pub Updates-trans :
      (merge : Bool) (a b c : Db L.Label)
      → Updates merge a b
      → Updates merge b c
      → Updates merge a c
  Updates-trans merge a b c h k = record {
    unique = λ u. k.unique (h.unique u);
    rows = λ t r m.
        let (s, n, i, p) = h.rows t r m in
        let (s', n', i', p') = k.rows t s n in (s', n', i' ∙ i, p' ∙ p);
  }

  pub Updates-refl : (merge : Bool) (db : Db L.Label) → Updates merge db db
  Updates-refl merge db = record { unique = λ u. u; rows = λ t r m. (r, m, refl, refl) }

  pub Extends-Updates :
      (merge : Bool) (db db' : Db L.Label) → Extends L db db' → Updates merge db db'
  Extends-Updates merge db db' x = record {
    unique = x.unique;
    rows = λ t r m. (r, x.kept r m, refl, refl);
  }

  -- An UPDATE of another column.
  mapped-Updates :
      (merge : Bool) (db db' : Db L.Label) (f : ResourceRow L.Label → ResourceRow L.Label)
      → ((r : ResourceRow L.Label) → (f r).path ≡ r.path)
      → ((r : ResourceRow L.Label) → (f r).id ≡ r.id)
      → db'.resource ≡ map f db.resource
      → Updates merge db db'
  mapped-Updates merge db db' f p i z = record {
    unique = λ u r s mr ms q.
        let (r', kr, er) = Elem-map f db.resource r (rw z at mr) in
        let (s', ks, es) = Elem-map f db.resource s (rw z at ms) in
        let same =
          u r' s' kr ks (sym (p r') ∙ sym (ap (λ x. x.path) er) ∙ q ∙ ap (λ x. x.path) es ∙ p s') in
        er ∙ ap f same ∙ sym es;
    rows = λ t r m. (f r, rw z (Elem-map_of f db.resource r m), i r, p r);
  }

  pub describe-Updates :
      (merge : Bool) (p : L.Label) (description : Option Text) (db : Db L.Label)
      → Updates merge db (describe L p description db)
  unfolding describe
  describe-Updates merge p none db = Updates-refl merge db
  describe-Updates merge p (some d) db =
      mapped-Updates merge db _
        (λ r. if L.path_beq r.path p then record r { description = some d } else r)
        (λ r. column r (L.path_beq r.path p)) (λ r. number r (L.path_beq r.path p)) refl
    where
      column :
          (r : ResourceRow L.Label) (b : Bool)
          → (if b then record r { description = some d } else r).path ≡ r.path
      column r true = refl
      column r false = refl

      number :
          (r : ResourceRow L.Label) (b : Bool)
          → (if b then record r { description = some d } else r).id ≡ r.id
      number r true = refl
      number r false = refl

  delete_resources-Updates :
      (p : ResourceRow L.Label → Bool) (db : Db L.Label)
      → Updates false db (delete_resources L p db)
  unfolding delete_resources
  delete_resources-Updates p db = record {
    unique = λ u r s mr ms q.
        u r s ((Elem-delete _ db.resource r).0 mr).0 ((Elem-delete _ db.resource s).0 ms).0 q;
    rows = λ t. absurd (false≢true t);
  }

  drop_children-Updates :
      (p : L.Label) (path : Text) (subresources : Subresources) (db db' : Db L.Label)
      → drop_children L p path subresources db ≡ (ok tt, db')
      → Updates false db db'
  unfolding drop_children
  drop_children-Updates p path subresources db db' h =
      elim (Option-cases (cast_all L (paths_keep path subresources))) [
        | inl e ↦ rw (← ap (λ x. x.1) (rw (e, drop_children) at h)) (Updates-refl false db)
        | inr (keep, e) ↦
            rw (← ap (λ x. x.1) (rw (e, drop_children) at h))
              (delete_resources-Updates (is_dropped L p keep) db)
      ]

  pub dropped-Updates :
      (merge : Bool) (p : L.Label) (path : Text) (subresources : Subresources) (db db' : Db L.Label)
      → (if merge then (ok tt, db) else drop_children L p path subresources db) ≡ (ok tt, db')
      → Updates merge db db'
  dropped-Updates true p path subresources db db' h = rw (← ap (λ x. x.1) h) (Updates-refl true db)
  dropped-Updates false p path subresources db db' h =
      drop_children-Updates p path subresources db db' h
