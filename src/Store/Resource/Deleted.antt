-- ===== src/Store/Resource/Deleted.antt =====
-- What deleting a resource takes away, and that no resource loses its parent.
use arborist.Base.{
  ◌⊎◌, Text, ◌≡◌, ◌↔◌, refl, sym, ◌∙◌, inl, inr, Bool, true, false, some, ◌==◌, nat_eq, nat_beq_iff,
  any, any_found, any_of_Elem, select, Elem, Elem-select, Elem-select_of, Option-cases, Bool-cases,
  and_split, and_join, false≢true, is_empty,
}
use arborist.Base.Exec.{Result, ok, err}
use arborist.Core.Paths.{format_path_for_db}
use arborist.Store.Ltree.{Ltree, IsLawful}
use arborist.Store.Schema.{Db, ResourceRow, PolicyResourceRow}
use arborist.Store.Rows.{Elem-delete}
use arborist.Store.Protection.{resource_has_protected_ownership}
use arborist.Store.Resource.{delete_resources, deleted_with, delete_resource, resource_has_parent}

not_true : (b : Bool) → ¬ (b ≡ true) → b ≡ false
not_true true h = absurd (h refl)
not_true false h = refl

module _ (L : Ltree) where
  -- A path below the resource at `p`, which has to exist.
  abbrev pub InSubtree : Db L.Label → L.Label → L.Label → Type 0
  InSubtree db p q =
      (x : ResourceRow L.Label) × Elem x db.resource × (x.path ≡ p) × (L.descends q p ≡ true)

  -- The link belongs to a resource below `p`.
  abbrev pub LinksInto : Db L.Label → L.Label → PolicyResourceRow → Type 0
  LinksInto db p pr =
      (r : ResourceRow L.Label) × Elem r db.resource
      × InSubtree db p r.path
      × (r.id ≡ pr.resource_id)

  -- The trigger resource_has_parent would accept every row.
  abbrev pub HasParents : Db L.Label → Type 0
  HasParents db =
      (r : ResourceRow L.Label) → Elem r db.resource → resource_has_parent L db r.path ≡ true

  -- deleteInDb refuses or deletes.
  delete_resource_cases :
      (db : Db L.Label) (path : Text)
      → ((delete_resource L path db).1 ≡ db)
        ⊎ ((p : L.Label) × (delete_resource L path db
              ≡ (ok tt, delete_resources L (λ r. L.path_beq r.path p) db)))
  unfolding delete_resource
  delete_resource_cases db path = elim (Bool-cases (is_empty path)) [
    | inl e ↦ inl (rw (e, delete_resource) refl)
    | inr e ↦ protection (resource_has_protected_ownership L db path) refl e
  ]
    where
      protection :
          (o : Result Bool)
          → resource_has_protected_ownership L db path ≡ o
          → is_empty path ≡ false
          → ((delete_resource L path db).1 ≡ db)
            ⊎ ((p : L.Label) × (delete_resource L path db
                  ≡ (ok tt, delete_resources L (λ r. L.path_beq r.path p) db)))
      protection (err c) h e = inl (rw (e, delete_resource, h) refl)
      protection (ok true) h e = inl (rw (e, delete_resource, h) refl)
      protection (ok false) h e = elim (Option-cases (L.text2ltree (format_path_for_db path))) [
        | inl k ↦ inl (rw (e, delete_resource, h, k) refl)
        | inr (p, k) ↦ inr (p, rw (e, delete_resource, h, k) refl)
      ]

module _ (L : Ltree) (laws : IsLawful L) (db : Db L.Label) where
  deleted_with-InSubtree :
      (p : L.Label) (r : ResourceRow L.Label)
      → (deleted_with L (λ x. L.path_beq x.path p) db r ≡ true) ↔ InSubtree L db p r.path
  unfolding deleted_with
  deleted_with-InSubtree p r = (
    λ h.
        let (x, m, k) = any_found _ db.resource h in
        let (a, b) = and_split (L.path_beq x.path p) _ k in
        let e = (laws.path_beq_iff x.path p).0 a in (x, m, e, rw (← e) b),
    λ (x, m, e, d).
        any_of_Elem _ db.resource x m (and_join _ _ ((laws.path_beq_iff x.path p).1 e) (rw e d)),
  )

  kept_rows :
      (p : L.Label) (r : ResourceRow L.Label)
      → Elem r (delete_resources L (λ x. L.path_beq x.path p) db).resource
        ↔ (Elem r db.resource × ¬ InSubtree L db p r.path)
  unfolding delete_resources
  kept_rows p r = (
    λ m.
        let (k, f) = (Elem-delete _ db.resource r).0 m in
        (k, λ n. false≢true (sym f ∙ (deleted_with-InSubtree p r).1 n)),
    λ k.
        (Elem-delete _ db.resource r).1
          (k.0, not_true _ (λ h. k.1 ((deleted_with-InSubtree p r).0 h))),
  )

  gone-LinksInto :
      (p : L.Label) (pr : PolicyResourceRow)
      → (any
            (λ r. r.id == pr.resource_id)
            (select (deleted_with L (λ x. L.path_beq x.path p) db) db.resource)
          ≡ true)
        ↔ LinksInto L db p pr
  gone-LinksInto p pr = (
    λ h.
        let (r, m, e) = any_found _ _ h in
        let (k, d) = Elem-select _ db.resource r m in
        (r, k, (deleted_with-InSubtree p r).0 d, (nat_beq_iff _ _).0 e),
    λ (r, k, s, e).
        any_of_Elem _ _ r (Elem-select_of _ db.resource r k ((deleted_with-InSubtree p r).1 s))
          ((nat_beq_iff _ _).1 e),
  )

  kept_links :
      (p : L.Label) (pr : PolicyResourceRow)
      → Elem pr (delete_resources L (λ x. L.path_beq x.path p) db).policy_resource
        ↔ (Elem pr db.policy_resource × ¬ LinksInto L db p pr)
  unfolding delete_resources
  kept_links p pr = (
    λ m.
        let (k, f) = (Elem-delete _ db.policy_resource pr).0 m in
        (k, λ n. false≢true (sym f ∙ (gone-LinksInto p pr).1 n)),
    λ k.
        (Elem-delete _ db.policy_resource pr).1
          (k.0, not_true _ (λ h. k.1 ((gone-LinksInto p pr).0 h))),
  )

  -- If the path is not empty, the database accepts it and no protected ownership stands at it, deleting
  -- succeeds. It takes away exactly the resource at the path and those below, if there is a resource at
  -- the path, and exactly the links of policies to them.
  pub delete_resource-subtree :
      (path : Text) (p : L.Label)
      → is_empty path ≡ false
      → L.text2ltree (format_path_for_db path) ≡ some p
      → resource_has_protected_ownership L db path ≡ ok false
      → ((delete_resource L path db).0 ≡ ok tt)
        × ((r : ResourceRow L.Label)
            → Elem r (delete_resource L path db).1.resource
              ↔ (Elem r db.resource × ¬ InSubtree L db p r.path))
        × ((pr : PolicyResourceRow)
            → Elem pr (delete_resource L path db).1.policy_resource
              ↔ (Elem pr db.policy_resource × ¬ LinksInto L db p pr))
  unfolding delete_resource
  delete_resource-subtree path p e h k =
      rw (e, delete_resource, k, h) (refl, kept_rows p, kept_links p)

  -- A parent outside the deleted rows stays; one inside takes its child along.
  kept_parent :
      (p : ResourceRow L.Label → Bool) → HasParents L db → HasParents L (delete_resources L p db)
  unfolding delete_resources resource_has_parent deleted_with
  kept_parent p all r m = elim (Option-cases (L.parent r.path)) [
    | inl e ↦ rw (e, resource_has_parent) refl
    | inr (q, e) ↦
        let (k, f) = (Elem-delete _ db.resource r).0 m in
        let (x, mx, ex) = any_found _ db.resource (rw (e, resource_has_parent) at (all r k)) in
        let exq = (laws.path_beq_iff x.path q).0 ex in
        rw (e, resource_has_parent)
          (any_of_Elem _ _ x
            ((Elem-delete _ db.resource x).1 (
              mx,
              not_true _ λ h.
                  let (y, my, hy) = any_found _ db.resource h in
                  let (a, b) = and_split (p y) _ hy in
                  false≢true (
                    sym f
                    ∙ any_of_Elem _ db.resource y my (
                        and_join (p y) _ a (
                          laws.descends_trans r.path x.path y.path
                            (rw exq (laws.parent-descends r.path q e)) b))),
            ))
            ex)
  ]

  -- If every resource has a parent or is at the root, this is so after a resource is deleted or the
  -- deletion refused.
  pub delete_resource-HasParents :
      (path : Text) → HasParents L db → HasParents L (delete_resource L path db).1
  delete_resource-HasParents path all = elim (delete_resource_cases L db path) [
    | inl e ↦ rw e all
    | inr (p, e) ↦ rw e (kept_parent (λ r. L.path_beq r.path p) all)
  ]
