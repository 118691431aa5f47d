-- ===== src/Ownership/Templates/Resolved.antt =====
-- An ownership target stands for the resource that it was looked up for.
use arborist.Base.{Text, ℕ, ◌≡◌, refl, sym, subst, inl, inr, Option, none, some, [], Option-cases}
use arborist.Base.Exec.{Result, ok, err}
use arborist.Store.Ltree.{Ltree, IsLawful}
use arborist.Store.Schema.{Db, OwnershipTemplate}
use arborist.Store.Resource.{resource_with_path}
use arborist.Ownership.{
  Outside, OwnershipTarget, managed_target, child_container_target, parent_resource_path,
}
use arborist.Ownership.Templates.{
  template_for_parent, template_for_child_container, template_of_metadata, template_of_policy,
  target_by_parent, target_by_path, target_of_resource, resolve_ownership_target,
}
use arborist.Ownership.Bindings.Authorized.{StandsAt, resource_with_path-StandsAt}

-- A target that is found is for the resource with this id.
abbrev pub IsFor : ℕ → Result OwnershipTarget → Type 0
IsFor i (ok target) = target.resource_id ≡ i
IsFor i (err c) = Unit

module _ (L : Ltree) (outside : Outside L) (db : Db L.Label) (i : ℕ) (path : Text) where
  target_by_parent-IsFor : IsFor i (target_by_parent L outside db i path)
  unfolding target_by_parent managed_target
  target_by_parent-IsFor = elim (Option-cases (parent_resource_path path)) [
    | inl e ↦ rw (e, target_by_parent) tt
    | inr (parent, e) ↦ found parent e (template_for_parent L outside db parent []) refl
  ]
    where
      found :
          (parent : Text)
          → parent_resource_path path ≡ some parent
          → (o : Result OwnershipTemplate) → template_for_parent L outside db parent [] ≡ o
          → IsFor i (target_by_parent L outside db i path)
      found parent e (err c) h = rw (e, target_by_parent, h) tt
      found parent e (ok t) h = rw (e, target_by_parent, h) refl

  target_by_path-IsFor : IsFor i (target_by_path L outside db i path)
  unfolding target_by_path child_container_target
  target_by_path-IsFor = found (template_for_child_container L outside db path) refl
    where
      found :
          (o : Result (Option (OwnershipTemplate × Text)))
          → template_for_child_container L outside db path ≡ o
          → IsFor i (target_by_path L outside db i path)
      found (err c) h = rw (h, target_by_path) tt
      found (ok none) h = rw (h, target_by_path) target_by_parent-IsFor
      found (ok (some (t, anchor))) h = rw (h, target_by_path) refl

  target_of_resource-IsFor : IsFor i (target_of_resource L outside db i path)
  unfolding target_of_resource managed_target
  target_of_resource-IsFor = elim (Option-cases (template_of_metadata L outside db i)) [
    | inl e ↦ elim (Option-cases (template_of_policy L outside db i)) [
      | inl k ↦ rw (e, target_of_resource, k) target_by_path-IsFor
      | inr (t, k) ↦ rw (e, target_of_resource, k) refl
    ]
    | inr (t, e) ↦ rw (e, target_of_resource) refl
  ]

module _ (L : Ltree) (outside : Outside L) (laws : IsLawful L) (db : Db L.Label) (path : Text) where
  -- A path whose target can be resolved has a row, and the target is for it.
  pub resolve_ownership_target-StandsAt :
      (target : OwnershipTarget)
      → resolve_ownership_target L outside db path ≡ ok target
      → StandsAt L db path target.resource_id
  unfolding resolve_ownership_target
  resolve_ownership_target-StandsAt target h = elim (Option-cases (resource_with_path L db path)) [
    | inl e ↦ absurd (cc (rw (e, resolve_ownership_target) at h))
    | inr (r, e) ↦
        subst (StandsAt L db path)
          (sym (
            subst (IsFor r.row.id) (rw (e, resolve_ownership_target) at h)
              (target_of_resource-IsFor L outside db r.row.id path)))
          (resource_with_path-StandsAt L laws db path r e)
  ]
