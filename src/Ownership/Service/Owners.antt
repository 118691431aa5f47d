-- ===== src/Ownership/Service/Owners.antt =====
-- What an owner may do after AddOwner.
use arborist.Base.{Text, codes, ℕ, ◌≡◌, refl, ap, subst, true, false, Option, none, some, [], Elem}
use arborist.Base.Exec.{ok, after_ok}
use arborist.Core.Strings.{trim_space, to_lower}
use arborist.Core.Paths.{format_path_for_db}
use arborist.Engine.Request.{AuthRequest}
use arborist.Engine.Authorize.{authorize_user, target_of, at_path}
use arborist.Engine.Resources.{ResourceFromQuery}
use arborist.Engine.Spec.{UserHolds, Fits}
use arborist.Epoch.{Session}
use arborist.Store.Ltree.{Ltree, IsLawful}
use arborist.Store.Schema.{Db, RoleRow, PermissionRow}
use arborist.Store.Resource.{resource_with_path}
use arborist.Ownership.{Outside, OwnershipTarget, TargetKind, managed_resource, child_container}
use arborist.Ownership.Templates.{resolve_ownership_target}
use arborist.Ownership.Templates.Resolved.{resolve_ownership_target-StandsAt}
use arborist.Ownership.Bindings.Subjects.{
  ensure_generated_user_binding, attach_generated_policy_to_child_container, attach_if_found,
  ensure_owner_binding_for_target,
}
use arborist.Ownership.Bindings.Grants.{
  Gives, KeepsLinks, KeepsLinks-refl, KeepsLinks-trans, Gives-KeepsLinks, NoneExpired,
}
use arborist.Ownership.Bindings.Authorized.{StandsAt, StandsAt-KeepsLinks, Gives-authorize_user}
use arborist.Ownership.Service.{add_owner_body}
use arborist.Ownership.Bindings.Held.{generated_binding, attach_policy_to_resource-KeepsLinks}

module _ (L : Ltree) where
  -- The container of the target gets the policy too, if there is one.
  container-KeepsLinks :
      (target : OwnershipTarget) (kind role_id : Text) (now : ℕ) (name : Text) (i : ℕ)
      (db db' : Db L.Label)
      → attach_generated_policy_to_child_container L target kind role_id db ≡ (ok tt, db')
      → UserHolds db now name i
      → UserHolds db' now name i × KeepsLinks db db'
  unfolding attach_generated_policy_to_child_container
  container-KeepsLinks target kind role_id now name i db db' h held =
      by_kind target.kind refl target.template.child_container_name refl
    where
      unchanged : db ≡ db' → UserHolds db' now name i × KeepsLinks db db'
      unchanged z =
          (subst (λ d. UserHolds d now name i) z held, subst (KeepsLinks db) z (KeepsLinks-refl db))

      if_found :
          (policy_name : Text) (o : Option (ResourceFromQuery L.Label))
          → attach_if_found L policy_name o db ≡ (ok tt, db')
          → UserHolds db' now name i × KeepsLinks db db'
      if_found policy_name none e = unchanged (ap (λ r. r.1) e)
      if_found policy_name (some r) e =
          attach_policy_to_resource-KeepsLinks policy_name r.row.id now name i db db' e held

      by_kind :
          (k : TargetKind)
          → target.kind ≡ k
          → (o : Option Text) → target.template.child_container_name ≡ o
          → UserHolds db' now name i × KeepsLinks db db'
      by_kind k e none e' =
          unchanged (ap (λ r. r.1) (rw (e, e', attach_generated_policy_to_child_container) at h))
      by_kind child_container e (some c) e' =
          unchanged (ap (λ r. r.1) (rw (e, e', attach_generated_policy_to_child_container) at h))
      by_kind managed_resource e (some c) e' =
          if_found _ (resource_with_path L db _)
            (rw (e, e', attach_generated_policy_to_child_container) at h)

  -- An owner of a target holds a policy that gives the role of its template on its resource.
  owner_binding-Gives :
      (target : OwnershipTarget) (username created_by : Text) (now : ℕ) (db db' : Db L.Label)
      → ensure_owner_binding_for_target L target username created_by db ≡ (ok tt, db')
      → NoneExpired db now (to_lower (trim_space username))
      → (i : ℕ) × UserHolds db' now (to_lower (trim_space username)) i
        × Gives db' i target.resource_id target.template.owner_role
        × KeepsLinks db db'
  unfolding ensure_owner_binding_for_target
  owner_binding-Gives target username created_by now db db' h live =
      let (_, db1, h1, h2) =
        after_ok
          (ensure_generated_user_binding target username target.template.owner_role (codes "owner")
            false created_by db)
          _ db' h in
      let (i, held, g, k) =
        generated_binding target username target.template.owner_role (codes "owner") false
          created_by now db db1 h1 live in
      let (held', k') =
        container-KeepsLinks target (codes "owner") target.template.owner_role now
          (to_lower (trim_space username)) i db1 db' h2 held in
      (
        i,
        held',
        Gives-KeepsLinks db1 db' i target.resource_id target.template.owner_role k' g,
        KeepsLinks-trans db db1 db' k k',
      )

  -- If the work of AddOwner succeeds and no grant of the new owner has expired, the resource has an
  -- ownership target, and the new owner is authorized at the resource for each action that a
  -- permission of the owner role of its template fits.
  pub add_owner_body-authorize_user :
      IsLawful L
      → (outside : Outside L) (caller path username : Text) (tx now : ℕ)
        (s s' : Session (Db L.Label)) (request : AuthRequest)
      → add_owner_body L outside caller path username tx s ≡ (ok tt, s')
      → NoneExpired s.db now (to_lower (trim_space username))
      → to_lower request.username ≡ to_lower (trim_space username)
      → request.resource ≡ path
      → target_of request.resource ≡ at_path (format_path_for_db request.resource)
      → request.policies ≡ []
      → (target : OwnershipTarget) × (resolve_ownership_target L outside s.db path ≡ ok target)
        × (r : RoleRow) × Elem r s'.db.role
        × (r.name ≡ target.template.owner_role)
        × ((pm : PermissionRow)
            → Elem pm s'.db.permission
            → pm.role_id ≡ r.id
            → Fits pm.service request.service
            → Fits pm.method request.method
            → authorize_user L s'.db now request ≡ some true)
  unfolding add_owner_body
  add_owner_body-authorize_user laws outside caller path username tx now s s' request h live user at
        t free =
      let (_, s1, h1, h2) = after_ok _ _ s' h in
      let z = ap (λ r. r.1.db) h2 in
      let (target, db1, h3, h4) =
        after_ok (resolve_ownership_target L outside s.db path, s.db) _ s1.db
          (ap (λ r. (r.0, r.1.db)) h1) in
      let z' = ap (λ r. r.1) h3 in
      let (i, held, g, k) =
        owner_binding-Gives target username caller now db1 s1.db h4
          (subst (λ d. NoneExpired d now (to_lower (trim_space username))) z' live) in
      let found = ap (λ r. r.0) h3 in
      let row = StandsAt-KeepsLinks L db1 s1.db path target.resource_id k (
        subst (λ d. StandsAt L d path target.resource_id) z'
          (resolve_ownership_target-StandsAt L outside laws s.db path target found)) in
      let granted =
        Gives-authorize_user L laws s'.db now request i target.resource_id
          target.template.owner_role
          (rw user (subst (λ d. UserHolds d now (to_lower (trim_space username)) i) z held))
          (subst (λ d. Gives d i target.resource_id target.template.owner_role) z g)
          (rw at (subst (λ d. StandsAt L d path target.resource_id) z row)) t free in
      (target, found, granted.0, granted.1, granted.2, granted.3)
