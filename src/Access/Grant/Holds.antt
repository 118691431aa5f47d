-- ===== src/Access/Grant/Holds.antt =====
-- What a user may do after GrantUserAccess.
use arborist.Base.{
  Text, ℕ, ◌≡◌, refl, ◌∙◌, ap, subst, inl, inr, true, not, Option, some, [], Elem, Option-cases,
  is_empty, arith,
}
use arborist.Base.Exec.{Result, ok, err, after_ok, ok_injective, guard_ok}
use arborist.Core.Strings.{trim_space, to_lower}
use arborist.Core.Paths.{format_path_for_db}
use arborist.Engine.Request.{AuthRequest}
use arborist.Engine.Authorize.{authorize_user, target_of, at_path}
use arborist.Engine.Spec.{UserHolds, Fits}
use arborist.Store.Ltree.{Ltree, IsLawful}
use arborist.Store.Schema.{Db, RoleRow, PermissionRow}
use arborist.Store.Resource.{resource_with_path}
use arborist.Ownership.{Outside, OwnershipTarget, managed_target, parent_resource_path}
use arborist.Ownership.Templates.{role_is_grantable, resolve_ownership_target, template_for_parent}
use arborist.Ownership.Templates.Resolved.{resolve_ownership_target-StandsAt}
use arborist.Ownership.Bindings.{ensure_user, ensure_policy}
use arborist.Ownership.Bindings.Grants.{
  Gives, KeepsLinks, KeepsLinks-trans, Gives-KeepsLinks, ensure_policy-Gives, bind_user-UserHolds,
  NoneExpired, ensure_user-KeepsLinks,
}
use arborist.Ownership.Bindings.Authorized.{
  to_lower_twice, StandsAt, resource_with_path-StandsAt, StandsAt-KeepsLinks, Gives-authorize_user,
}
use arborist.Access.{
  AccessUserRequest, AccessUserResponse, normalize_access_user_request, is_incomplete,
}
use arborist.Access.Grant.{
  ensure_direct_access_policy, ensure_direct_user_binding_for_target, access_target_by_parent,
  resolve_access_target, grant_user_access,
}

module _ {P : Type 0} where
  -- A bound user holds a policy that gives the role on the resource of the target.
  direct_binding :
      (target : OwnershipTarget) (username role_id : Text) (provider : Option Text) (now : ℕ)
      (db db' : Db P)
      → ensure_direct_user_binding_for_target target username role_id provider db ≡ (ok tt, db')
      → NoneExpired db now (to_lower (trim_space username))
      → (i : ℕ) × UserHolds db' now (to_lower (trim_space username)) i
        × Gives db' i target.resource_id role_id
        × KeepsLinks db db'
  unfolding ensure_direct_user_binding_for_target ensure_direct_access_policy ensure_user
  direct_binding target username role_id provider now db db' h live =
      let name = to_lower (trim_space username) in
      let (_, h0) = guard_ok (is_empty name) 400 db _ db' h in
      let (policy, db1, h1, h2) =
        after_ok (ensure_direct_access_policy target role_id (ensure_user name db)) _ db' h0 in
      let (i, db2, h3, h4) = after_ok (ensure_policy _ _ _ _ _) _ db1 h1 in
      let (same, z) = ok_injective _ policy db2 db1 h4 in
      let (g, k, u, up) = ensure_policy-Gives _ _ _ role_id (ensure_user name db) db2 i h3 in
      let (held, k') =
        bind_user-UserHolds now name policy.1 provider db1 db' h2
          λ row m s. live row (rw (← z, up) at m) (rw (← z, u) at s) in
      (
        policy.1,
        rw (to_lower_twice (trim_space username)) at held,
        Gives-KeepsLinks db1 db' policy.1 target.resource_id role_id k' (rw (← z, ← same) g),
        KeepsLinks-trans db db1 db'
            (rw (← z) (KeepsLinks-trans db _ db2 (ensure_user-KeepsLinks name db) k)) k',
      )

module _ (L : Ltree) (laws : IsLawful L) where
  module _ (outside : Outside L) (db : Db L.Label) where
    by_parent-StandsAt :
        (c : ℕ) (path : Text) (target : OwnershipTarget)
        → access_target_by_parent L outside c path db ≡ ok target
        → StandsAt L db path target.resource_id
    unfolding access_target_by_parent managed_target
    by_parent-StandsAt c path target h = elim (Option-cases (resource_with_path L db path)) [
      | inl e ↦ absurd (cc (rw (e, access_target_by_parent) at h))
      | inr (r, e) ↦ elim (Option-cases (parent_resource_path path)) [
        | inl k ↦ absurd (cc (rw (e, access_target_by_parent, k) at h))
        | inr (parent, k) ↦ found r e parent k (template_for_parent L outside db parent []) refl
      ]
    ]
      where
        found :
            (r : _)
            → resource_with_path L db path ≡ some r
            → (parent : Text) → parent_resource_path path ≡ some parent
            → (o : Result _) → template_for_parent L outside db parent [] ≡ o
            → StandsAt L db path target.resource_id
        found r e parent k (err d) q = absurd (cc (rw (e, access_target_by_parent, k, q) at h))
        found r e parent k (ok t) q =
            subst (StandsAt L db path)
              (ap (λ x. id_of x) (rw (e, access_target_by_parent, k, q) at h))
              (resource_with_path-StandsAt L laws db path r e)
          where
            id_of : Result OwnershipTarget → ℕ
            id_of (ok t) = t.resource_id
            id_of (err c) = 0

    resolve_access_target-StandsAt :
        (path : Text) (target : OwnershipTarget)
        → resolve_access_target L outside path db ≡ ok target
        → StandsAt L db path target.resource_id
    unfolding resolve_access_target
    resolve_access_target-StandsAt path target h =
        found (resolve_ownership_target L outside db path) refl
      where
        found :
            (o : Result OwnershipTarget)
            → resolve_ownership_target L outside db path ≡ o
            → StandsAt L db path target.resource_id
        found (ok t) e =
            resolve_ownership_target-StandsAt L outside laws db path target
              (e ∙ (rw (e, resolve_access_target) at h))
        found (err c) e = by_parent-StandsAt c path target (rw (e, resolve_access_target) at h)

    -- What a successful grant has done: it found a target whose template allows the role, and the user
    -- holds a policy that gives the role on the resource of the target.
    grant_user_access-Gives :
        (given : AccessUserRequest) (provider : Option Text) (now : ℕ)
        (response : AccessUserResponse) (db' : Db L.Label)
        → grant_user_access L outside given provider db ≡ (ok response, db')
        → NoneExpired db now (to_lower (trim_space (normalize_access_user_request given).username))
        → (target : OwnershipTarget) × (role_is_grantable target.template
              (normalize_access_user_request given).role_id
            ≡ true)
          × StandsAt L db' (normalize_access_user_request given).resource_path target.resource_id
          × (i : ℕ) × UserHolds db' now
              (to_lower (trim_space (normalize_access_user_request given).username))
              i
          × Gives db' i target.resource_id (normalize_access_user_request given).role_id
    unfolding grant_user_access
    grant_user_access-Gives given provider now response db' h live =
        let request = normalize_access_user_request given in
        let (_, h0) = guard_ok (is_incomplete request) 400 db _ db' h in
        let (target, db1, h1, h2) =
          after_ok (resolve_access_target L outside request.resource_path db, db) _ db' h0 in
        let (g, h2') =
          guard_ok (not (role_is_grantable target.template request.role_id)) 400 db1 _ db' h2 in
        let (_, db2, h3, h4) =
          after_ok
            (ensure_direct_user_binding_for_target target request.username request.role_id provider
              db1)
            _ db' h2' in
        let z = ap (λ r. r.1) h1 in
        let z' = ap (λ r. r.1) h4 in
        let (i, held, gives, k) =
          direct_binding target request.username request.role_id provider now db1 db2 h3
            (subst (λ d. NoneExpired d now (to_lower (trim_space request.username))) z live) in
        let at = resolve_access_target-StandsAt request.resource_path target (ap (λ r. r.0) h1) in
        (
          target,
          ground (arith, g),
          subst (λ d. StandsAt L d request.resource_path target.resource_id) z'
              (StandsAt-KeepsLinks L db1 db2 request.resource_path target.resource_id k
                (subst (λ d. StandsAt L d request.resource_path target.resource_id) z at)),
          i,
          subst (λ d. UserHolds d now (to_lower (trim_space request.username)) i) z' held,
          subst (λ d. Gives d i target.resource_id request.role_id) z' gives,
        )

    -- If a grant succeeds and no grant of the user has expired, the user is authorized at the resource
    -- for each action that a permission of the role fits.
    pub grant_user_access-authorize_user :
        (given : AccessUserRequest) (provider : Option Text) (now : ℕ)
        (response : AccessUserResponse) (db' : Db L.Label) (request : AuthRequest)
        → grant_user_access L outside given provider db ≡ (ok response, db')
        → NoneExpired db now (to_lower (trim_space (normalize_access_user_request given).username))
        → to_lower request.username
          ≡ to_lower (trim_space (normalize_access_user_request given).username)
        → request.resource ≡ (normalize_access_user_request given).resource_path
        → target_of request.resource ≡ at_path (format_path_for_db request.resource)
        → request.policies ≡ []
        → (r : RoleRow) × Elem r db'.role
          × (r.name ≡ (normalize_access_user_request given).role_id)
          × ((pm : PermissionRow)
              → Elem pm db'.permission
              → pm.role_id ≡ r.id
              → Fits pm.service request.service
              → Fits pm.method request.method
              → authorize_user L db' now request ≡ some true)
    grant_user_access-authorize_user given provider now response db' request h live user path t
          free =
        let (target, _, at, i, held, gives) =
          grant_user_access-Gives given provider now response db' h live in
        Gives-authorize_user L laws db' now request i target.resource_id
          (normalize_access_user_request given).role_id (rw user held) gives (rw path at) t free
