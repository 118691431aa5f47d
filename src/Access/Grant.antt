-- ===== src/Access/Grant.antt =====
-- GrantUserAccess of internal/access/access.go
pub mod Holds
use arborist.Base.{
  ℕ, Text, codes, Bool, not, Option, none, some, List, [], ◌∷◌, ◌++◌, is_empty, if◌then◌else◌,
}
use arborist.Base.Exec.{Result, Outcome, Change, ok, err, after}
use arborist.Core.Strings.{trim_space, to_lower}
use arborist.Store.Ltree.{Ltree}
use arborist.Store.Schema.{Db}
use arborist.Store.Resource.{resource_with_path}
use arborist.Ownership.{Outside, OwnershipTarget, managed_target, parent_resource_path}
use arborist.Ownership.Templates.{role_is_grantable, resolve_ownership_target, template_for_parent}
use arborist.Ownership.Bindings.{ensure_user, ensure_policy}
use arborist.Ownership.Bindings.Subjects.{bind_user}
use arborist.Access.{
  AccessUserRequest, AccessMutationEntry, AccessUserResponse, normalize_access_user_request,
  is_incomplete, direct_access_policy_name,
}

abbrev granted_response : AccessUserRequest → AccessUserResponse
granted_response request = record {
  resource_path = request.resource_path;
  username = request.username;
  role_id = request.role_id;
  granted =
      record {
        kind = codes "direct";
        policy_id = direct_access_policy_name request.resource_path request.role_id;
        role_id = request.role_id;
        reason = [];
      }
      ∷ [];
  removed = [];
  not_removed = [];
}

module _ {P : Type 0} where
  unfoldable pub ensure_direct_access_policy :
      OwnershipTarget → Text → Db P → Result (Text × ℕ) × Db P
  ensure_direct_access_policy target role_id db =
      let name = direct_access_policy_name target.policy_path role_id in
      after
        (ensure_policy name (codes "Direct access policy for " ++ target.policy_path)
          target.resource_id role_id db)
        λ i db'. (ok (name, i), db')

  unfoldable pub ensure_direct_user_binding_for_target :
      OwnershipTarget → Text → Text → Option Text → Change (Db P)
  ensure_direct_user_binding_for_target target username role_id authz_provider db =
      let name = to_lower (trim_space username) in
      if is_empty name
      then (err 400, db)
      else after (ensure_direct_access_policy target role_id (ensure_user name db))
          λ policy db'. bind_user name policy.1 authz_provider db'

module _ (L : Ltree) (outside : Outside L) where
  -- What resolveAccessTarget tries after ResolveOwnershipTarget has answered `c`.
  unfoldable pub access_target_by_parent : ℕ → Text → Db L.Label → Result OwnershipTarget
  access_target_by_parent c resource_path db = elim (resource_with_path L db resource_path) [
    | none ↦ err 404
    | some r ↦ elim (parent_resource_path resource_path) [
      | none ↦ err c
      | some parent ↦ elim (template_for_parent L outside db parent []) [
        | err e ↦ err e
        | ok t ↦ ok (managed_target t r.row.id resource_path)
      ]
    ]
  ]

  unfoldable pub resolve_access_target : Text → Db L.Label → Result OwnershipTarget
  resolve_access_target resource_path db =
      elim (resolve_ownership_target L outside db resource_path) [
        | ok target ↦ ok target
        | err c ↦ access_target_by_parent c resource_path db
      ]

  unfoldable pub grant_user_access :
      AccessUserRequest → Option Text → Db L.Label → Result AccessUserResponse × Db L.Label
  grant_user_access given authz_provider db =
      let request = normalize_access_user_request given in
      if is_incomplete request
      then (err 400, db)
      else after (resolve_access_target request.resource_path db, db)
          λ target db.
            if not (role_is_grantable target.template request.role_id)
            then (err 400, db)
            else after
                (ensure_direct_user_binding_for_target target request.username request.role_id
                  authz_provider db)
                λ _ db'. (ok (granted_response request), db')
