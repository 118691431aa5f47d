-- ===== src/Tests/Access.antt =====
-- Tests of Access.
use arborist.Base.{
  codes, Text, ◌≡◌, refl, true, none, some, [], ◌∷◌, text_beq, any, select, first, join, Elem,
}
use arborist.Base.Exec.{Result, ok}
use arborist.Core.Strings.{
  replace_all, query_escape, trim_left_by, trim_by, trim_space, is_space, collapse_slashes,
  collapse_after, to_lower,
}
use arborist.Core.Paths.{underscore_encode, format_path_for_db, clean_resource_path}
use arborist.Engine.Request.{AuthRequest}
use arborist.Engine.Authorize.{authorize_user}
use arborist.Engine.Grants.{policy_resources}
use arborist.Engine.Resources.{resource_from_query}
use arborist.Engine.Spec.{Fits}
use arborist.Store.Schema.{Db, RoleRow, PermissionRow, UsrPolicyRow}
use arborist.Store.Rows.{insert_new, upsert, lookup, delete}
use arborist.Store.Resource.{resource_with_path}
use arborist.Ownership.{managed_target}
use arborist.Ownership.Templates.{
  resolve_ownership_target, target_of_resource, template_of_metadata, role_is_grantable,
}
use arborist.Ownership.Bindings.{role_id_by_name, ensure_user, upserted_policies, ensure_policy}
use arborist.Ownership.Bindings.Subjects.{bind_user}
use arborist.Access.{
  AccessUserRequest, AccessUserResponse, normalize_access_user_request, direct_access_policy_name,
}
use arborist.Access.Grant.{
  ensure_direct_access_policy, ensure_direct_user_binding_for_target, resolve_access_target,
  grant_user_access,
}
use arborist.Access.Grant.Holds.{grant_user_access-authorize_user}
use arborist.Access.Revoke.{
  direct_user_access_candidates, group_access_candidates_for_user, candidate_policies, roots_above,
  direct_candidate, distinct_by, delete_exact_direct_user_policy, direct_candidate_reject_reason,
  remove_candidates, revoke_at, revoke_user_access,
}
use arborist.Access.Revoke.Removed.{Revocation, revoke_user_access-rows}
use arborist.Tests.Labels.{labels, labels-IsLawful, below}
use arborist.Tests.Samples.{asks, target_a}
use arborist.Tests.Owned.{owned_db, around, none_expired}

abbrev asked : AccessUserRequest
asked = record {
  resource_path = codes "/programs/a";
  username = codes " Bob";
  role_id = codes "owner";
}

granted : Result AccessUserResponse × Db Text
unfolding grant_user_access normalize_access_user_request resolve_access_target
    resolve_ownership_target target_of_resource template_of_metadata resource_with_path
    resource_from_query managed_target role_is_grantable ensure_direct_user_binding_for_target
    ensure_direct_access_policy direct_access_policy_name ensure_policy role_id_by_name
    upserted_policies bind_user ensure_user insert_new upsert lookup first any select join text_beq
    clean_resource_path trim_space trim_by trim_left_by is_space collapse_slashes collapse_after
    format_path_for_db underscore_encode replace_all query_escape to_lower
granted = grant_user_access labels around asked none owned_db

-- The answer, whose text is long.
abbrev response_of : Result AccessUserResponse → AccessUserResponse
response_of (ok r) = r
response_of _ = record {
  resource_path = [];
  username = [];
  role_id = [];
  granted = [];
  removed = [];
  not_removed = [];
}

granted_lem :
    grant_user_access labels around asked none owned_db ≡ (ok (response_of granted.0), granted.1)
unfolding granted
granted_lem = refl

abbrev bob_updates : AuthRequest
bob_updates = record (asks (codes "/programs/a") (codes "update")) { username = codes "bob" }

bob :
    to_lower bob_updates.username
    ≡ to_lower (trim_space (normalize_access_user_request asked).username)
unfolding normalize_access_user_request to_lower trim_space trim_by trim_left_by is_space
bob = refl

at_a : bob_updates.resource ≡ (normalize_access_user_request asked).resource_path
unfolding normalize_access_user_request clean_resource_path trim_space trim_by trim_left_by is_space
    collapse_slashes collapse_after
at_a = refl

grant_user_access-authorize_user_example :
    (r : RoleRow) × Elem r granted.1.role
    × (r.name ≡ (normalize_access_user_request asked).role_id)
    × ((pm : PermissionRow)
        → Elem pm granted.1.permission
        → pm.role_id ≡ r.id
        → Fits pm.service (codes "svc")
        → Fits pm.method (codes "update")
        → authorize_user labels granted.1 5 bob_updates ≡ some true)
grant_user_access-authorize_user_example =
    grant_user_access-authorize_user labels labels-IsLawful around owned_db asked none 5
      (response_of granted.0) granted.1 bob_updates granted_lem
      (none_expired (to_lower (trim_space (normalize_access_user_request asked).username))) bob at_a
      target_a refl

abbrev unwanted : AccessUserRequest
unwanted = record {
  resource_path = codes "/programs/a";
  username = codes "Alice";
  role_id = codes "reader";
}

revoked : Result AccessUserResponse × Db Text
unfolding revoke_user_access normalize_access_user_request revoke_at remove_candidates
    direct_user_access_candidates group_access_candidates_for_user candidate_policies roots_above
    direct_candidate distinct_by delete_exact_direct_user_policy policy_resources
    direct_candidate_reject_reason delete any select join text_beq below clean_resource_path
    trim_space trim_by trim_left_by is_space collapse_slashes collapse_after format_path_for_db
    underscore_encode replace_all query_escape to_lower
revoked = revoke_user_access labels 5 unwanted owned_db

revoked_lem :
    revoke_user_access labels 5 unwanted owned_db ≡ (ok (response_of revoked.0), revoked.1)
unfolding revoked
revoked_lem = refl

abbrev reader_grant : UsrPolicyRow
reader_grant = record { usr_id = 1; policy_id = 2; expires_at = none; authz_provider = none }

-- The direct grant is gone, the one of the owner stays.
left_lem :
    revoked.1.usr_policy
    ≡ record { usr_id = 1; policy_id = 1; expires_at = none; authz_provider = none } ∷ []
unfolding revoked
left_lem = refl

revoke_user_access-rows_example :
    Revocation labels 5
      (normalize_access_user_request unwanted)
      owned_db
      (response_of revoked.0)
      revoked.1
revoke_user_access-rows_example =
    revoke_user_access-rows labels labels-IsLawful 5 unwanted (response_of revoked.0) owned_db
      revoked.1 revoked_lem

reported_lem :
    (response_of revoked.0).removed
    ≡ record {
      kind = codes "direct";
      policy_id = codes "direct.programs.a.reader";
      role_id = codes "reader";
      reason = [];
    }
      ∷ []
unfolding revoked
reported_lem = refl
