-- ===== src/Engine/Authorize.antt =====
-- internal/authz/engine/authorize.go. A query that the database refuses, or a request with no
-- resource, is `none`: the Go functions return an error.
pub mod Correct
pub mod Arrays
pub mod Anonymous
use arborist.Base.{
  ℕ, Text, Bool, true, false, ◌&&◌, Option, none, some, List, [], ◌∷◌, map, ◌==◌, nat_eq, text_eq,
  any, select, join, first, is_empty, if◌then◌else◌, codes,
}
use arborist.Core.Strings.{to_lower, has_prefix}
use arborist.Core.Paths.{format_path_for_db}
use arborist.Store.Ltree.{Ltree, descends_agg}
use arborist.Store.Schema.{Db, ResourceRow}
use arborist.Engine.Request.{AuthRequest, anonymous_group}
use arborist.Engine.Grants.{
  user_policies, group_policies, client_policies, permits, in_filter, policy_resources,
}

-- Where a request points to: a path, a tag, or nothing.
pub data Target : Type 0 where
  at_path : Text → Target
  at_tag : Text → Target
  missing : Target

-- `if strings.HasPrefix(resource, "/")` and the tests on `resource` and `tag` that follow it
unfoldable pub target_of : Text → Target
target_of resource =
    if has_prefix (codes "/") resource
    then (if is_empty (format_path_for_db resource)
        then missing
        else at_path (format_path_for_db resource))
    else if is_empty resource
    then missing
    else at_tag resource

abbrev on_path {ℓ} : {A : Type ℓ} {B : Type 0} → Option A → (A → Option B) → Option B
on_path none f = none
on_path (some p) f = f p

module _ (L : Ltree) (db : Db L.Label) (now : ℕ) where
  -- The condition that a policy of the user has to meet.
  unfoldable pub policy_grants : AuthRequest → (L.Label → Bool) → ℕ → Bool
  policy_grants request matcher policy_id =
      any (λ r. matcher r.path) (policy_resources db policy_id)
      && (permits db policy_id request.service request.method
          && in_filter db request.policies policy_id)

  -- `matcher` stands for `resourceCondition` at the path `$6`.
  unfoldable pub authorize_user_with_resource_matcher :
      AuthRequest → (L.Label → L.Label → Bool) → Option Bool
  authorize_user_with_resource_matcher request matcher =
      on_path (L.text2ltree (format_path_for_db request.resource)) λ p.
        some (
          any (policy_grants request (matcher p))
            (user_policies db now (to_lower request.username)))

  -- `array_agg(resource.path)` over the resources of the policies that pass.
  unfoldable pub allowed_paths : AuthRequest → List ℕ → List (Option L.Label)
  allowed_paths request policies =
      join
        (select
          (λ policy_id.
            permits db policy_id request.service request.method
            && in_filter db request.policies policy_id)
          policies)
        λ policy_id. map (λ r. some r.path) (policy_resources db policy_id)

  -- `coalesce((SELECT resource.path FROM resource WHERE resource.tag = ...) <@ allowed, FALSE)`
  unfoldable pub tag_descends : Text → List (Option L.Label) → Option Bool
  tag_descends wanted allowed = elim (first (λ r. r.tag == wanted) db.resource) [
    | none ↦ some false
    | some r ↦ descends_agg L r.path allowed
  ]

  unfoldable pub authorize_user : AuthRequest → Option Bool
  authorize_user request = elim (target_of request.resource) [
    | at_path p ↦
        authorize_user_with_resource_matcher request (λ wanted root. L.descends wanted root)
    | at_tag t ↦
        tag_descends t (allowed_paths request (user_policies db now (to_lower request.username)))
    | missing ↦ none
  ]

  unfoldable pub authorize_user_exact : AuthRequest → Option Bool
  authorize_user_exact request =
      if has_prefix (codes "/") request.resource
      then authorize_user_with_resource_matcher request (λ wanted root. L.path_beq root wanted)
      else none

  -- `LEFT JOIN policy_resource ... LEFT JOIN resource`: a policy with no resource gives NULL.
  abbrev or_null : List (ResourceRow L.Label) → List (Option L.Label)
  or_null [] = none ∷ []
  or_null (r ∷ rs) = map (λ q. some q.path) (r ∷ rs)

  unfoldable pub anonymous_paths : AuthRequest → List (Option L.Label)
  anonymous_paths request =
      join
        (select
          (λ policy_id.
            permits db policy_id request.service request.method
            && in_filter db request.policies policy_id)
          (group_policies db (anonymous_group ∷ [])))
        λ policy_id. or_null (policy_resources db policy_id)

  unfoldable pub authorize_anonymous : AuthRequest → Option Bool
  authorize_anonymous request = elim (target_of request.resource) [
    | at_path p ↦ on_path (L.text2ltree p) λ wanted. descends_agg L wanted (anonymous_paths request)
    | at_tag t ↦ tag_descends t (allowed_paths request (group_policies db (anonymous_group ∷ [])))
    | missing ↦ none
  ]

  -- By path, the policies of the request are not consulted.
  unfoldable pub client_paths : AuthRequest → List (Option L.Label)
  client_paths request =
      join
        (select (λ policy_id. permits db policy_id request.service request.method)
          (client_policies db request.client_id))
        λ policy_id. map (λ r. some r.path) (policy_resources db policy_id)

  unfoldable pub authorize_client : AuthRequest → Option Bool
  authorize_client request = elim (target_of request.resource) [
    | at_path p ↦ on_path (L.text2ltree p) λ wanted. descends_agg L wanted (client_paths request)
    | at_tag t ↦ tag_descends t (allowed_paths request (client_policies db request.client_id))
    | missing ↦ none
  ]
