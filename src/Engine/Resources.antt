-- ===== src/Engine/Resources.antt =====
-- internal/authz/engine/resources.go: the resources that a principal may reach with any action.
pub mod Correct
use arborist.Base.{
  ℕ, Text, codes, Option, none, some, List, [], ◌∷◌, ◌++◌, map, ◌==◌, text_eq, nat_eq, select, pick,
  join, is_empty, if◌then◌else◌, any,
}
use arborist.Base.Exec.{Result, ok, err}
use arborist.Core.Strings.{to_lower, has_prefix}
use arborist.Store.Ltree.{Ltree}
use arborist.Store.Schema.{Db, ResourceRow}
use arborist.Engine.Request.{AuthRequest, TokenInfo, anonymous_group, logged_in_group}
use arborist.Engine.Grants.{
  direct_policies, member_policies, group_policies, client_policies, policy_resources,
}

-- strings.TrimPrefix(s, prefix), with the prefix first
unfoldable pub trim_prefix : Text → Text → Text
trim_prefix p s = if has_prefix p s then drop p s else s
  where
    drop : Text → Text → Text
    drop [] s = s
    drop (c ∷ p) [] = []
    drop (c ∷ p) (d ∷ s) = drop p s

-- The parts of a GET request that authRequestFromGET reads: the first value of each query parameter,
-- and the header, empty when absent.
pub record GetRequest : Type 0 where
  pub resource : Option Text
  pub service : Option Text
  pub method : Option Text
  pub authorization : Text

abbrev or_empty : Option Text → Text
or_empty none = []
or_empty (some t) = t

-- `decode` is the argument of that name; `none` is its error.
unfoldable pub auth_request_from_get :
    (Text → List Text → Option TokenInfo) → GetRequest → Result AuthRequest
auth_request_from_get decode r =
    if is_empty r.authorization
    then err 401
    else elim (decode
        (trim_prefix (codes "bearer ") (trim_prefix (codes "Bearer ") r.authorization))
        (codes "openid" ∷ [])) [
          | none ↦ err 401
          | some info ↦ ok (record {
            username = info.username;
            client_id = info.client_id;
            policies = info.policies;
            resource = or_empty r.resource;
            service = or_empty r.service;
            method = or_empty r.method;
          })
        ]

-- resource.ResourceFromQuery, with the paths of the children
pub record ResourceFromQuery (P : Type 0) : Type 0 where
  pub row : ResourceRow P
  pub subresources : List P

unfoldable pub resource_from_query :
    (L : Ltree) (db : Db L.Label) → ResourceRow L.Label → ResourceFromQuery L.Label
resource_from_query L db r = record {
  row = r;
  subresources = pick (λ child. L.is_child child.path r.path) (λ child. child.path) db.resource;
}

module _ (L : Ltree) (db : Db L.Label) (now : ℕ) where
  -- `SELECT DISTINCT`, by the primary key
  unfoldable pub distinct_rows : List (ResourceRow L.Label) → List (ResourceRow L.Label)
  distinct_rows [] = []
  distinct_rows (r ∷ rs) =
      let rest = distinct_rows rs in if any (λ q. q.id == r.id) rest then rest else r ∷ rest

  -- The resources of the policies and those below. The LEFT JOIN gives no NULL: a resource lies below
  -- itself.
  unfoldable pub reachable : List ℕ → List (ResourceFromQuery L.Label)
  reachable policies = map (resource_from_query L db) (
      distinct_rows (
        join policies λ i.
          join (policy_resources db i)
            λ root. select (λ r. L.descends r.path root.path) db.resource))

  unfoldable pub authorized_resources : AuthRequest → Result (List (ResourceFromQuery L.Label))
  authorized_resources request =
      if is_empty request.client_id
      then (if is_empty request.username
          then err 400
          else ok (
              reachable (
                direct_policies db now (to_lower request.username)
                ++ (member_policies db now (to_lower request.username)
                    ++ group_policies db (anonymous_group ∷ logged_in_group ∷ [])))))
      else ok (
          reachable (
            direct_policies db now (to_lower request.username)
            ++ (client_policies db request.client_id
                ++ member_policies db now (to_lower request.username))))

  -- `sqlx.In` refuses an empty list.
  unfoldable pub authorized_resources_for_groups :
      List Text → Result (List (ResourceFromQuery L.Label))
  authorized_resources_for_groups [] = err 500
  authorized_resources_for_groups (g ∷ groups) = ok (reachable (group_policies db (g ∷ groups)))
