-- ===== src/Engine/Mapping.antt =====
-- internal/authz/engine/mapping.go: all that a principal may do, as a map from paths to actions. A
-- Go map is an association list; the order in which the database gives the rows is not modelled.
pub mod Collect
pub mod Correct
pub mod Agrees
use arborist.Base.{
  ℕ, Text, codes, Bool, true, false, not, ◌&&◌, ◌||◌, List, [], ◌∷◌, ◌++◌, ◌==◌, text_eq, nat_eq,
  any, select, pick, join, if◌then◌else◌,
}
use arborist.Base.Exec.{Result, ok, err}
use arborist.Core.Strings.{to_lower}
use arborist.Core.Paths.{format_db_path}
use arborist.Store.Ltree.{Ltree}
use arborist.Store.Schema.{Db, ResourceRow, PermissionRow}
use arborist.Engine.Request.{Action, create_descendant_method, anonymous_group, logged_in_group}
use arborist.Engine.Grants.{user_policies, group_policies, client_policies, policy_resources}

pub record AuthMappingQuery : Type 0 where
  pub path : Text
  pub service : Text
  pub method : Text

abbrev pub AuthMapping : Type 0
AuthMapping = List (Text × List Action)

unfoldable pub same_row : AuthMappingQuery → AuthMappingQuery → Bool
same_row a b = a.path == b.path && (a.service == b.service && a.method == b.method)

-- `SELECT DISTINCT`
unfoldable pub distinct : List AuthMappingQuery → List AuthMappingQuery
distinct [] = []
distinct (x ∷ xs) = let rest = distinct xs in if any (same_row x) rest then rest else x ∷ rest

-- `mapping[path] = append(mapping[path], action)`
unfoldable pub add_action : AuthMapping → Text → Action → AuthMapping
add_action [] path action = (path, action ∷ []) ∷ []
add_action ((p, actions) ∷ m) path action =
    if p == path then (p, actions ++ action ∷ []) ∷ m else (p, actions) ∷ add_action m path action

-- The loop over the rows of the query.
unfoldable pub collect : AuthMapping → List AuthMappingQuery → AuthMapping
collect m [] = m
collect m (row ∷ rows) =
    collect
      (add_action m (format_db_path row.path)
        (record { service = row.service; method = row.method }))
      rows

-- `arborist`/`create-descendant` counts at the resource of the policy alone.
unfoldable pub is_create_descendant : PermissionRow → Bool
is_create_descendant pm = pm.service == codes "arborist" && pm.method == create_descendant_method

module _ (L : Ltree) (db : Db L.Label) (now : ℕ) where
  -- The condition of `INNER JOIN resource ON`.
  unfoldable pub reaches : PermissionRow → L.Label → L.Label → Bool
  reaches pm path root =
      (is_create_descendant pm && L.path_beq path root)
      || (not (is_create_descendant pm) && L.descends path root)

  -- `INNER JOIN policy_role ... INNER JOIN permission`
  unfoldable pub policy_permissions : ℕ → List PermissionRow
  policy_permissions policy_id =
      join (select (λ pr. pr.policy_id == policy_id) db.policy_role)
        λ pr. select (λ pm. pm.role_id == pr.role_id) db.permission

  unfoldable pub mapping_rows : List ℕ → List AuthMappingQuery
  mapping_rows policies = join policies λ i. join (policy_resources db i) λ root.
      join (policy_permissions i) λ pm.
        pick (λ r. reaches pm r.path root.path)
          (λ r. record { path = L.ltree2text r.path; service = pm.service; method = pm.method })
          db.resource

  unfoldable pub auth_mapping_for_user : Text → AuthMapping
  auth_mapping_for_user username =
      collect [] (distinct (mapping_rows (user_policies db now (to_lower username))))

  -- `sqlx.In` refuses an empty list.
  unfoldable pub auth_mapping_for_groups : List Text → Result AuthMapping
  auth_mapping_for_groups [] = err 500
  auth_mapping_for_groups (g ∷ groups) =
      ok (collect [] (distinct (mapping_rows (group_policies db (g ∷ groups)))))

  unfoldable pub auth_mapping_for_client : Text → AuthMapping
  auth_mapping_for_client client_id =
      collect [] (distinct (mapping_rows (client_policies db client_id)))
