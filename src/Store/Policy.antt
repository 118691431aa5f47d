-- ===== src/Store/Policy.antt =====
-- internal/authz/store/policy/policy.go: the operations on policies, steps of a transaction each. What
-- they wrote before an error, the caller rolls back.
pub mod Create
pub mod Protected
use arborist.Base.{
  ℕ, ◌+◌, Text, Bool, not, ◌&&◌, Option, none, some, List, [], map, ◌==◌, text_eq, nat_eq, any,
  select, is_empty, if◌then◌else◌,
}
use arborist.Base.Exec.{Outcome, Change, ok, err, after}
use arborist.Core.Paths.{format_path_for_db, format_db_path}
use arborist.Store.Ltree.{Ltree}
use arborist.Store.Schema.{Db, PolicyRow, PolicyRoleRow, PolicyResourceRow, ResourceRow, RoleRow}
use arborist.Store.Rows.{delete, insert, insert_all}
use arborist.Store.Lookup.{select_policy_id, PolicyFromQuery}
use arborist.Store.Protection.{generated_policy_is_protected}

pub record Policy : Type 0 where
  pub name : Text
  pub description : Text
  pub resource_paths : List Text
  pub role_ids : List Text

abbrev text_or_empty : Option Text → Text
text_or_empty none = []
text_or_empty (some t) = t

unfoldable pub standardize_policy : (L : Ltree) → PolicyFromQuery L.Label → Policy
standardize_policy L p = record {
  name = p.name;
  description = text_or_empty p.description;
  resource_paths = map (λ q. format_db_path (L.ltree2text q)) p.resource_paths;
  role_ids = p.role_ids;
}

-- None of the tests looks at the database.
unfoldable pub validate : Policy → Outcome
validate policy =
    if is_empty policy.name
    then err 400
    else if is_empty policy.resource_paths
    then err 400
    else if is_empty policy.role_ids
    then err 400
    else ok tt

abbrev pub same_policy_resource : PolicyResourceRow → PolicyResourceRow → Bool
same_policy_resource a b = a.policy_id == b.policy_id && a.resource_id == b.resource_id

abbrev pub same_policy_role : PolicyRoleRow → PolicyRoleRow → Bool
same_policy_role a b = a.policy_id == b.policy_id && a.role_id == b.role_id

module _ (L : Ltree) where
  -- `WHERE ltree2text(path) = ANY($1)`
  unfoldable pub resources : Policy → Db L.Label → List (ResourceRow L.Label)
  resources policy db =
      select (λ r. any (λ p. L.ltree2text r.path == format_path_for_db p) policy.resource_paths)
        db.resource

  unfoldable pub roles : Policy → Db L.Label → List RoleRow
  roles policy db = select (λ r. any (λ n. r.name == n) policy.role_ids) db.role

  -- The paths of the policy that no resource found shows.
  unfoldable pub missing_resources : Policy → Db L.Label → List Text
  missing_resources policy db =
      select (λ p. not (any (λ r. format_db_path (L.ltree2text r.path) == p) (resources policy db)))
        policy.resource_paths

  unfoldable pub missing_roles : Policy → Db L.Label → List Text
  missing_roles policy db =
      select (λ n. not (any (λ r. r.name == n) (roles policy db))) policy.role_ids

  -- `validate` has refused empty lists before this.
  unfoldable pub link_resources : Policy → ℕ → Change (Db L.Label)
  link_resources policy policy_id db =
      if not (is_empty (missing_resources policy db))
      then (err 400, db)
      else elim (insert_all same_policy_resource
          (map (λ r. record { policy_id = policy_id; resource_id = r.id }) (resources policy db))
          db.policy_resource) [
            | none ↦ (err 500, db)
            | some rows ↦ (ok tt, record db { policy_resource = rows })
          ]

  unfoldable pub link_roles : Policy → ℕ → Change (Db L.Label)
  link_roles policy policy_id db =
      if not (is_empty (missing_roles policy db))
      then (err 400, db)
      else elim (insert_all same_policy_role
          (map (λ r. record { policy_id = policy_id; role_id = r.id }) (roles policy db))
          db.policy_role) [
            | none ↦ (err 500, db)
            | some rows ↦ (ok tt, record db { policy_role = rows })
          ]

  unfoldable pub add_resources_and_roles : Policy → ℕ → Change (Db L.Label)
  add_resources_and_roles policy policy_id db =
      after (link_resources policy policy_id db) λ _ db'. link_roles policy policy_id db'

  -- createInDb after `validate`
  unfoldable pub insert_policy : Policy → Change (Db L.Label)
  insert_policy policy db =
      elim (insert (λ (p : PolicyRow). p.name == policy.name)
        (record { id = db.serial; name = policy.name; description = some policy.description })
        db.policy) [
          | none ↦ (err 409, db)
          | some rows ↦
              add_resources_and_roles policy db.serial
                (record db { policy = rows; serial = db.serial + 1 })
        ]

  unfoldable pub create_policy : Policy → Change (Db L.Label)
  create_policy policy db = after (validate policy, db) λ _ db'. insert_policy policy db'

  -- DELETE FROM policy WHERE p; ON DELETE CASCADE takes along the rows that refer to the policies.
  unfoldable pub delete_policies : (PolicyRow → Bool) → Db L.Label → Db L.Label
  delete_policies p db =
      let gone = λ (i : ℕ). any (λ q. q.id == i) (select p db.policy) in
      record db {
        policy = delete p db.policy;
        policy_role = delete (λ pr. gone pr.policy_id) db.policy_role;
        policy_resource = delete (λ pr. gone pr.policy_id) db.policy_resource;
        usr_policy = delete (λ up. gone up.policy_id) db.usr_policy;
        client_policy = delete (λ cp. gone cp.policy_id) db.client_policy;
        grp_policy = delete (λ gp. gone gp.policy_id) db.grp_policy;
        generated_policy = delete (λ g. gone g.policy_id) db.generated_policy;
        ownership_binding = delete (λ b. gone b.policy_id) db.ownership_binding;
      }

  unfoldable pub delete_policy : Policy → Change (Db L.Label)
  delete_policy policy db =
      if generated_policy_is_protected db policy.name
      then (err 403, db)
      else (ok tt, delete_policies (λ p. p.name == policy.name) db)

  -- The description is set, and the links of the policy are deleted.
  unfoldable pub clear_policy : Policy → ℕ → Db L.Label → Db L.Label
  clear_policy policy policy_id db = record db {
    policy =
        map
          (λ p.
            if p.name == policy.name then record p { description = some policy.description } else p)
          db.policy;
    policy_resource = delete (λ pr. pr.policy_id == policy_id) db.policy_resource;
    policy_role = delete (λ pr. pr.policy_id == policy_id) db.policy_role;
  }

  unfoldable pub update_policy : Policy → Change (Db L.Label)
  update_policy policy db =
      if generated_policy_is_protected db policy.name
      then (err 403, db)
      else after (validate policy, db)
          λ _ db. elim (select_policy_id db policy.name) [
            | none ↦ (err 404, db)
            | some i ↦ add_resources_and_roles policy i (clear_policy policy i db)
          ]
