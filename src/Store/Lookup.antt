-- ===== src/Store/Lookup.antt =====
-- The subqueries that find the id of a row by its name, and policyWithName of
-- internal/authz/store/policy/policy.go. The names are UNIQUE, so that one row is found at most.
use arborist.Base.{
  ℕ, Text, Option, none, some, List, [], ◌∷◌, map, ◌==◌, text_eq, nat_eq, any, select, first, join,
  if◌then◌else◌, Column,
}
use arborist.Store.Ltree.{Ltree}
use arborist.Store.Rows.{lookup}
use arborist.Store.Schema.{Db, PolicyRow, GeneratedPolicyRow}

-- `array_agg(DISTINCT ...)`, without its order
unfoldable pub unique {ℓ} : {A : Type ℓ} ⦃c : Column A⦄ → List A → List A
unique [] = []
unique (x ∷ xs) = let rest = unique xs in if any (λ y. x == y) rest then rest else x ∷ rest

module _ {P : Type 0} (db : Db P) where
  -- `(SELECT id FROM usr WHERE name = $1)`
  abbrev pub select_usr_id : Text → Option ℕ
  select_usr_id name = lookup (λ u. u.name == name) (λ u. u.id) db.usr

  -- `(SELECT id FROM policy WHERE name = $2)`
  abbrev pub select_policy_id : Text → Option ℕ
  select_policy_id name = lookup (λ p. p.name == name) (λ p. p.id) db.policy

  -- `(SELECT id FROM grp WHERE name = $1)`
  abbrev pub select_grp_id : Text → Option ℕ
  select_grp_id name = lookup (λ g. g.name == name) (λ g. g.id) db.grp

  -- `(SELECT id FROM client WHERE external_client_id = $1)`
  abbrev pub select_client_id : Text → Option ℕ
  select_client_id name = lookup (λ c. c.external_client_id == name) (λ c. c.id) db.client

-- PolicyFromQuery, with the columns of generated_policy_metadata as one optional row
pub record PolicyFromQuery (P : Type 0) : Type 0 where
  pub id : ℕ
  pub name : Text
  pub description : Option Text
  pub generated : Option GeneratedPolicyRow
  pub resource_paths : List P
  pub role_ids : List Text

module _ (L : Ltree) ⦃labels : Column L.Label⦄ (db : Db L.Label) where
  unfoldable pub policy_from_query : PolicyRow → PolicyFromQuery L.Label
  policy_from_query p = record {
    id = p.id;
    name = p.name;
    description = p.description;
    generated = first (λ g. g.policy_id == p.id) db.generated_policy;
    resource_paths = unique (
        join (select (λ pr. pr.policy_id == p.id) db.policy_resource)
          λ pr. map (λ r. r.path) (select (λ r. r.id == pr.resource_id) db.resource));
    role_ids = unique (
        join (select (λ pr. pr.policy_id == p.id) db.policy_role)
          λ pr. map (λ r. r.name) (select (λ r. r.id == pr.role_id) db.role));
  }

  unfoldable pub policy_with_name : Text → Option (PolicyFromQuery L.Label)
  policy_with_name name = elim (first (λ p. p.name == name) db.policy) [
    | none ↦ none
    | some p ↦ some (policy_from_query p)
  ]

  unfoldable pub list_policies_from_db : List (PolicyFromQuery L.Label)
  list_policies_from_db = map policy_from_query db.policy
