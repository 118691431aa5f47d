-- ===== src/Engine/Grants.antt =====
-- The parts that the queries of internal/authz/engine share: which policies a principal holds, what
-- a policy permits and which of its resources count.
use arborist.Base.{
  ℕ, Text, codes, Bool, true, ◌&&◌, ◌||◌, Option, none, some, List, [], ◌∷◌, ◌++◌, ◌==◌, nat_eq,
  text_eq, ltb, any, select, pick, join,
}
use arborist.Core.Strings.{to_lower}
use arborist.Store.Schema.{Db, ResourceRow}
use arborist.Engine.Request.{anonymous_group, logged_in_group}

-- `expires_at IS NULL OR NOW() < expires_at`
abbrev pub live : ℕ → Option ℕ → Bool
live now none = true
live now (some t) = ltb now t

-- `column = $n OR column = '*'`
abbrev pub wildcard : Text → Text → Bool
wildcard column wanted = column == wanted || column == codes "*"

module _ {P : Type 0} (db : Db P) where
  -- The first member of the UNION: the user's own policies that have not expired.
  unfoldable pub direct_policies : ℕ → Text → List ℕ
  direct_policies now name = join (select (λ u. to_lower u.name == name) db.usr) λ u.
      pick (λ up. up.usr_id == u.id && live now up.expires_at) (λ up. up.policy_id) db.usr_policy

  -- The second: those of the groups of which the membership has not expired.
  unfoldable pub member_policies : ℕ → Text → List ℕ
  member_policies now name = join (select (λ u. to_lower u.name == name) db.usr) λ u.
      join (select (λ ug. ug.usr_id == u.id && live now ug.expires_at) db.usr_grp)
        λ ug. pick (λ gp. gp.grp_id == ug.grp_id) (λ gp. gp.policy_id) db.grp_policy

  -- The third: those of the groups of the given names.
  unfoldable pub group_policies : List Text → List ℕ
  group_policies names =
      join (select (λ g. any (λ n. g.name == n) names) db.grp)
        λ g. pick (λ gp. gp.grp_id == g.id) (λ gp. gp.policy_id) db.grp_policy

  unfoldable pub user_policies : ℕ → Text → List ℕ
  user_policies now name =
      direct_policies now name
      ++ (member_policies now name ++ group_policies (anonymous_group ∷ logged_in_group ∷ []))

  unfoldable pub client_policies : Text → List ℕ
  client_policies client_id =
      join (select (λ c. c.external_client_id == client_id) db.client)
        λ c. pick (λ cp. cp.client_id == c.id) (λ cp. cp.policy_id) db.client_policy

  -- `EXISTS (SELECT 1 FROM policy_role JOIN permission ...)`
  unfoldable pub permits : ℕ → Text → Text → Bool
  permits policy_id service method =
      any
        (λ pr.
          pr.policy_id == policy_id
          && any
              (λ pm.
                pm.role_id == pr.role_id
                && (wildcard pm.service service && wildcard pm.method method))
              db.permission)
        db.policy_role

  -- `$4 OR policies.policy_id IN (SELECT id FROM policy WHERE policy.name = ANY($5))`
  unfoldable pub in_filter : List Text → ℕ → Bool
  in_filter [] policy_id = true
  in_filter (n ∷ names) policy_id =
      any (λ p. p.id == policy_id && any (λ m. p.name == m) (n ∷ names)) db.policy

  -- The resources of a policy: `JOIN policy_resource ... JOIN resource`.
  unfoldable pub policy_resources : ℕ → List (ResourceRow P)
  policy_resources policy_id =
      join (select (λ pr. pr.policy_id == policy_id) db.policy_resource)
        λ pr. select (λ r. r.id == pr.resource_id) db.resource
