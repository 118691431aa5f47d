-- ===== src/Access/Revoke.antt =====
-- RevokeUserAccess of internal/access/access.go
pub mod Counts
pub mod Candidates
pub mod Sweep
pub mod Removed
use arborist.Base.{
  ℕ, Text, codes, Bool, true, false, not, ◌&&◌, ◌||◌, Option, none, some, List, [], ◌∷◌, ◌++◌, map,
  ◌==◌, nat_eq, text_eq, bool_eq, any, select, join, length, is_empty, if◌then◌else◌, ltb,
}
use arborist.Base.Exec.{Result, Outcome, Change, ok, err, after, or_fail}
use arborist.Core.Strings.{to_lower}
use arborist.Core.Paths.{format_path_for_db}
use arborist.Engine.Grants.{live, policy_resources}
use arborist.Store.Ltree.{Ltree}
use arborist.Store.Schema.{Db, PolicyRow, UsrPolicyRow, ResourceRow}
use arborist.Store.Rows.{delete}
use arborist.Access.{
  AccessUserRequest, AccessMutationEntry, AccessUserResponse, normalize_access_user_request,
  is_incomplete,
}

pub record DirectUserAccessCandidate : Type 0 where
  pub policy_id : Text
  pub resource_path : Text
  pub role_count : ℕ
  pub resource_count : ℕ
  pub is_exact_resource : Bool

pub record GroupAccessCandidate : Type 0 where
  pub policy_id : Text
  pub resource_path : Text
  pub group_name : Text

abbrev pub same_direct : DirectUserAccessCandidate → DirectUserAccessCandidate → Bool
same_direct a b =
    a.policy_id == b.policy_id
    && (a.resource_path == b.resource_path
        && (a.role_count == b.role_count
            && (a.resource_count == b.resource_count
                && a.is_exact_resource == b.is_exact_resource)))

abbrev pub same_group : GroupAccessCandidate → GroupAccessCandidate → Bool
same_group a b =
    a.policy_id == b.policy_id
    && (a.resource_path == b.resource_path && a.group_name == b.group_name)

-- `SELECT DISTINCT`
unfoldable pub distinct_by : {A : Type 0} → (A → A → Bool) → List A → List A
distinct_by same [] = []
distinct_by same (x ∷ xs) =
    let rest = distinct_by same xs in if any (same x) rest then rest else x ∷ rest

unfoldable pub direct_candidate_reject_reason : DirectUserAccessCandidate → Text
direct_candidate_reject_reason c =
    if not c.is_exact_resource
    then codes "inherited_from_ancestor"
    else if ltb 1 c.role_count && ltb 1 c.resource_count
    then codes "broad_policy_multiple_roles_and_resources"
    else if ltb 1 c.role_count
    then codes "broad_policy_multiple_roles"
    else if ltb 1 c.resource_count
    then codes "broad_policy_multiple_resources"
    else codes "not_exact_direct_grant"

-- The condition under which a candidate is removed.
abbrev pub is_removable : DirectUserAccessCandidate → Bool
is_removable c = c.is_exact_resource && (c.role_count == 1 && c.resource_count == 1)

abbrev pub entry : Text → Text → Text → Text → AccessMutationEntry
entry kind policy_id role_id reason = record {
  kind = kind;
  policy_id = policy_id;
  role_id = role_id;
  reason = reason;
}

module _ {P : Type 0} (db : Db P) where
  -- `LEFT JOIN generated_policy_metadata ... IS NULL`
  abbrev pub is_generated : ℕ → Bool
  is_generated policy_id = any (λ g. g.policy_id == policy_id) db.generated_policy

  -- A role of this name is linked to the policy.
  abbrev pub has_role : ℕ → Text → Bool
  has_role policy_id role_name =
      any
        (λ pr.
          pr.policy_id == policy_id && any (λ r. r.id == pr.role_id && r.name == role_name) db.role)
        db.policy_role

  -- The policies with this id that a candidate query reads.
  unfoldable pub candidate_policies : ℕ → Text → List PolicyRow
  candidate_policies policy_id role_name =
      select (λ p. p.id == policy_id && (has_role p.id role_name && not (is_generated p.id)))
        db.policy

  -- deleteExactDirectUserPolicy; the provider of the request plays no part.
  unfoldable pub delete_exact_direct_user_policy : Text → Text → Db P
  delete_exact_direct_user_policy username policy_name = record db {
    usr_policy =
        delete
          (λ up.
            any (λ u. u.id == up.usr_id && to_lower u.name == username) db.usr
            && any (λ p. p.id == up.policy_id && p.name == policy_name) db.policy)
          db.usr_policy;
  }

module _ (L : Ltree) (db : Db L.Label) (now : ℕ) where
  -- The resources of a policy at the path or above it.
  unfoldable pub roots_above : L.Label → ℕ → List (ResourceRow L.Label)
  roots_above wanted policy_id =
      select (λ r. L.descends wanted r.path) (policy_resources db policy_id)

  unfoldable pub direct_candidate :
      L.Label → PolicyRow → ResourceRow L.Label → DirectUserAccessCandidate
  direct_candidate wanted p root = record {
    policy_id = p.name;
    resource_path = L.ltree2text root.path;
    role_count = length (select (λ pr. pr.policy_id == p.id) db.policy_role);
    resource_count = length (select (λ pr. pr.policy_id == p.id) db.policy_resource);
    is_exact_resource = L.path_beq root.path wanted;
  }

  unfoldable pub direct_user_access_candidates :
      AccessUserRequest → L.Label → List DirectUserAccessCandidate
  direct_user_access_candidates request wanted = distinct_by same_direct (
      join (select (λ u. to_lower u.name == request.username) db.usr) λ u.
        join (select (λ up. up.usr_id == u.id && live now up.expires_at) db.usr_policy) λ up.
          join (candidate_policies db up.policy_id request.role_id)
            λ p. map (direct_candidate wanted p) (roots_above wanted p.id))

  unfoldable pub group_access_candidates_for_user :
      AccessUserRequest → L.Label → List GroupAccessCandidate
  group_access_candidates_for_user request wanted = distinct_by same_group (
      join (select (λ u. to_lower u.name == request.username) db.usr) λ u.
        join (select (λ ug. ug.usr_id == u.id && live now ug.expires_at) db.usr_grp) λ ug.
          join (select (λ g. g.id == ug.grp_id) db.grp) λ g.
            join (select (λ gp. gp.grp_id == g.id) db.grp_policy) λ gp.
              join (candidate_policies db gp.policy_id request.role_id) λ p.
                map
                  (λ root. record {
                    policy_id = p.name;
                    resource_path = L.ltree2text root.path;
                    group_name = g.name;
                  })
                  (roots_above wanted p.id))

-- The loop over the direct candidates: what is removed, what is not, and the database.
unfoldable pub remove_candidates :
    {P : Type 0}
    → Text
    → Text
    → List DirectUserAccessCandidate
    → Db P
    → (List AccessMutationEntry × List AccessMutationEntry) × Db P
remove_candidates username role_id [] db = (([], []), db)
remove_candidates username role_id (c ∷ cs) db =
    let gone =
      remove_candidates username role_id cs
        (delete_exact_direct_user_policy db username c.policy_id) in
    let kept = remove_candidates username role_id cs db in
    if is_removable c
    then ((entry (codes "direct") c.policy_id role_id [] ∷ gone.0.0, gone.0.1), gone.1)
    else (
      (
        kept.0.0,
        entry (codes "direct") c.policy_id role_id (direct_candidate_reject_reason c) ∷ kept.0.1,
      ),
      kept.1,
    )

abbrev pub group_entry : Text → GroupAccessCandidate → AccessMutationEntry
group_entry role_id c =
    entry (codes "group") c.policy_id role_id (codes "group_grant:" ++ c.group_name)

-- The entry that tells that there was nothing.
abbrev or_none_found :
    Text → List AccessMutationEntry → List AccessMutationEntry → List AccessMutationEntry
or_none_found role_id removed not_removed =
    if is_empty removed && is_empty not_removed
    then entry (codes "none") [] role_id (codes "grant_not_found") ∷ []
    else not_removed

module _ (L : Ltree) (now : ℕ) where
  -- The candidates of the groups are read after the removals.
  unfoldable pub revoke_at :
      AccessUserRequest → L.Label → Db L.Label → AccessUserResponse × Db L.Label
  revoke_at request wanted db =
      let swept =
        remove_candidates request.username request.role_id
          (direct_user_access_candidates L db now request wanted) db in
      let not_removed =
        swept.0.1
        ++ map (group_entry request.role_id)
            (group_access_candidates_for_user L swept.1 now request wanted) in
      (
        record {
          resource_path = request.resource_path;
          username = request.username;
          role_id = request.role_id;
          granted = [];
          removed = swept.0.0;
          not_removed = or_none_found request.role_id swept.0.0 not_removed;
        },
        swept.1,
      )

  unfoldable pub revoke_user_access :
      AccessUserRequest → Db L.Label → Result AccessUserResponse × Db L.Label
  revoke_user_access given db =
      let request = normalize_access_user_request given in
      if is_incomplete request
      then (err 400, db)
      else or_fail (L.text2ltree (format_path_for_db request.resource_path)) 500 db
          λ wanted. let r = revoke_at request wanted db in (ok r.0, r.1)
