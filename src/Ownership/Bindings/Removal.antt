-- ===== src/Ownership/Bindings/Removal.antt =====
-- The end of internal/ownership/ownership_bindings.go, and deleteOwnershipResource of ownership.go.
use arborist.Base.{
  Text, codes, ℕ, Bool, ◌&&◌, ◌||◌, [], ◌==◌, nat_eq, text_eq, any, select, is_empty, if◌then◌else◌,
  length,
}
use arborist.Base.Exec.{Result, Change, ok, err, after, or_fail}
use arborist.Core.Strings.{trim_space, to_lower}
use arborist.Core.Paths.{clean_resource_path, format_path_for_db}
use arborist.Store.Ltree.{Ltree}
use arborist.Store.Schema.{Db, UsrPolicyRow, OwnershipBindingRow, PolicyRow}
use arborist.Store.Rows.{delete}
use arborist.Store.Policy.{delete_policies}
use arborist.Store.Resource.{delete_resources}
use arborist.Ownership.{owner_subject_type}
use arborist.Ownership.Bindings.{generated_policy_name}

module _ (L : Ltree) where
  -- `resource.id = i AND resource.path = text2ltree($1)`
  abbrev pub stands_at : Db L.Label → L.Label → ℕ → Bool
  stands_at db p i = any (λ r. r.id == i && L.path_beq r.path p) db.resource

  -- `policy.id = i`, with `policy.name = $5` when a role is given
  abbrev pub is_policy : Db L.Label → Text → Text → Text → ℕ → Bool
  is_policy db resource_path kind role_id i =
      any
        (λ p.
          p.id == i
          && (is_empty role_id || p.name == generated_policy_name kind resource_path role_id))
        db.policy

  -- The metadata of the binding of this user, at this path and of this kind.
  unfoldable pub is_binding_of : Db L.Label → L.Label → Text → Text → OwnershipBindingRow → Bool
  is_binding_of db p username kind b =
      stands_at db p b.resource_id
      && (b.subject_type == owner_subject_type
          && (to_lower b.subject_name == username && b.kind == kind))

  -- The first DELETE: the grants of the user that such metadata name.
  unfoldable pub is_generated_grant :
      Db L.Label → L.Label → Text → Text → Text → Text → UsrPolicyRow → Bool
  is_generated_grant db p resource_path username kind role_id up =
      any (λ u. u.id == up.usr_id && to_lower u.name == username) db.usr
      && (is_policy db resource_path kind role_id up.policy_id
          && any (λ b. b.policy_id == up.policy_id && is_binding_of db p username kind b)
              db.ownership_binding)

  -- The second DELETE
  unfoldable pub is_removed_binding :
      Db L.Label → L.Label → Text → Text → Text → Text → OwnershipBindingRow → Bool
  is_removed_binding db p resource_path username kind role_id b =
      is_policy db resource_path kind role_id b.policy_id && is_binding_of db p username kind b

  unfoldable pub delete_generated_user_binding_with_count :
      Text → Text → Text → Text → Db L.Label → Result ℕ × Db L.Label
  delete_generated_user_binding_with_count resource_path username kind role_id db =
      or_fail (L.text2ltree (format_path_for_db resource_path)) 500 db λ p. (
        ok (
            length (
              select (is_removed_binding db p resource_path username kind role_id)
                db.ownership_binding)),
        record db {
          usr_policy =
              delete (is_generated_grant db p resource_path username kind role_id) db.usr_policy;
          ownership_binding =
              delete (is_removed_binding db p resource_path username kind role_id)
                db.ownership_binding;
        },
      )

  unfoldable pub delete_generated_user_binding : Text → Text → Text → Text → Change (Db L.Label)
  delete_generated_user_binding resource_path username kind role_id db =
      after (delete_generated_user_binding_with_count resource_path username kind role_id db)
        λ count db'. (ok tt, db')

  unfoldable pub remove_owner_binding : Text → Text → Change (Db L.Label)
  remove_owner_binding resource_path username =
      delete_generated_user_binding (clean_resource_path resource_path)
        (to_lower (trim_space username)) (codes "owner") []

  -- A policy with metadata at this path
  unfoldable pub is_generated_at : Db L.Label → L.Label → PolicyRow → Bool
  is_generated_at db p q =
      any (λ g. g.policy_id == q.id && stands_at db p g.resource_id) db.generated_policy

  -- A path that is no label path breaks the first statement.
  unfoldable pub delete_ownership_resource : Text → Change (Db L.Label)
  delete_ownership_resource resource_path db =
      let path = clean_resource_path resource_path in
      if is_empty path || path == codes "/"
      then (err 400, db)
      else or_fail (L.text2ltree (format_path_for_db path)) 500 db λ p. (
        ok tt,
        delete_resources L (λ r. L.path_beq r.path p) (delete_policies L (is_generated_at db p) db),
      )
