-- ===== src/Ownership/Bindings/Subjects.antt =====
-- internal/ownership/ownership_bindings.go: the bindings of users and groups to the generated policies.
use arborist.Base.{
  Text, codes, ℕ, Bool, true, false, not, ◌&&◌, Option, none, some, [], ◌++◌, ◌==◌, nat_eq, text_eq,
  any, is_empty, if◌then◌else◌,
}
use arborist.Base.Exec.{Result, Change, ok, err, after, or_fail}
use arborist.Core.Strings.{trim_space, to_lower}
use arborist.Core.Paths.{clean_resource_path}
use arborist.Engine.Resources.{ResourceFromQuery}
use arborist.Store.Ltree.{Ltree}
use arborist.Store.Schema.{
  Db, OwnershipTemplate, PolicyResourceRow, UsrPolicyRow, GrpPolicyRow, OwnershipBindingRow,
}
use arborist.Store.Rows.{upsert, insert_new}
use arborist.Store.Lookup.{select_usr_id, select_policy_id, select_grp_id}
use arborist.Store.Policy.{same_policy_resource}
use arborist.Store.Resource.{resource_with_path}
use arborist.Ownership.{
  OwnershipTarget, TargetKind, managed_resource, child_container, managed_target,
  ownership_provider, owner_subject_type,
}
use arborist.Ownership.Bindings.{generated_policy_name, ensure_user, ensure_generated_policy}

module _ {P : Type 0} where
  -- INSERT INTO usr_policy ... DO UPDATE SET authz_provider: the end of a binding that is there stays.
  unfoldable pub bind_user : Text → ℕ → Option Text → Change (Db P)
  bind_user username policy_id provider db = or_fail (select_usr_id db username) 500 db λ u. (
    ok tt,
    record db {
      usr_policy =
          upsert (λ (up : UsrPolicyRow). up.usr_id == u && up.policy_id == policy_id)
            (λ up. record up { authz_provider = provider })
            (record {
              usr_id = u;
              policy_id = policy_id;
              expires_at = none;
              authz_provider = provider;
            })
            db.usr_policy;
    },
  )

  unfoldable pub upsert_binding_metadata :
      Text → Text → ℕ → OwnershipTarget → Text → Bool → Text → Db P → Db P
  upsert_binding_metadata subject_type subject_name policy_id target kind protected created_by db =
      record db {
        ownership_binding =
            upsert
              (λ (b : OwnershipBindingRow).
                b.subject_type == subject_type
                && (b.subject_name == subject_name && b.policy_id == policy_id))
              (λ b. record b { protected = protected })
              (record {
                subject_type = subject_type;
                subject_name = subject_name;
                policy_id = policy_id;
                resource_id = target.resource_id;
                template_name = target.template.name;
                kind = kind;
                protected = protected;
                created_by = created_by;
              })
              db.ownership_binding;
      }

  unfoldable pub ensure_generated_user_binding :
      OwnershipTarget → Text → Text → Text → Bool → Text → Change (Db P)
  ensure_generated_user_binding target username role_id kind protected created_by db =
      let name = to_lower (trim_space username) in
      if is_empty name
      then (err 400, db)
      else after
          (ensure_generated_policy target role_id kind protected created_by (ensure_user name db))
          λ policy db1. after (bind_user name policy.1 (some ownership_provider) db1) λ _ db2. (
            ok tt,
            upsert_binding_metadata owner_subject_type name policy.1 target kind protected
                created_by db2,
          )

  unfoldable pub bind_group : Text → ℕ → Option Text → Change (Db P)
  bind_group group_name policy_id provider db = or_fail (select_grp_id db group_name) 500 db λ g. (
    ok tt,
    record db {
      grp_policy =
          upsert (λ (gp : GrpPolicyRow). gp.grp_id == g && gp.policy_id == policy_id)
            (λ gp. record gp { authz_provider = provider })
            (record { grp_id = g; policy_id = policy_id; authz_provider = provider }) db.grp_policy;
    },
  )

  -- The name of the policy; empty for a blank group name.
  unfoldable pub ensure_protected_admin_binding :
      OwnershipTarget → Text → Text → Db P → Result Text × Db P
  ensure_protected_admin_binding target group_name created_by db =
      let group = trim_space group_name in
      if is_empty group
      then (ok [], db)
      else if not (any (λ g. g.name == group) db.grp)
      then (err 500, db)
      else after
          (ensure_generated_policy target target.template.admin_role (codes "admin") true created_by
            db)
          λ policy db1. after (bind_group group policy.1 (some ownership_provider) db1) λ _ db2. (
            ok policy.0,
            upsert_binding_metadata (codes "group") group policy.1 target (codes "admin") true
                created_by db2,
          )

  unfoldable pub attach_policy_to_resource : Text → ℕ → Change (Db P)
  attach_policy_to_resource policy_name resource_id db =
      or_fail (select_policy_id db policy_name) 500 db λ i.
        let row : PolicyResourceRow = record { policy_id = i; resource_id = resource_id } in
        (
          ok tt,
          record db {
            policy_resource = insert_new (same_policy_resource row) row db.policy_resource;
          },
        )

module _ (L : Ltree) where
  -- No container is no error.
  abbrev pub attach_if_found : Text → Option (ResourceFromQuery L.Label) → Change (Db L.Label)
  attach_if_found policy_name none db = (ok tt, db)
  attach_if_found policy_name (some r) db = attach_policy_to_resource policy_name r.row.id db

  abbrev attach_to_container :
      OwnershipTarget → Text → Text → TargetKind → Option Text → Change (Db L.Label)
  attach_to_container target kind role_id target_kind none db = (ok tt, db)
  attach_to_container target kind role_id child_container (some container) db = (ok tt, db)
  attach_to_container target kind role_id managed_resource (some container) db =
      attach_if_found (generated_policy_name kind target.policy_path role_id)
        (resource_with_path L db
          (clean_resource_path (target.resource_path ++ codes "/" ++ container)))
        db

  unfoldable pub attach_generated_policy_to_child_container :
      OwnershipTarget → Text → Text → Change (Db L.Label)
  attach_generated_policy_to_child_container target kind role_id =
      attach_to_container target kind role_id target.kind target.template.child_container_name

  unfoldable pub ensure_owner_binding_for_target :
      OwnershipTarget → Text → Text → Change (Db L.Label)
  ensure_owner_binding_for_target target username created_by db =
      let role = target.template.owner_role in
      after (ensure_generated_user_binding target username role (codes "owner") false created_by db)
        λ _ db'. attach_generated_policy_to_child_container target (codes "owner") role db'

  unfoldable pub ensure_owner_binding :
      OwnershipTemplate → ℕ → Text → Text → Text → Change (Db L.Label)
  ensure_owner_binding template resource_id resource_path =
      ensure_owner_binding_for_target (managed_target template resource_id resource_path)
