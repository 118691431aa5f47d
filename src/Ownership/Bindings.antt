-- ===== src/Ownership/Bindings.antt =====
-- internal/ownership/ownership_bindings.go: the roles, policies and permissions that ownership generates,
-- steps of a transaction each.
pub mod Subjects
pub mod Grants
pub mod Removal
pub mod Authorized
pub mod Held
pub mod Removed
use arborist.Base.{
  Text, codes, ℕ, ◌+◌, Bool, true, false, not, ◌&&◌, Option, none, some, List, [], ◌∷◌, ◌++◌, ◌==◌,
  nat_eq, text_eq, any, select, is_empty, if◌then◌else◌, length,
}
use arborist.Base.Exec.{Result, Outcome, Change, ok, err, after, or_fail}
use arborist.Core.Strings.{trim_by, trim_space, to_lower}
use arborist.Core.Paths.{clean_resource_path, format_path_for_db}
use arborist.Engine.Request.{create_descendant_method}
use arborist.Store.Ltree.{Ltree}
use arborist.Store.Schema.{
  Db, OwnershipTemplate, RoleRow, PolicyRow, UsrRow, PermissionRow, PolicyRoleRow,
  PolicyResourceRow, UsrPolicyRow, GrpPolicyRow, GeneratedPolicyRow, OwnershipBindingRow,
}
use arborist.Store.Rows.{lookup, delete, upsert, insert_new}
use arborist.Store.Lookup.{select_usr_id, select_policy_id, select_grp_id}
use arborist.Store.Policy.{same_policy_resource, same_policy_role}
use arborist.Store.Role.{same_permission}
use arborist.Store.Resource.{resource_with_path}
use arborist.Ownership.{
  OwnershipTarget, TargetKind, managed_resource, child_container, managed_target, org_member_role,
  ownership_provider, owner_subject_type,
}

unfoldable pub generated_policy_name : Text → Text → Text → Text
generated_policy_name kind resource_path role_id =
    codes "generated."
    ++ kind
    ++ codes "."
    ++ trim_by (λ c. c == b'.') (format_path_for_db resource_path)
    ++ codes "."
    ++ role_id

abbrev generated_description : Text → Text → Text
generated_description kind policy_path =
    codes "Generated " ++ kind ++ codes " policy for " ++ policy_path

-- A name, a service and a method of the permissions that ensureOwnershipBaseRoles lists.
abbrev pub owner_permissions : List (Text × Text × Text)
owner_permissions =
    (codes "owner_read", codes "*", codes "read")
    ∷ (codes "owner_create", codes "*", codes "create")
    ∷ (codes "owner_update", codes "*", codes "update")
    ∷ (codes "owner_delete", codes "*", codes "delete")
    ∷ (codes "owner_write_storage", codes "*", codes "write-storage")
    ∷ (codes "owner_read_storage", codes "*", codes "read-storage")
    ∷ (codes "owner_create_descendant", codes "arborist", create_descendant_method)
    ∷ (codes "owner_manage_owners", codes "arborist", codes "manage-owners")
    ∷ []

abbrev new_permission : ℕ → Text × Text × Text → PermissionRow
new_permission role_id (name, service, method) = record {
  role_id = role_id;
  name = name;
  service = service;
  method = method;
  constraints = [];
  description = none;
}

unfoldable pub ensure_permissions :
    ℕ → List (Text × Text × Text) → List PermissionRow → List PermissionRow
ensure_permissions role_id [] rows = rows
ensure_permissions role_id (p ∷ ps) rows =
    let row = new_permission role_id p in
    ensure_permissions role_id ps (insert_new (same_permission row) row rows)

module _ {P : Type 0} where
  unfoldable pub role_id_by_name : Db P → Text → Option ℕ
  role_id_by_name db role_name = lookup (λ r. r.name == role_name) (λ r. r.id) db.role

  -- ON CONFLICT keeps the row that is there, and gives its id back.
  unfoldable pub ensure_role : Text → Text → Db P → Result ℕ × Db P
  ensure_role role_name description db =
      let rows =
        insert_new (λ (r : RoleRow). r.name == role_name)
          (record { id = db.serial; name = role_name; description = some description }) db.role in
      let db' = record db { role = rows; serial = db.serial + 1 } in
      or_fail (role_id_by_name db' role_name) 500 db λ i. (ok i, db')

  unfoldable pub give_permissions : ℕ → List (Text × Text × Text) → Db P → Db P
  give_permissions role_id permissions db = record db {
    permission = ensure_permissions role_id permissions db.permission;
  }

  unfoldable pub ensure_ownership_base_roles : Text → Change (Db P)
  ensure_ownership_base_roles owner_role db =
      after (ensure_role owner_role (codes "Generated owner role") db) λ owner db1.
        after
          (ensure_role org_member_role (codes "Generated organization member role")
            (give_permissions owner owner_permissions db1))
          λ member db2. (
            ok tt,
            give_permissions member
                ((codes "org_member_create_descendant", codes "arborist", create_descendant_method)
                  ∷ [])
                db2,
          )

  unfoldable pub ensure_user : Text → Db P → Db P
  ensure_user username db = record db {
    usr =
        insert_new (λ (u : UsrRow). u.name == username)
          (record { id = db.serial; name = username; email = none }) db.usr;
    serial = db.serial + 1;
  }

  -- INSERT INTO policy ... ON CONFLICT (name) DO UPDATE SET description; the rows afterwards.
  unfoldable pub upserted_policies : Text → Text → Db P → List PolicyRow
  upserted_policies name description db =
      upsert (λ (p : PolicyRow). p.name == name) (λ p. record p { description = some description })
        (record { id = db.serial; name = name; description = some description }) db.policy

  -- The policy of this name with this resource and this role: the first three statements of
  -- ensureGeneratedPolicy and of ensureDirectAccessPolicy, with the id that RETURNING gives.
  unfoldable pub ensure_policy : Text → Text → ℕ → Text → Db P → Result ℕ × Db P
  ensure_policy name description resource_id role_id db =
      or_fail (role_id_by_name db role_id) 500 db λ role.
        let rows = upserted_policies name description db in
        or_fail (lookup (λ (p : PolicyRow). p.name == name) (λ p. p.id) rows) 500 db λ i.
          let resource_row : PolicyResourceRow = record {
            policy_id = i;
            resource_id = resource_id;
          } in
          let role_row : PolicyRoleRow = record { policy_id = i; role_id = role } in
          (
            ok i,
            record db {
              policy = rows;
              serial = db.serial + 1;
              policy_resource =
                  insert_new (same_policy_resource resource_row) resource_row db.policy_resource;
              policy_role = insert_new (same_policy_role role_row) role_row db.policy_role;
            },
          )

  unfoldable pub ensure_generated_policy :
      OwnershipTarget → Text → Text → Bool → Text → Db P → Result (Text × ℕ) × Db P
  ensure_generated_policy target role_id kind protected created_by db =
      let name = generated_policy_name kind target.policy_path role_id in
      after
        (ensure_policy name (generated_description kind target.policy_path) target.resource_id
          role_id db)
        λ i db'. (
          ok (name, i),
          record db' {
            generated_policy =
                upsert (λ (g : GeneratedPolicyRow). g.policy_id == i)
                  (λ g. record g { protected = protected })
                  (record {
                    policy_id = i;
                    resource_id = target.resource_id;
                    template_name = target.template.name;
                    kind = kind;
                    protected = protected;
                    created_by = created_by;
                  })
                  db'.generated_policy;
          },
        )
