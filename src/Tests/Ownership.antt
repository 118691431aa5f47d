-- ===== src/Tests/Ownership.antt =====
-- Tests of Ownership.
use arborist.Base.{
  ◌⊎◌, codes, Text, ℕ, ◌≡◌, ◌↔◌, refl, true, none, some, List, [], text_beq, any, select, first,
  join, Elem, here, there,
}
use arborist.Base.Exec.{Outcome, ok}
use arborist.Core.Strings.{
  replace_all, query_escape, trim_left_by, trim_by, trim_space, is_space, collapse_slashes,
  collapse_after, to_lower,
}
use arborist.Core.Paths.{underscore_encode, format_path_for_db, clean_resource_path}
use arborist.Engine.Request.{AuthRequest}
use arborist.Engine.Authorize.{authorize_user}
use arborist.Engine.Spec.{Fits}
use arborist.Epoch.{
  Session, World, bump_subject, register_global, register_subject, touches_for_tx, put_touches,
}
use arborist.Store.Schema.{Db, OwnershipBindingRow, UsrPolicyRow, RoleRow, PermissionRow}
use arborist.Store.Rows.{insert_new, upsert, lookup}
use arborist.Store.Resource.{resource_with_path}
use arborist.Engine.Resources.{resource_from_query}
use arborist.Ownership.{OwnershipTarget, managed_target}
use arborist.Ownership.Templates.{
  resolve_ownership_target, target_of_resource, template_of_metadata,
}
use arborist.Ownership.Bindings.{
  generated_policy_name, role_id_by_name, ensure_user, upserted_policies, ensure_policy,
  ensure_generated_policy,
}
use arborist.Ownership.Bindings.Subjects.{
  bind_user, upsert_binding_metadata, ensure_generated_user_binding,
  attach_generated_policy_to_child_container, attach_policy_to_resource,
  ensure_owner_binding_for_target,
}
use arborist.Ownership.Bindings.Removal.{remove_owner_binding}
use arborist.Ownership.Bindings.Removed.{
  OwnerRow, OwnerGrant, PoliciesExist, remove_owner_binding-rows,
}
use arborist.Ownership.Service.{service_request, require_ownership_control, add_owner_body}
use arborist.Ownership.Service.Owners.{add_owner_body-authorize_user}
use arborist.Ownership.Service.Control.{Owns, require_ownership_control-Owns}
use arborist.Ownership.Service.Create.{DescendantCreateRequest}
use arborist.Tests.Labels.{labels, labels-IsLawful}
use arborist.Tests.Samples.{asks, label_a, target_a}
use arborist.Tests.Owned.{around, owned_db, clean_a, none_expired}

policies_exist : PoliciesExist owned_db
policies_exist b (here e) = rw e (_, here refl, refl)
policies_exist b (there m) = elim m [ ]

remove_owner_binding-rows_example :
    ((remove_owner_binding labels (codes "/programs/a") (codes "Alice ") owned_db).0 ≡ ok tt)
    × ((b : OwnershipBindingRow)
        → Elem b
            (remove_owner_binding labels
              (codes "/programs/a")
              (codes "Alice ")
              owned_db).1.ownership_binding
          ↔ (Elem b owned_db.ownership_binding
              × ¬ OwnerRow labels labels-IsLawful owned_db
                  (codes "programs.a")
                  (to_lower (trim_space (codes "Alice ")))
                  b))
    × ((up : UsrPolicyRow)
        → Elem up
            (remove_owner_binding labels
              (codes "/programs/a")
              (codes "Alice ")
              owned_db).1.usr_policy
          ↔ (Elem up owned_db.usr_policy
              × ¬ OwnerGrant labels labels-IsLawful owned_db
                  (codes "programs.a")
                  (to_lower (trim_space (codes "Alice ")))
                  up))
remove_owner_binding-rows_example =
    remove_owner_binding-rows labels labels-IsLawful owned_db (codes "/programs/a") (codes "Alice ")
      (codes "programs.a") accepted policies_exist
  where
    accepted :
        labels.text2ltree (format_path_for_db (clean_resource_path (codes "/programs/a")))
        ≡ some (codes "programs.a")
    accepted = rw (clean_a, label_a) refl

abbrev before : Session (Db Text)
before = record { db = owned_db; sets = [] }

added : Outcome × Session (Db Text)
unfolding add_owner_body resolve_ownership_target target_of_resource template_of_metadata
    resource_with_path resource_from_query managed_target ensure_owner_binding_for_target
    ensure_generated_user_binding ensure_generated_policy ensure_policy role_id_by_name
    upserted_policies bind_user upsert_binding_metadata ensure_user generated_policy_name
    attach_generated_policy_to_child_container attach_policy_to_resource insert_new upsert lookup
    first any select join text_beq clean_resource_path trim_space trim_by trim_left_by is_space
    collapse_slashes collapse_after format_path_for_db underscore_encode replace_all query_escape
    to_lower bump_subject register_global register_subject touches_for_tx put_touches
added = add_owner_body labels around (codes "alice") (codes "/programs/a") (codes "bob") 1 before

added_lem :
    add_owner_body labels around (codes "alice") (codes "/programs/a") (codes "bob") 1 before
    ≡ (ok tt, added.1)
unfolding added
added_lem = refl

abbrev bob_updates : AuthRequest
bob_updates = record (asks (codes "/programs/a") (codes "update")) { username = codes "bob" }

bob : to_lower (codes "bob") ≡ to_lower (trim_space (codes "bob"))
unfolding trim_space trim_by trim_left_by is_space
bob = refl

add_owner_body-authorize_user_example :
    (target : OwnershipTarget) × (resolve_ownership_target labels around owned_db
        (codes "/programs/a")
      ≡ ok target)
    × (r : RoleRow) × Elem r added.1.db.role
    × (r.name ≡ target.template.owner_role)
    × ((pm : PermissionRow)
        → Elem pm added.1.db.permission
        → pm.role_id ≡ r.id
        → Fits pm.service (codes "svc")
        → Fits pm.method (codes "update")
        → authorize_user labels added.1.db 5 bob_updates ≡ some true)
add_owner_body-authorize_user_example =
    add_owner_body-authorize_user labels labels-IsLawful around (codes "alice")
      (codes "/programs/a") (codes "bob") 1 5 before added.1 bob_updates added_lem
      (none_expired (to_lower (trim_space (codes "bob")))) bob refl target_a refl

require_ownership_control-Owns_example :
    (require_ownership_control labels owned_db 5 (codes "alice") (codes "/programs/a") ≡ ok tt) ↔ (
      Owns labels owned_db (codes "programs.a") (codes "alice")
      ⊎ (authorize_user labels owned_db 5 (
            service_request
              (codes "alice")
              (clean_resource_path (codes "/programs/a"))
              (codes "arborist")
              (codes "manage-owners"))
          ≡ some true))
require_ownership_control-Owns_example =
    require_ownership_control-Owns labels owned_db labels-IsLawful 5 (codes "alice")
      (codes "/programs/a") (codes "programs.a") accepted
  where
    accepted :
        labels.text2ltree
          (format_path_for_db (clean_resource_path (clean_resource_path (codes "/programs/a"))))
        ≡ some (codes "programs.a")
    accepted = rw (clean_a, clean_a, label_a) refl

abbrev world : World (Db Text) (List (Text × ℕ))
world = record { session = before; redis = [] }

abbrev new_program : DescendantCreateRequest
new_program = record {
  parent_path = codes "/programs";
  name = codes "b";
  template = [];
  description = none;
}
