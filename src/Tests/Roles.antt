-- ===== src/Tests/Roles.antt =====
-- Tests of Store.Role.
use arborist.Base.{ℕ, codes, ◌≡◌, ◌≢◌, ◌↔◌, refl, [], ◌∷◌, Elem, here, there}
use arborist.Base.Exec.{ok}
use arborist.Store.Schema.{PermissionRow, PolicyRoleRow, RoleRow}
use arborist.Store.Role.{Role, overwrite_role, delete_role}
use arborist.Store.Role.Written.{Overwritten, overwrite_role-Overwritten}
use arborist.Store.Role.Deleted.{HasRole, RolesExist, delete_role-RolesExist}
use arborist.Tests.Samples.{sample_db}

abbrev reader : Role
reader = record {
  name = codes "reader";
  description = [];
  permissions =
      record {
        name = codes "list";
        description = [];
        action = record { service = codes "svc"; method = codes "list" };
        constraints = [];
      }
      ∷ [];
}

overwrite_role-Overwritten_example :
    (i : ℕ) × ((overwrite_role reader sample_db).0 ≡ ok tt)
    × Overwritten reader i sample_db (overwrite_role reader sample_db).1
overwrite_role-Overwritten_example = overwrite_role-Overwritten reader sample_db refl

roles_exist : RolesExist sample_db
roles_exist = record { of_permission = permissions; of_link = links }
  where
    reader_row : HasRole sample_db 1
    reader_row = (_, here refl, refl)

    boss_row : HasRole sample_db 2
    boss_row = (_, there (here refl), refl)

    permissions : (p : PermissionRow) → Elem p sample_db.permission → HasRole sample_db p.role_id
    permissions p (here e) = rw e reader_row
    permissions p (there (here e)) = rw e boss_row
    permissions p (there (there m)) = elim m [ ]

    links : (pr : PolicyRoleRow) → Elem pr sample_db.policy_role → HasRole sample_db pr.role_id
    links pr (here e) = rw e reader_row
    links pr (there (here e)) = rw e reader_row
    links pr (there (there (here e))) = rw e boss_row
    links pr (there (there (there m))) = elim m [ ]

delete_role-RolesExist_example :
    RolesExist (delete_role (codes "boss") sample_db).1
    × ((r : RoleRow)
        → Elem r (delete_role (codes "boss") sample_db).1.role
          ↔ (Elem r sample_db.role × (r.name ≢ codes "boss")))
delete_role-RolesExist_example = delete_role-RolesExist sample_db (codes "boss") roles_exist
