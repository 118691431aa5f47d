-- ===== src/Store/Role.antt =====
-- internal/authz/store/policy/role.go and permission.go. Each operation runs a transaction of its own,
-- so an error leaves the database as it was.
pub mod Written
pub mod Deleted
use arborist.Base.{
  ℕ, ◌+◌, Text, Bool, ◌&&◌, Option, none, some, List, [], ◌∷◌, map, ◌==◌, text_eq, nat_eq, any,
  select, first, is_empty, if◌then◌else◌,
}
use arborist.Base.Exec.{Outcome, Change, ok, err, after, or_fail}
use arborist.Store.Schema.{Db, RoleRow, PermissionRow}
use arborist.Store.Rows.{delete, upsert, insert, insert_new, lookup}
use arborist.Engine.Request.{Action}

pub record Permission : Type 0 where
  pub name : Text
  pub description : Text
  pub action : Action
  pub constraints : List (Text × Text)

pub record Role : Type 0 where
  pub name : Text
  pub description : Text
  pub permissions : List Permission

-- RoleFromQuery, with the rows of `permission` that the column `permissions` shows.
pub record RoleFromQuery : Type 0 where
  pub id : ℕ
  pub name : Text
  pub description : Option Text
  pub permissions : List PermissionRow

unfoldable pub validate_role : Role → Outcome
validate_role role = if is_empty role.permissions then err 400 else ok tt

-- `ON CONFLICT(role_id, name)`
abbrev pub same_permission : PermissionRow → PermissionRow → Bool
same_permission a b = a.role_id == b.role_id && a.name == b.name

unfoldable pub permission_row : ℕ → Permission → PermissionRow
permission_row role_id p = record {
  role_id = role_id;
  name = p.name;
  service = p.action.service;
  method = p.action.method;
  constraints = p.constraints;
  description = some p.description;
}

unfoldable pub insert_permissions : List PermissionRow → List PermissionRow → List PermissionRow
insert_permissions [] rows = rows
insert_permissions (p ∷ ps) rows = insert_permissions ps (insert_new (same_permission p) p rows)

-- The loop of overwriteInDb: the row of that name is replaced, or a row is added.
unfoldable pub upsert_permissions : List PermissionRow → List PermissionRow → List PermissionRow
upsert_permissions [] rows = rows
upsert_permissions (p ∷ ps) rows =
    upsert_permissions ps (upsert (same_permission p) (λ q. p) p rows)

module _ {P : Type 0} where
  -- No query selects the description, so that the field stays nil.
  unfoldable pub role_from_query : Db P → RoleRow → RoleFromQuery
  role_from_query db r = record {
    id = r.id;
    name = r.name;
    description = none;
    permissions = select (λ p. p.role_id == r.id) db.permission;
  }

  unfoldable pub role_with_name : Db P → Text → Option RoleFromQuery
  role_with_name db name = elim (first (λ r. r.name == name) db.role) [
    | none ↦ none
    | some r ↦ some (role_from_query db r)
  ]

  unfoldable pub roles_with_names : Db P → List Text → List RoleFromQuery
  roles_with_names db names =
      map (role_from_query db) (select (λ r. any (λ n. r.name == n) names) db.role)

  unfoldable pub list_roles_from_db : Db P → List RoleFromQuery
  list_roles_from_db db = map (role_from_query db) db.role

  -- createInDb after `validate`
  unfoldable pub insert_role : Role → Change (Db P)
  insert_role role db =
      elim (insert (λ (r : RoleRow). r.name == role.name)
        (record { id = db.serial; name = role.name; description = some role.description })
        db.role) [
          | none ↦ (err 409, db)
          | some rows ↦ (
            ok tt,
            record db {
              role = rows;
              serial = db.serial + 1;
              permission =
                  insert_permissions (map (permission_row db.serial) role.permissions)
                    db.permission;
            },
          )
        ]

  unfoldable pub create_role : Role → Change (Db P)
  create_role role db = after (validate_role role, db) λ _ db. insert_role role db

  -- The table `role` after INSERT ... ON CONFLICT(name) DO UPDATE
  unfoldable pub overwritten_role : Role → Db P → List RoleRow
  overwritten_role role db =
      upsert (λ (r : RoleRow). r.name == role.name)
        (λ r. record r { description = some role.description })
        (record { id = db.serial; name = role.name; description = some role.description }) db.role

  -- overwriteInDb after `validate`; the id is that of `RETURNING id`.
  unfoldable pub upsert_role : Role → Change (Db P)
  upsert_role role db =
      or_fail (lookup (λ r. r.name == role.name) (λ r. r.id) (overwritten_role role db)) 500 db
        λ role_id. (
          ok tt,
          record db {
            role = overwritten_role role db;
            serial = db.serial + 1;
            permission =
                upsert_permissions (map (permission_row role_id) role.permissions) db.permission;
          },
        )

  unfoldable pub overwrite_role : Role → Change (Db P)
  overwrite_role role db = after (validate_role role, db) λ _ db. upsert_role role db

  -- ON DELETE CASCADE takes the permissions of the role and its links to policies along.
  unfoldable pub delete_role : Text → Change (Db P)
  delete_role name db =
      let gone = λ (i : ℕ). any (λ r. r.id == i) (select (λ r. r.name == name) db.role) in
      (
        ok tt,
        record db {
          role = delete (λ r. r.name == name) db.role;
          permission = delete (λ p. gone p.role_id) db.permission;
          policy_role = delete (λ pr. gone pr.role_id) db.policy_role;
        },
      )
