-- ===== src/Store/Schema.antt =====
-- The tables of migrations/*/up.sql as lists of rows, and the whole database. The columns
-- `created_at` and `provenance` are left out: no query tests them.
use arborist.Base.{ℕ, Text, Bool, Option, List}

-- `resource`; `P` stands for the type of label paths.
pub record ResourceRow (P : Type 0) : Type 0 where
  pub id : ℕ
  pub tag : Text
  pub name : Text
  pub description : Option Text
  pub path : P

-- `role`
pub record RoleRow : Type 0 where
  pub id : ℕ
  pub name : Text
  pub description : Option Text

-- `permission`
pub record PermissionRow : Type 0 where
  pub role_id : ℕ
  pub name : Text
  pub service : Text
  pub method : Text
  pub constraints : List (Text × Text)
  pub description : Option Text

-- `policy`
pub record PolicyRow : Type 0 where
  pub id : ℕ
  pub name : Text
  pub description : Option Text

-- `policy_role`
pub record PolicyRoleRow : Type 0 where
  pub policy_id : ℕ
  pub role_id : ℕ

-- `policy_resource`
pub record PolicyResourceRow : Type 0 where
  pub policy_id : ℕ
  pub resource_id : ℕ

-- `usr`
pub record UsrRow : Type 0 where
  pub id : ℕ
  pub name : Text
  pub email : Option Text

-- `usr_policy`
pub record UsrPolicyRow : Type 0 where
  pub usr_id : ℕ
  pub policy_id : ℕ
  pub expires_at : Option ℕ
  pub authz_provider : Option Text

-- `client`
pub record ClientRow : Type 0 where
  pub id : ℕ
  pub external_client_id : Text

-- `client_policy`
pub record ClientPolicyRow : Type 0 where
  pub client_id : ℕ
  pub policy_id : ℕ
  pub authz_provider : Option Text

-- `grp`
pub record GrpRow : Type 0 where
  pub id : ℕ
  pub name : Text

-- `usr_grp`
pub record UsrGrpRow : Type 0 where
  pub usr_id : ℕ
  pub grp_id : ℕ
  pub expires_at : Option ℕ
  pub authz_provider : Option Text

-- `grp_policy`
pub record GrpPolicyRow : Type 0 where
  pub grp_id : ℕ
  pub policy_id : ℕ
  pub authz_provider : Option Text

-- `ownership_template`
pub record OwnershipTemplate : Type 0 where
  pub name : Text
  pub description : Option Text
  pub parent_path_pattern : Text
  pub child_kind : Text
  pub child_container_name : Option Text
  pub owner_role : Text
  pub admin_role : Text
  pub default_admin_groups : List Text
  pub grantable_roles : List Text

-- `generated_policy_metadata`
pub record GeneratedPolicyRow : Type 0 where
  pub policy_id : ℕ
  pub resource_id : ℕ
  pub template_name : Text
  pub kind : Text
  pub protected : Bool
  pub created_by : Text

-- `ownership_binding_metadata`
pub record OwnershipBindingRow : Type 0 where
  pub subject_type : Text
  pub subject_name : Text
  pub policy_id : ℕ
  pub resource_id : ℕ
  pub template_name : Text
  pub kind : Text
  pub protected : Bool
  pub created_by : Text

-- `serial` is the next value of the id sequences; one counter serves all tables.
pub record Db (P : Type 0) : Type 0 where
  pub serial : ℕ
  pub resource : List (ResourceRow P)
  pub role : List RoleRow
  pub permission : List PermissionRow
  pub policy : List PolicyRow
  pub policy_role : List PolicyRoleRow
  pub policy_resource : List PolicyResourceRow
  pub usr : List UsrRow
  pub usr_policy : List UsrPolicyRow
  pub client : List ClientRow
  pub client_policy : List ClientPolicyRow
  pub grp : List GrpRow
  pub usr_grp : List UsrGrpRow
  pub grp_policy : List GrpPolicyRow
  pub ownership_template : List OwnershipTemplate
  pub generated_policy : List GeneratedPolicyRow
  pub ownership_binding : List OwnershipBindingRow
