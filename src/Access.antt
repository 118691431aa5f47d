-- ===== src/Access.antt =====
-- internal/access/access.go: roles that are granted to a user directly on one resource.
pub mod Grant
pub mod Revoke
use arborist.Base.{
  ℕ, Text, codes, Bool, ◌||◌, Option, none, some, List, ◌++◌, ◌==◌, nat_eq, is_empty, if◌then◌else◌,
}
use arborist.Core.Strings.{trim_by, trim_space, to_lower}
use arborist.Core.Paths.{clean_resource_path, format_path_for_db}

pub record AccessUserRequest : Type 0 where
  pub resource_path : Text
  pub username : Text
  pub role_id : Text

pub record AccessMutationEntry : Type 0 where
  pub kind : Text
  pub policy_id : Text
  pub role_id : Text
  pub reason : Text

pub record AccessUserResponse : Type 0 where
  pub resource_path : Text
  pub username : Text
  pub role_id : Text
  pub granted : List AccessMutationEntry
  pub removed : List AccessMutationEntry
  pub not_removed : List AccessMutationEntry

unfoldable pub normalize_access_user_request : AccessUserRequest → AccessUserRequest
normalize_access_user_request request = record {
  resource_path = clean_resource_path request.resource_path;
  username = to_lower (trim_space request.username);
  role_id = trim_space request.role_id;
}

-- `request.ResourcePath == "" || ...`
abbrev pub is_incomplete : AccessUserRequest → Bool
is_incomplete request =
    is_empty request.resource_path || is_empty request.username || is_empty request.role_id

unfoldable pub direct_access_policy_name : Text → Text → Text
direct_access_policy_name resource_path role_id =
    codes "direct."
    ++ trim_by (λ c. c == b'.') (format_path_for_db resource_path)
    ++ codes "."
    ++ role_id
