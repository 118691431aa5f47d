-- ===== src/Ownership.antt =====
-- internal/ownership/ownership.go: ownership of resources by the policies that are generated for them.
pub mod Templates
pub mod Bindings
pub mod Service
use arborist.Base.{
  Text, codes, ℕ, Bool, Option, none, some, List, [], ◌∷◌, ◌==◌, nat_eq, if◌then◌else◌,
}
use arborist.Core.Paths.{clean_resource_path}
use arborist.Store.Ltree.{Ltree}
use arborist.Store.Schema.{Db, OwnershipTemplate, ResourceRow}

abbrev pub org_member_role : Text
org_member_role = codes "org-member"

abbrev pub ownership_provider : Text
ownership_provider = codes "arborist-ownership"

abbrev pub owner_subject_type : Text
owner_subject_type = codes "user"

-- What the packages take from outside the repository: regexp.MatchString(pattern, text), `none` for an
-- invalid pattern; `ORDER BY name` on the templates; and the tag that a new resource draws.
pub record Outside (L : Ltree) : Type 0 where
  pub matches : Text → Text → Option Bool
  pub order_by_name : List OwnershipTemplate → List OwnershipTemplate
  pub new_tag : List (ResourceRow L.Label) → Text

pub data TargetKind : Type 0 where
  managed_resource child_container : TargetKind

pub record OwnershipTarget : Type 0 where
  pub kind : TargetKind
  pub template : OwnershipTemplate
  pub resource_id : ℕ
  pub resource_path : Text
  pub anchor_path : Text
  pub policy_path : Text

unfoldable pub managed_target : OwnershipTemplate → ℕ → Text → OwnershipTarget
managed_target template resource_id resource_path =
    let path = clean_resource_path resource_path in
    record {
      kind = managed_resource;
      template = template;
      resource_id = resource_id;
      resource_path = path;
      anchor_path = path;
      policy_path = path;
    }

unfoldable pub child_container_target : OwnershipTemplate → ℕ → Text → Text → OwnershipTarget
child_container_target template resource_id resource_path anchor_path =
    let path = clean_resource_path resource_path in
    record {
      kind = child_container;
      template = template;
      resource_id = resource_id;
      resource_path = path;
      anchor_path = clean_resource_path anchor_path;
      policy_path = path;
    }

-- path[:strings.LastIndex(path, "/")]
unfoldable pub before_last_slash : Text → Option Text
before_last_slash [] = none
before_last_slash (c ∷ s) = elim (before_last_slash s) [
  | some a ↦ some (c ∷ a)
  | none ↦ if c == b'/' then some [] else none
]

-- An index 0 counts as none.
abbrev not_empty : Option Text → Option Text
not_empty none = none
not_empty (some []) = none
not_empty (some (c ∷ s)) = some (c ∷ s)

unfoldable pub parent_resource_path : Text → Option Text
parent_resource_path path = not_empty (before_last_slash (clean_resource_path path))
