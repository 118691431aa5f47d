-- ===== src/Ownership/Templates.antt =====
-- internal/ownership/ownership_templates.go
pub mod Resolved
use arborist.Base.{
  Text, ℕ, Bool, true, false, ◌||◌, Option, none, some, List, [], ◌∷◌, ◌++◌, ◌==◌, nat_eq, text_eq,
  any, select, first, join, is_empty, if◌then◌else◌,
}
use arborist.Base.Exec.{Result, ok, err}
use arborist.Core.Strings.{trim_by}
use arborist.Core.Paths.{clean_resource_path}
use arborist.Store.Ltree.{Ltree}
use arborist.Store.Schema.{Db, OwnershipTemplate}
use arborist.Store.Resource.{resource_with_path}
use arborist.Ownership.{
  Outside, OwnershipTarget, managed_target, child_container_target, parent_resource_path,
}

unfoldable pub role_is_grantable : OwnershipTemplate → Text → Bool
role_is_grantable template role_id = any (λ r. r == role_id) template.grantable_roles

-- The loop over the templates: the first that is wanted and whose pattern matches the path.
unfoldable pub find_template :
    (Text → Text → Option Bool)
    → (OwnershipTemplate → Bool)
    → Text
    → List OwnershipTemplate
    → Result (Option OwnershipTemplate)
find_template matches wanted path [] = ok none
find_template matches wanted path (t ∷ ts) =
    let rest = find_template matches wanted path ts in
    if wanted t
    then elim (matches t.parent_path_pattern path) [
      | none ↦ err 500
      | some true ↦ ok (some t)
      | some false ↦ rest
    ]
    else rest

-- `!ChildContainerName.Valid || ChildContainerName.String != containerName`, negated
abbrev pub has_container : Text → OwnershipTemplate → Bool
has_container name t = elim t.child_container_name [ none ↦ false | some c ↦ c == name ]

-- strings.Split(s, "/")
unfoldable pub split_slash : Text → List Text
split_slash [] = [] ∷ []
split_slash (c ∷ s) = elim (split_slash s) [
  | [] ↦ []
  | part ∷ parts ↦ if c == b'/' then [] ∷ (part ∷ parts) else (c ∷ part) ∷ parts
]

-- strings.Join(parts, "/")
unfoldable pub join_slash : List Text → Text
join_slash [] = []
join_slash (part ∷ []) = part
join_slash (part ∷ (next ∷ parts)) = part ++ b'/' ∷ join_slash (next ∷ parts)

-- parts[:len(parts)-1] and parts[len(parts)-1]; `none` when there is no part.
unfoldable pub without_last : List Text → Option (List Text × Text)
without_last [] = none
without_last (part ∷ parts) = elim (without_last parts) [
  | none ↦ some ([], part)
  | some (init, last) ↦ some (part ∷ init, last)
]

abbrev path_parts : Text → List Text
path_parts path = split_slash (trim_by (λ c. c == b'/') path)

-- The name of a container, the path of its owner and the path above that.
pub record ContainerPath : Type 0 where
  pub container_name : Text
  pub parent_path : Text
  pub parent_create_path : Text

-- What the owner's path adds; there is always a part.
abbrev above : Text → Text → Option ContainerPath
above name parent_path = elim (without_last (path_parts parent_path)) [
  | none ↦ none
  | some (init, last) ↦ some (record {
    container_name = name;
    parent_path = parent_path;
    parent_create_path = b'/' ∷ join_slash init;
  })
]

unfoldable pub container_path : Text → Option ContainerPath
container_path resource_path =
    elim (without_last (path_parts (clean_resource_path resource_path))) [
      | none ↦ none
      | some ([], name) ↦ none
      | some (part ∷ parts, name) ↦ above name (b'/' ∷ join_slash (part ∷ parts))
    ]

module _ (L : Ltree) (outside : Outside L) where
  unfoldable pub list_ownership_templates : Db L.Label → List OwnershipTemplate
  list_ownership_templates db = outside.order_by_name db.ownership_template

  unfoldable pub template_for_parent : Db L.Label → Text → Text → Result OwnershipTemplate
  template_for_parent db parent_path template_name =
      elim (find_template outside.matches (λ t. is_empty template_name || t.name == template_name)
        parent_path (list_ownership_templates db)) [
          | err c ↦ err c
          | ok none ↦ err 400
          | ok (some t) ↦ ok t
        ]

  unfoldable pub match_child_container_template :
      List OwnershipTemplate → Text → Text → Result (Option OwnershipTemplate)
  match_child_container_template templates container_name parent_create_path =
      find_template outside.matches (has_container container_name) parent_create_path templates

  unfoldable pub template_for_child_container :
      Db L.Label → Text → Result (Option (OwnershipTemplate × Text))
  template_for_child_container db resource_path = elim (container_path resource_path) [
    | none ↦ ok none
    | some c ↦
        elim (match_child_container_template (list_ownership_templates db) c.container_name
          c.parent_create_path) [
            | err e ↦ err e
            | ok none ↦ ok none
            | ok (some t) ↦ ok (some (t, c.parent_path))
          ]
  ]

  -- The template of the metadata of this resource; without `ORDER BY`, the first in the table.
  unfoldable pub template_of_metadata : Db L.Label → ℕ → Option OwnershipTemplate
  template_of_metadata db resource_id =
      first (λ t. true)
        (join (select (λ g. g.resource_id == resource_id) db.generated_policy)
          λ g. select (λ t. t.name == g.template_name) db.ownership_template)

  -- The template of the metadata of a policy that is attached to this resource.
  unfoldable pub template_of_policy : Db L.Label → ℕ → Option OwnershipTemplate
  template_of_policy db resource_id =
      first (λ t. true)
        (join (select (λ pr. pr.resource_id == resource_id) db.policy_resource) λ pr.
          join (select (λ g. g.policy_id == pr.policy_id) db.generated_policy)
            λ g. select (λ t. t.name == g.template_name) db.ownership_template)

  -- The last attempt of resolveOwnershipTarget: a template that allows children under the parent.
  unfoldable pub target_by_parent : Db L.Label → ℕ → Text → Result OwnershipTarget
  target_by_parent db resource_id resource_path = elim (parent_resource_path resource_path) [
    | none ↦ err 404
    | some parent ↦ elim (template_for_parent db parent []) [
      | err c ↦ err 404
      | ok t ↦ ok (managed_target t resource_id resource_path)
    ]
  ]

  unfoldable pub target_by_path : Db L.Label → ℕ → Text → Result OwnershipTarget
  target_by_path db resource_id resource_path =
      elim (template_for_child_container db resource_path) [
        | err c ↦ err c
        | ok none ↦ target_by_parent db resource_id resource_path
        | ok (some (t, anchor)) ↦ ok (child_container_target t resource_id resource_path anchor)
      ]

  unfoldable pub target_of_resource : Db L.Label → ℕ → Text → Result OwnershipTarget
  target_of_resource db resource_id resource_path = elim (template_of_metadata db resource_id) [
    | some t ↦ ok (managed_target t resource_id resource_path)
    | none ↦ elim (template_of_policy db resource_id) [
      | some t ↦ ok (managed_target t resource_id resource_path)
      | none ↦ target_by_path db resource_id resource_path
    ]
  ]

  unfoldable pub resolve_ownership_target : Db L.Label → Text → Result OwnershipTarget
  resolve_ownership_target db resource_path = elim (resource_with_path L db resource_path) [
    | none ↦ err 404
    | some r ↦ target_of_resource db r.row.id resource_path
  ]
