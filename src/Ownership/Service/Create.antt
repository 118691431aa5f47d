-- ===== src/Ownership/Service/Create.antt =====
-- createOwnedDescendant of internal/ownership/service.go: a new resource below one that the caller may
-- create descendants of, with the policies and bindings of its template.
use arborist.Base.{
  Text, codes, ℕ, Bool, ◌||◌, Option, none, some, List, [], ◌∷◌, ◌++◌, ◌==◌, nat_eq, any, is_empty,
  if◌then◌else◌,
}
use arborist.Base.Exec.{Result, Outcome, Change, ok, err, after, or_fail}
use arborist.Core.Strings.{trim_space}
use arborist.Core.Paths.{clean_resource_path}
use arborist.Engine.Resources.{ResourceFromQuery}
use arborist.Epoch.{Session, World, Registry, register_global, bump_subject, transactify}
use arborist.Store.Ltree.{Ltree}
use arborist.Store.Schema.{Db, OwnershipTemplate}
use arborist.Store.Resource.{
  resource_in, Subresources, end, item, ResourceOut, create_recursively, resource_with_path,
  standardize_resource,
}
use arborist.Ownership.{Outside, managed_target, owner_subject_type}
use arborist.Ownership.Templates.{template_for_parent}
use arborist.Ownership.Bindings.{generated_policy_name, ensure_ownership_base_roles}
use arborist.Ownership.Bindings.Subjects.{
  ensure_owner_binding, ensure_protected_admin_binding, attach_policy_to_resource,
}
use arborist.Ownership.Service.{authorize_create_descendant, on_db, touch}

pub record DescendantCreateRequest : Type 0 where
  pub parent_path : Text
  pub name : Text
  pub template : Text
  pub description : Option Text

pub record DescendantCreateResponse : Type 0 where
  pub resource : ResourceOut
  pub template : Text
  pub owner_policy : Text
  pub admin_policies : List Text
  pub owners : List Text

-- The cleaned request, and the path of the child.
unfoldable pub validate_descendant_create_request :
    DescendantCreateRequest → Result (DescendantCreateRequest × Text)
validate_descendant_create_request request =
    let parent = clean_resource_path request.parent_path in
    let name = trim_space request.name in
    if is_empty parent || is_empty name || any (λ c. c == b'/') name
    then err 400
    else ok (
      record request { parent_path = parent; name = name },
      clean_resource_path (parent ++ codes "/" ++ name),
    )

-- The subresource of a template with a container.
abbrev container_of : Option Text → Subresources
container_of none = end
container_of (some name) = item (resource_in name [] none end) end

unfoldable pub bump_groups : ℕ → List Text → Registry → Registry
bump_groups tx [] sets = sets
bump_groups tx (g ∷ groups) sets = bump_groups tx groups (bump_subject tx (codes "group") g sets)

unfoldable pub bump_descendant_epochs : ℕ → Text → List Text → Registry → Registry
bump_descendant_epochs tx username admin_groups sets =
    bump_groups tx admin_groups
      (bump_subject tx owner_subject_type username (register_global tx sets))

abbrev pub without_value : {A S : Type 0} → Result A × S → Outcome × S
without_value r = after r λ _ s. (ok tt, s)

module _ {P : Type 0} where
  -- The loop over the groups of the template, and the names of their policies.
  unfoldable pub bind_admin_groups :
      OwnershipTemplate → ℕ → Text → Text → List Text → Db P → Result (List Text) × Db P
  bind_admin_groups template resource_id child_path username [] db = (ok [], db)
  bind_admin_groups template resource_id child_path username (g ∷ groups) db =
      after
        (ensure_protected_admin_binding (managed_target template resource_id child_path) g username
          db)
        λ name db1.
          after (bind_admin_groups template resource_id child_path username groups db1)
            λ names db2. (ok (name ∷ names), db2)

  unfoldable pub attach_policies_to_resource : ℕ → List Text → Change (Db P)
  attach_policies_to_resource resource_id [] db = (ok tt, db)
  attach_policies_to_resource resource_id (name ∷ names) db =
      after (attach_policy_to_resource name resource_id db)
        λ _ db'. attach_policies_to_resource resource_id names db'

module _ (L : Ltree) (outside : Outside L) where
  unfoldable pub prepare_descendant_template :
      Text → Text → Db L.Label → Result OwnershipTemplate × Db L.Label
  prepare_descendant_template parent_path requested db =
      after (template_for_parent L outside db parent_path requested, db)
        λ template db.
          after (ensure_ownership_base_roles template.owner_role db) λ _ db'. (ok template, db')

  -- The resource as it is read after the creation.
  unfoldable pub created_resource :
      Text → Db L.Label → Result (ResourceFromQuery L.Label) × Db L.Label
  created_resource child_path db =
      or_fail (resource_with_path L db child_path) 500 db λ r. (ok r, db)

  unfoldable pub create_descendant_resource :
      Text
      → Option Text
      → OwnershipTemplate
      → Db L.Label
      → Result (ResourceFromQuery L.Label) × Db L.Label
  create_descendant_resource child_path description template db =
      elim (resource_with_path L db child_path) [
        | some r ↦ (err 409, db)
        | none ↦
            after
              (create_recursively L outside.new_tag
                (resource_in [] child_path description (container_of template.child_container_name))
                db)
              λ _ db'. created_resource child_path db'
      ]

  -- The names of the policies of the administrators; the owner's is computed from the path.
  unfoldable pub materialize_descendant_bindings :
      OwnershipTemplate → ℕ → Text → Text → Db L.Label → Result (List Text) × Db L.Label
  materialize_descendant_bindings template resource_id child_path username db =
      after (ensure_owner_binding L template resource_id child_path username username db) λ _ db'.
        bind_admin_groups template resource_id child_path username template.default_admin_groups db'

  abbrev attach_to : Text → Option Text → List Text → Change (Db L.Label)
  attach_to child_path none names db = (ok tt, db)
  attach_to child_path (some container) names db =
      or_fail (resource_with_path L db (child_path ++ codes "/" ++ container)) 500 db
        λ r. attach_policies_to_resource r.row.id names db

  unfoldable pub attach_descendant_container_policies :
      OwnershipTemplate → Text → List Text → Change (Db L.Label)
  attach_descendant_container_policies template child_path names =
      attach_to child_path template.child_container_name names

  -- The work on the database: the response, and the groups to bump.
  unfoldable pub build_descendant :
      Text
      → DescendantCreateRequest
      → Text
      → Db L.Label
      → Result (DescendantCreateResponse × List Text) × Db L.Label
  build_descendant username request child_path db =
      after (prepare_descendant_template request.parent_path request.template db) λ template db1.
        after (create_descendant_resource child_path request.description template db1) λ r db2.
          after (materialize_descendant_bindings template r.row.id child_path username db2)
            λ admins db3.
              let owner = generated_policy_name (codes "owner") child_path template.owner_role in
              after (attach_descendant_container_policies template child_path (owner ∷ admins) db3)
                λ _ db4. (
                  ok (
                    record {
                      resource = standardize_resource L r;
                      template = template.name;
                      owner_policy = owner;
                      admin_policies = admins;
                      owners = username ∷ [];
                    },
                    template.default_admin_groups,
                  ),
                  db4,
                )

  -- The body of the transaction
  unfoldable pub create_body :
      Text
      → DescendantCreateRequest
      → Text
      → ℕ
      → Session (Db L.Label)
      → Result DescendantCreateResponse × Session (Db L.Label)
  create_body username request child_path tx s =
      after (on_db (build_descendant username request child_path) s) λ built s'.
        after (touch (bump_descendant_epochs tx username built.1) s') λ _ s''. (ok built.0, s'')

  module _ {R : Type 0} (exec : Option (List (Text × ℕ) → R → R)) where
    -- The response is what the body answered.
    unfoldable pub create_owned_descendant :
        ℕ
        → Bool
        → Bool
        → ℕ
        → Text
        → DescendantCreateRequest
        → World (Db L.Label) R
        → Result DescendantCreateResponse × World (Db L.Label) R
    create_owned_descendant tx begins commits now username given w =
        after (validate_descendant_create_request given, w)
          λ valid w.
            after (authorize_create_descendant L w.session.db now username valid.0.parent_path, w)
              λ _ w.
                let body = create_body username valid.0 valid.1 in
                after (transactify exec tx begins commits (λ t s. without_value (body t s)) w)
                  λ _ w'. ((body tx w.session).0, w')
