-- ===== src/Store/Resource.antt =====
-- internal/authz/store/resource/resource.go and the triggers of the table `resource`. The operations are
-- steps of a transaction: what they wrote before an error, the caller rolls back.
pub mod Deleted
pub mod Extends
pub mod Created
pub mod Update
pub mod Updates
pub mod Merged
use arborist.Base.{
  ℕ, ◌+◌, Text, codes, Bool, true, false, not, ◌&&◌, Option, none, some, List, [], ◌∷◌, ◌++◌, map,
  ◌==◌, text_eq, nat_eq, any, select, pick, first, is_empty, if◌then◌else◌,
}
use arborist.Base.Exec.{Outcome, Result, Change, ok, err, after, or_fail}
use arborist.Core.Strings.{collapse_slashes}
use arborist.Core.Paths.{format_path_for_db, format_db_path, underscore_decode}
use arborist.Store.Ltree.{Ltree}
use arborist.Store.Schema.{Db, ResourceRow}
use arborist.Store.Rows.{delete, insert}
use arborist.Store.Protection.{resource_has_protected_ownership}
use arborist.Engine.Resources.{ResourceFromQuery, resource_from_query}

-- ResourceIn: name, path, description and subresources
mutual
  pub data ResourceIn : Type 0 where
    resource_in : Text → Text → Option Text → Subresources → ResourceIn

  pub data Subresources : Type 0 where
    end : Subresources
    item : ResourceIn → Subresources → Subresources

abbrev pub name_of : ResourceIn → Text
name_of (resource_in name path description subresources) = name

abbrev pub path_of : ResourceIn → Text
path_of (resource_in name path description subresources) = path

pub record ResourceOut : Type 0 where
  pub name : Text
  pub path : Text
  pub tag : Text
  pub description : Text
  pub subresources : List Text

abbrev text_or_empty : Option Text → Text
text_or_empty none = []
text_or_empty (some t) = t

unfoldable pub standardize_resource : (L : Ltree) → ResourceFromQuery L.Label → ResourceOut
standardize_resource L r = record {
  name = underscore_decode r.row.name;
  path = format_db_path (L.ltree2text r.row.path);
  tag = r.row.tag;
  description = text_or_empty r.row.description;
  subresources = map (λ q. format_db_path (L.ltree2text q)) r.subresources;
}

-- The path of a subresource that createRecursively fills in.
abbrev pub filled_path : Text → ResourceIn → Text
filled_path parent r = if is_empty (path_of r) then parent ++ codes "/" ++ name_of r else path_of r

unfoldable pub add_path : Text → ResourceIn → Result Text
add_path parent r =
    if is_empty (path_of r)
    then (if is_empty (name_of r)
        then err 400
        else ok (collapse_slashes (parent ++ codes "/" ++ name_of r)))
    else ok (collapse_slashes (path_of r))

-- The path after an addPath whose error is ignored.
abbrev or_unchanged : Result Text → Text → Text
or_unchanged (ok p) path = p
or_unchanged (err c) path = path

abbrev pub paths_keep : Text → Subresources → List Text
paths_keep parent end = []
paths_keep parent (item r rest) =
    format_path_for_db (or_unchanged (add_path parent r) (path_of r)) ∷ paths_keep parent rest

module _ (L : Ltree) where
  -- The SELECT that the three reads share.
  unfoldable pub resource_with_path : Db L.Label → Text → Option (ResourceFromQuery L.Label)
  resource_with_path db path = elim (L.text2ltree (format_path_for_db path)) [
    | none ↦ none
    | some p ↦ elim (first (λ r. L.path_beq r.path p) db.resource) [
      | none ↦ none
      | some r ↦ some (resource_from_query L db r)
    ]
  ]

  unfoldable pub resource_with_tag : Db L.Label → Text → Option (ResourceFromQuery L.Label)
  resource_with_tag db tag = elim (first (λ r. r.tag == tag) db.resource) [
    | none ↦ none
    | some r ↦ some (resource_from_query L db r)
  ]

  unfoldable pub list_resources_from_db : Db L.Label → List (ResourceFromQuery L.Label)
  list_resources_from_db db = map (resource_from_query L db) db.resource

  -- The trigger resource_has_parent, which a commit runs for each row that was inserted.
  unfoldable pub resource_has_parent : Db L.Label → L.Label → Bool
  resource_has_parent db p = elim (L.parent p) [
    | none ↦ true
    | some q ↦ any (λ r. L.path_beq r.path q) db.resource
  ]

  -- A row that a DELETE of the rows that pass the test takes away: the trigger resource_recursive_delete
  -- takes all that is below.
  unfoldable pub deleted_with :
      (ResourceRow L.Label → Bool) → Db L.Label → ResourceRow L.Label → Bool
  deleted_with p db r = any (λ x. p x && L.descends r.path x.path) db.resource

  -- DELETE FROM resource WHERE p, with the trigger and with ON DELETE CASCADE.
  unfoldable pub delete_resources : (ResourceRow L.Label → Bool) → Db L.Label → Db L.Label
  delete_resources p db =
      let gone = λ (i : ℕ). any (λ r. r.id == i) (select (deleted_with p db) db.resource) in
      record db {
        resource = delete (deleted_with p db) db.resource;
        policy_resource = delete (λ pr. gone pr.resource_id) db.policy_resource;
        generated_policy = delete (λ g. gone g.resource_id) db.generated_policy;
        ownership_binding = delete (λ b. gone b.resource_id) db.ownership_binding;
      }

  -- deleteInDb of the resource with this path
  unfoldable pub delete_resource : Text → Change (Db L.Label)
  delete_resource path db =
      if is_empty path then (err 400, db) else elim (resource_has_protected_ownership L db path) [
        | err c ↦ (err c, db)
        | ok true ↦ (err 403, db)
        | ok false ↦ elim (L.text2ltree (format_path_for_db path)) [
          | none ↦ (ok tt, db)
          | some p ↦ (ok tt, delete_resources (λ r. L.path_beq r.path p) db)
        ]
      ]

  module _ (new_tag : List (ResourceRow L.Label) → Text) where
    -- INSERT INTO resource(path, description), with the trigger resource_path_insert: `new_tag` is the
    -- tag that it draws. `none` is an error of the statement.
    unfoldable pub insert_resource : Text → Option Text → Db L.Label → Option (Db L.Label)
    insert_resource path description db = elim (L.text2ltree path) [
      | none ↦ none
      | some p ↦ elim (L.last_label p) [
        | none ↦ none
        | some name ↦
            elim (insert (λ r. L.path_beq r.path p)
              (record {
                id = db.serial;
                tag = new_tag db.resource;
                name = name;
                description = description;
                path = p;
              })
              db.resource) [
                | none ↦ none
                | some rows ↦ some (record db { resource = rows; serial = db.serial + 1 })
              ]
      ]
    ]

    -- The same with ON CONFLICT DO NOTHING.
    unfoldable pub ensure_resource : L.Label → Db L.Label → Option (Db L.Label)
    ensure_resource p db = elim (L.last_label p) [
      | none ↦ none
      | some name ↦
          elim (insert (λ r. L.path_beq r.path p)
            (record {
              id = db.serial;
              tag = new_tag db.resource;
              name = name;
              description = none;
              path = p;
            })
            db.resource) [
              | none ↦ some db
              | some rows ↦ some (record db { resource = rows; serial = db.serial + 1 })
            ]
    ]

    -- createRecursively of a resource whose path is this one
    unfoldable mutual
      pub create_at : Text → ResourceIn → Change (Db L.Label)
      create_at path (resource_in name given description subresources) db =
          or_fail (insert_resource (format_path_for_db path) description db) 409 db
            λ db'. create_all path subresources db'

      pub create_all : Text → Subresources → Change (Db L.Label)
      create_all parent end db = (ok tt, db)
      create_all parent (item r rest) db =
          after (create_at (filled_path parent r) r db) λ _ db'. create_all parent rest db'

    unfoldable pub create_recursively : ResourceIn → Change (Db L.Label)
    create_recursively r = create_at (path_of r) r
