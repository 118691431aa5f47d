-- ===== src/Tests/Resources.antt =====
-- Tests of Store.Resource.
use arborist.Base.{
  codes, Text, ◌≡◌, ◌↔◌, refl, true, false, Bool, none, some, List, [], ◌∷◌, text_beq, any, select,
  Elem, here, there,
}
use arborist.Base.Exec.{Outcome, ok}
use arborist.Core.Strings.{
  has_prefix, replace_all, query_escape, trim_left_by, collapse_slashes, collapse_after,
}
use arborist.Core.Paths.{underscore_encode, format_path_for_db}
use arborist.Store.Schema.{Db, ResourceRow, PolicyResourceRow}
use arborist.Store.Rows.{insert, delete}
use arborist.Store.Protection.{resource_has_protected_ownership}
use arborist.Store.Resource.{
  ResourceIn, resource_in, end, item, add_path, insert_resource, ensure_resource,
  create_recursively, create_at, delete_resource, delete_resources, deleted_with,
  resource_has_parent,
}
use arborist.Store.Resource.Update.{
  update_resource, update_at, describe, drop_children, cast_all, is_dropped,
}
use arborist.Store.Resource.Deleted.{
  InSubtree, LinksInto, HasParents, delete_resource-subtree, delete_resource-HasParents,
}
use arborist.Store.Resource.Extends.{HasRow}
use arborist.Store.Resource.Created.{Created, listed, listed_all, create_recursively-listed}
use arborist.Store.Resource.Updates.{Updates}
use arborist.Store.Resource.Merged.{named, update_resource-named}
use arborist.Tests.Labels.{labels, labels-IsLawful, below, parent_part, last_part, split_last}
use arborist.Tests.Samples.{sample_db, label_a}

-- The tag that the tests draw.
abbrev drawn : List (ResourceRow Text) → Text
drawn rows = codes "tag"

unprotected : resource_has_protected_ownership labels sample_db (codes "/programs/a") ≡ ok false
unfolding resource_has_protected_ownership any
unprotected = refl

delete_resource-subtree_example :
    ((delete_resource labels (codes "/programs/a") sample_db).0 ≡ ok tt)
    × ((r : ResourceRow Text)
        → Elem r (delete_resource labels (codes "/programs/a") sample_db).1.resource
          ↔ (Elem r sample_db.resource × ¬ InSubtree labels sample_db (codes "programs.a") r.path))
    × ((pr : PolicyResourceRow)
        → Elem pr (delete_resource labels (codes "/programs/a") sample_db).1.policy_resource ↔ (
            Elem pr sample_db.policy_resource
            × ¬ LinksInto labels sample_db (codes "programs.a") pr))
delete_resource-subtree_example =
    delete_resource-subtree labels labels-IsLawful sample_db (codes "/programs/a")
      (codes "programs.a") refl accepted unprotected
  where
    accepted :
        labels.text2ltree (format_path_for_db (codes "/programs/a")) ≡ some (codes "programs.a")
    accepted = rw label_a refl

parents_known : HasParents labels sample_db
unfolding resource_has_parent any text_beq parent_part split_last
parents_known r (here e) = rw e refl
parents_known r (there (here e)) = rw e refl
parents_known r (there (there (here e))) = rw e refl
parents_known r (there (there (there (here e)))) = rw e refl
parents_known r (there (there (there (there (here e))))) = rw e refl
parents_known r (there (there (there (there (there m))))) = elim m [ ]

delete_resource-HasParents_example :
    HasParents labels (delete_resource labels (codes "/programs/a") sample_db).1
delete_resource-HasParents_example =
    delete_resource-HasParents labels labels-IsLawful sample_db (codes "/programs/a") parents_known

abbrev new_tree : ResourceIn
new_tree =
    resource_in [] (codes "/new") (some (codes "a tree"))
      (item (resource_in (codes "x") [] none end) end)

grown : Outcome × Db Text
unfolding create_recursively create_at insert_resource insert any text_beq last_part split_last
    format_path_for_db underscore_encode replace_all query_escape trim_left_by
grown = create_recursively labels drawn new_tree sample_db

grown_lem : create_recursively labels drawn new_tree sample_db ≡ (ok tt, grown.1)
unfolding grown
grown_lem = refl

create_recursively-listed_example : Created labels (listed new_tree) sample_db grown.1
create_recursively-listed_example =
    create_recursively-listed labels labels-IsLawful drawn new_tree sample_db grown.1 grown_lem

-- The subresource without a path is listed below its parent.
listed_lem : listed new_tree ≡ (codes "/new", some (codes "a tree")) ∷ (codes "/new/x", none) ∷ []
unfolding listed listed_all
listed_lem = refl

abbrev programs : ResourceIn
programs =
    resource_in [] (codes "/programs") none
      (item (resource_in (codes "c") [] (some (codes "new")) end) end)

updated : Bool → Outcome × Db Text
unfolding update_resource update_at ensure_resource describe drop_children cast_all delete_resources
    deleted_with is_dropped insert delete select any text_beq last_part split_last add_path below
    has_prefix collapse_slashes collapse_after format_path_for_db underscore_encode replace_all
    query_escape trim_left_by
updated merge = update_resource labels drawn merge programs sample_db

updated_lem : update_resource labels drawn true programs sample_db ≡ (ok tt, (updated true).1)
unfolding updated
updated_lem = refl

-- Without `merge` the other children go, and their children.
replaced_lem : (updated false).1.resource ≡ (
    record {
      id = 1;
      tag = codes "programs";
      name = codes "programs";
      description = none;
      path = codes "programs";
    }
    ∷ record {
      id = 4;
      tag = codes "open";
      name = codes "open";
      description = none;
      path = codes "open";
    }
    ∷ record {
      id = 5;
      tag = codes "data";
      name = codes "data";
      description = none;
      path = codes "data";
    }
    ∷ record {
      id = 100;
      tag = codes "tag";
      name = codes "c";
      description = some (codes "new");
      path = codes "programs.c";
    }
    ∷ [])
unfolding updated
replaced_lem = refl

update_resource-named_example :
    (true ≡ true → (q : Text) → Elem q (named programs) → HasRow labels (updated true).1 q)
    × Updates labels true sample_db (updated true).1
update_resource-named_example =
    update_resource-named labels labels-IsLawful drawn true programs sample_db (updated true).1
      updated_lem
