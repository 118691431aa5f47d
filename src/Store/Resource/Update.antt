-- ===== src/Store/Resource/Update.antt =====
-- updateInDb of internal/authz/store/resource/resource.go: PUT of a resource with its subresources.
use arborist.Base.{
  Text, Bool, not, ◌&&◌, Option, none, some, List, [], ◌∷◌, map, any, if◌then◌else◌,
}
use arborist.Base.Exec.{Outcome, Change, ok, err, after, or_fail}
use arborist.Core.Paths.{format_path_for_db}
use arborist.Store.Ltree.{Ltree}
use arborist.Store.Schema.{Db, ResourceRow}
use arborist.Store.Resource.{
  ResourceIn, resource_in, Subresources, end, item, path_of, add_path, paths_keep, delete_resources,
  ensure_resource,
}

-- The answer of the loop over the subresources when an earlier statement has broken the transaction.
abbrev broken : Text → Subresources → Outcome
broken parent end = ok tt
broken parent (item r rest) = elim (add_path parent r) [ err c ↦ err c | ok p ↦ err 409 ]

module _ (L : Ltree) where
  -- `$2::ltree[]`
  unfoldable pub cast_all : List Text → Option (List L.Label)
  cast_all [] = some []
  cast_all (t ∷ ts) = elim (L.text2ltree t) [
    | none ↦ none
    | some p ↦ elim (cast_all ts) [ none ↦ none | some ps ↦ some (p ∷ ps) ]
  ]

  -- The triggers of an UPDATE rewrite the paths below to what they are.
  unfoldable pub describe : L.Label → Option Text → Db L.Label → Db L.Label
  describe p none db = db
  describe p (some description) db = record db {
    resource =
        map (λ r. if L.path_beq r.path p then record r { description = some description } else r)
          db.resource;
  }

  -- A child of `p` that is not among those to keep.
  unfoldable pub is_dropped : L.Label → List L.Label → ResourceRow L.Label → Bool
  is_dropped p keep r =
      not (L.path_beq r.path p)
      && (L.is_child r.path p && not (any (λ q. L.path_beq r.path q) keep))

  -- A text that is no label path breaks the transaction. Without subresources nothing is kept.
  unfoldable pub drop_children : L.Label → Text → Subresources → Change (Db L.Label)
  drop_children p path subresources db = elim (cast_all (paths_keep path subresources)) [
    | none ↦ (broken path subresources, db)
    | some keep ↦ (ok tt, delete_resources L (is_dropped p keep) db)
  ]

  module _ (new_tag : List (ResourceRow L.Label) → Text) (merge : Bool) where
    unfoldable mutual
      pub update_at : Text → ResourceIn → Change (Db L.Label)
      update_at path (resource_in name given description subresources) db =
          or_fail (L.text2ltree (format_path_for_db path)) 409 db λ p.
            or_fail (ensure_resource L new_tag p db) 409 db λ db1.
              let db2 = describe p description db1 in
              after (if merge then (ok tt, db2) else drop_children p path subresources db2)
                λ _ db3. update_all path subresources db3

      pub update_all : Text → Subresources → Change (Db L.Label)
      update_all parent end db = (ok tt, db)
      update_all parent (item r rest) db =
          after (add_path parent r, db)
            λ path db. after (update_at path r db) λ _ db'. update_all parent rest db'

    unfoldable pub update_resource : ResourceIn → Change (Db L.Label)
    update_resource r = update_at (path_of r) r
