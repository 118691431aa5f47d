-- ===== src/Ownership/Service.antt =====
-- internal/ownership/service.go: who may change the ownership of a resource, and the operations that
-- change it, each in a transaction.
pub mod Create
pub mod Owners
pub mod Control
pub mod Guarded
use arborist.Base.{
  Text, codes, ℕ, Bool, true, false, ◌||◌, ◌&&◌, Option, none, some, List, [], ◌∷◌, ◌++◌, ◌==◌,
  nat_eq, text_eq, any, is_empty, if◌then◌else◌, leb,
}
use arborist.Base.Exec.{Result, Outcome, Change, ok, err, after}
use arborist.Core.Strings.{to_lower}
use arborist.Core.Paths.{clean_resource_path, format_path_for_db}
use arborist.Engine.Request.{AuthRequest, create_descendant_method}
use arborist.Engine.Authorize.{authorize_user, authorize_user_exact}
use arborist.Epoch.{Session, World, Registry, register_global, bump_subject, transactify}
use arborist.Store.Ltree.{Ltree}
use arborist.Store.Schema.{Db}
use arborist.Ownership.{Outside, owner_subject_type}
use arborist.Ownership.Templates.{resolve_ownership_target}
use arborist.Ownership.Bindings.Subjects.{ensure_owner_binding_for_target}
use arborist.Ownership.Bindings.Removal.{remove_owner_binding, delete_ownership_resource}

-- A request of the service itself, on behalf of a user.
abbrev pub service_request : Text → Text → Text → Text → AuthRequest
service_request username resource service method = record {
  username = username;
  client_id = [];
  policies = [];
  resource = resource;
  service = service;
  method = method;
}

-- An authorization that failed, was denied or was granted
abbrev pub required : Option Bool → Outcome
required none = err 500
required (some false) = err 403
required (some true) = ok tt

-- A refusal below 500 leads to the next test.
abbrev pub or_next : Outcome → Outcome → Outcome
or_next (ok a) next = ok tt
or_next (err c) next = if leb 500 c then err c else next

-- The work of one operation on the database, in the session of a transaction.
abbrev pub on_db : {D A : Type 0} → (D → Result A × D) → Session D → Result A × Session D
on_db f s = let r = f s.db in (r.0, record s { db = r.1 })

-- The bumps that follow the work; a bump of a resource does nothing.
abbrev pub touch : {D : Type 0} → (Registry → Registry) → Session D → Outcome × Session D
touch f s = (ok tt, record s { sets = f s.sets })

module _ (L : Ltree) (db : Db L.Label) (now : ℕ) where
  unfoldable pub authorize_create_descendant : Text → Text → Outcome
  authorize_create_descendant username parent_path = required (
      authorize_user_exact L db now
        (service_request username parent_path (codes "arborist") create_descendant_method))

  -- The rows that requireDirectOwner counts.
  unfoldable pub is_direct_owner : L.Label → Text → Bool
  is_direct_owner p username =
      any
        (λ b.
          b.subject_type == owner_subject_type
          && (to_lower b.subject_name == to_lower username
              && (b.kind == codes "owner"
                  && any (λ r. b.resource_id == r.id && L.path_beq r.path p) db.resource)))
        db.ownership_binding

  unfoldable pub require_direct_owner : Text → Text → Outcome
  require_direct_owner username resource_path =
      elim (L.text2ltree (format_path_for_db (clean_resource_path resource_path))) [
        | none ↦ err 500
        | some p ↦ if is_direct_owner p username then ok tt else err 403
      ]

  unfoldable pub require_authz_method : Text → Text → Text → Text → Outcome
  require_authz_method username resource_path service method =
      required (authorize_user L db now (service_request username resource_path service method))

  unfoldable pub require_ownership_control : Text → Text → Outcome
  require_ownership_control username resource_path =
      let path = clean_resource_path resource_path in
      or_next (require_direct_owner username path)
        (require_authz_method username path (codes "arborist") (codes "manage-owners"))

  unfoldable pub require_ownership_delete_control : Text → Text → Outcome
  require_ownership_delete_control username resource_path =
      let path = clean_resource_path resource_path in
      or_next (require_direct_owner username path) (
        or_next (require_authz_method username path (codes "arborist") (codes "manage-owners"))
          (or_next (require_authz_method username path (codes "*") (codes "delete")) (err 403)))

-- `control`, then a transaction with this body; a refusal changes nothing.
unfoldable pub guarded :
    {D R : Type 0}
    → Option (List (Text × ℕ) → R → R)
    → ℕ
    → Bool
    → Bool
    → Outcome
    → (ℕ → Change (Session D))
    → Change (World D R)
guarded exec tx begins commits control body w =
    after (control, w) λ _ w. transactify exec tx begins commits body w

module _ (L : Ltree) (outside : Outside L) where
  unfoldable pub add_owner_body : Text → Text → Text → ℕ → Change (Session (Db L.Label))
  add_owner_body caller path username tx s =
      after
        (on_db
          (λ db.
            after (resolve_ownership_target L outside db path, db)
              λ target db. ensure_owner_binding_for_target L target username caller db)
          s)
        λ _ s'.
          touch (λ sets. bump_subject tx owner_subject_type username (register_global tx sets)) s'

  unfoldable pub remove_owner_body : Text → Text → ℕ → Change (Session (Db L.Label))
  remove_owner_body path username tx s =
      after (on_db (remove_owner_binding L path username) s) λ _ s'.
        touch (λ sets. bump_subject tx owner_subject_type username (register_global tx sets)) s'

  unfoldable pub delete_resource_body : Text → ℕ → Change (Session (Db L.Label))
  delete_resource_body path tx s =
      after (on_db (delete_ownership_resource L path) s) λ _ s'. touch (register_global tx) s'

  module _ {R : Type 0} (exec : Option (List (Text × ℕ) → R → R)) (tx : ℕ) (begins commits : Bool)
      (now : ℕ) where
    unfoldable pub add_owner : Text → Text → Text → Change (World (Db L.Label) R)
    add_owner caller resource_path username w =
        let path = clean_resource_path resource_path in
        guarded exec tx begins commits (require_ownership_control L w.session.db now caller path)
          (add_owner_body caller path username) w

    unfoldable pub remove_owner : Text → Text → Text → Change (World (Db L.Label) R)
    remove_owner caller resource_path username w =
        let path = clean_resource_path resource_path in
        guarded exec tx begins commits (require_ownership_control L w.session.db now caller path)
          (remove_owner_body path username) w

    unfoldable pub delete_owned_resource : Text → Text → Change (World (Db L.Label) R)
    delete_owned_resource caller resource_path w =
        let path = clean_resource_path resource_path in
        if is_empty path || path == codes "/"
        then (err 400, w)
        else guarded exec tx begins commits
            (require_ownership_delete_control L w.session.db now caller path)
            (delete_resource_body path) w
