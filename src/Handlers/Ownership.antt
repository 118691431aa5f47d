-- ===== src/Handlers/Ownership.antt =====
-- internal/httpapi/ownership_handlers.go and access_handlers.go: the handlers that change who owns or may
-- use a resource. The body is given as it decodes, `none` when it does not.
use arborist.Base.{ℕ, Text, refl, Bool, Option, none, some, List, is_empty, if◌then◌else◌}
use arborist.Base.Exec.{Result, Outcome, Change, ok, err, after}
use arborist.Core.Paths.{clean_resource_path}
use arborist.Epoch.{Session, World, register_global, bump_subject, transactify}
use arborist.Epoch.Transactions.{transactify-AllOrNothing}
use arborist.Store.Ltree.{Ltree}
use arborist.Store.Schema.{Db}
use arborist.Ownership.{Outside, owner_subject_type}
use arborist.Ownership.Service.{
  on_db, touch, require_ownership_control, add_owner, remove_owner, delete_owned_resource,
}
use arborist.Ownership.Service.Create.{
  DescendantCreateRequest, DescendantCreateResponse, without_value, create_owned_descendant,
}
use arborist.Ownership.Service.Guarded.{Controlled, failed, answer-Controlled}
use arborist.Access.{AccessUserRequest, AccessUserResponse, normalize_access_user_request}
use arborist.Access.Grant.{grant_user_access}
use arborist.Access.Revoke.{revoke_user_access}

-- getAuthZProvider of the header X-AuthZ-Provider
unfoldable pub get_authz_provider : Text → Option Text
get_authz_provider header = if is_empty header then none else some header

pub record OwnerMutationRequest : Type 0 where
  pub resource_path : Text
  pub username : Text

-- The body decodes, and then the caller is known: an error of either answers.
abbrev with_caller :
    {B A W : Type 0} → Option B → Result Text → W → (B → Text → W → Result A × W) → Result A × W
with_caller none bearer w k = (err 400, w)
with_caller (some body) (err c) w k = (err c, w)
with_caller (some body) (ok caller) w k = k body caller w

-- `bearer` is what usernameFromBearer answers, see Handlers/Token.
module _ (L : Ltree) (outside : Outside L) {R : Type 0} (exec : Option (List (Text × ℕ) → R → R))
    (tx : ℕ) (begins commits : Bool) (now : ℕ) (bearer : Result Text) where
  unfoldable pub handle_ownership_resource_delete : Text → Change (World (Db L.Label) R)
  handle_ownership_resource_delete resource_path w =
      let path = clean_resource_path resource_path in
      if is_empty path
      then (err 400, w)
      else after (bearer, w)
          λ caller w. delete_owned_resource L outside exec tx begins commits now caller path w

  unfoldable pub handle_ownership_create_descendant :
      Option DescendantCreateRequest
      → World (Db L.Label) R
      → Result DescendantCreateResponse × World (Db L.Label) R
  handle_ownership_create_descendant body w = with_caller body bearer w λ request username w.
      create_owned_descendant L outside exec tx begins commits now username request w

  unfoldable pub handle_ownership_add_owner :
      Option OwnerMutationRequest → Change (World (Db L.Label) R)
  handle_ownership_add_owner body w = with_caller body bearer w λ request caller w.
      add_owner L outside exec tx begins commits now caller request.resource_path request.username w

  unfoldable pub handle_ownership_remove_owner :
      Option OwnerMutationRequest → Change (World (Db L.Label) R)
  handle_ownership_remove_owner body w = with_caller body bearer w λ request caller w.
      remove_owner L outside exec tx begins commits now caller request.resource_path
        request.username w

  -- The work on the database, and the bumps of the user.
  unfoldable pub access_body :
      (Db L.Label → Result AccessUserResponse × Db L.Label)
      → Text
      → ℕ
      → Session (Db L.Label)
      → Result AccessUserResponse × Session (Db L.Label)
  access_body work username tx s = after (on_db work s) λ response s'.
      after
        (touch (λ sets. bump_subject tx owner_subject_type username (register_global tx sets)) s')
        λ _ s''. (ok response, s'')

  -- What the two access handlers share: control of the resource, then a transaction.
  unfoldable pub change_access :
      (AccessUserRequest → Db L.Label → Result AccessUserResponse × Db L.Label)
      → Text
      → AccessUserRequest
      → World (Db L.Label) R
      → Result AccessUserResponse × World (Db L.Label) R
  change_access work caller request w =
      after (require_ownership_control L w.session.db now caller request.resource_path, w)
        λ _ w.
          let body = access_body (work request) request.username in
          after (transactify exec tx begins commits (λ t s. without_value (body t s)) w)
            λ _ w'. ((body tx w.session).0, w')

  -- `header` is X-AuthZ-Provider.
  unfoldable pub handle_access_grant_user :
      Text
      → Option AccessUserRequest
      → World (Db L.Label) R
      → Result AccessUserResponse × World (Db L.Label) R
  handle_access_grant_user header body w = with_caller body bearer w λ given caller w.
      change_access (λ request. grant_user_access L outside request (get_authz_provider header))
        caller (normalize_access_user_request given) w

  -- Revoking does not use the provider.
  unfoldable pub handle_access_revoke_user :
      Option AccessUserRequest
      → World (Db L.Label) R
      → Result AccessUserResponse × World (Db L.Label) R
  handle_access_revoke_user body w = with_caller body bearer w λ given caller w.
      change_access (λ request. revoke_user_access L now request) caller
        (normalize_access_user_request given) w

  -- A change of access succeeds only for a caller with control of the path of the request, and a failed
  -- one leaves the database and Redis as they were.
  pub change_access-Controlled :
      (work : AccessUserRequest → Db L.Label → Result AccessUserResponse × Db L.Label)
      (caller : Text) (request : AccessUserRequest) (w : World (Db L.Label) R)
      → Controlled
          (require_ownership_control L w.session.db now caller request.resource_path)
          w
          (change_access work caller request w)
  unfolding change_access
  change_access-Controlled work caller request w =
      by_control (require_ownership_control L w.session.db now caller request.resource_path)
    where
      body : ℕ → Session (Db L.Label) → Result AccessUserResponse × Session (Db L.Label)
      body = access_body (work request) request.username

      by_control :
          (control : Outcome)
          → Controlled control w (
              after
                (control, w)
                λ _ w.
                  after
                    (transactify exec tx begins commits (λ t s. without_value (body t s)) w)
                    λ _ w'. ((body tx w.session).0, w'))
      by_control (err c) = failed c w refl refl
      by_control (ok tt) =
          answer-Controlled exec tx begins commits (body tx w.session) w _
            (transactify-AllOrNothing exec tx begins commits (λ t s. without_value (body t s)) w)
