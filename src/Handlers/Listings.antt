-- ===== src/Handlers/Listings.antt =====
-- internal/httpapi/auth_handlers.go: the auth mappings and the lists of resources.
use arborist.Base.{
  ℕ, Text, codes, Bool, true, false, not, Option, none, some, List, [], ◌∷◌, map, nat_eq, is_empty,
  if◌then◌else◌,
}
use arborist.Base.Exec.{Result, ok, err}
use arborist.Core.Strings.{to_lower}
use arborist.Engine.Request.{TokenInfo, anonymous_group}
use arborist.Engine.Mapping.{
  AuthMapping, auth_mapping_for_user, auth_mapping_for_groups, auth_mapping_for_client,
}
use arborist.Engine.Resources.{
  GetRequest, auth_request_from_get, ResourceFromQuery, authorized_resources,
  authorized_resources_for_groups,
}
use arborist.Store.Ltree.{Ltree}
use arborist.Store.Schema.{Db}
use arborist.Store.Resource.{ResourceOut, standardize_resource}
use arborist.Handlers.Auth.{AuthRequestUser, or_openid, bearer}

-- The body of POST /auth/mapping: an error of reading it, none, no JSON of that form, or the names.
pub data MappingBody : Type 0 where
  unreadable : ℕ → MappingBody
  no_body not_decoded : MappingBody
  names : Text → Text → MappingBody

-- `==` on Booleans
abbrev same_bool : Bool → Bool → Bool
same_bool true b = b
same_bool false b = not b

module _ (L : Ltree) (db : Db L.Label) (now : ℕ) where
  -- The mapping of the user, and that of the anonymous group when no user is named.
  abbrev mapping_of : Text → Result AuthMapping
  mapping_of username =
      if is_empty username
      then auth_mapping_for_groups L db now (anonymous_group ∷ [])
      else ok (auth_mapping_for_user L db now username)

  unfoldable pub handle_auth_mapping_get :
      (Text → List Text → Option TokenInfo) → Text → Result AuthMapping
  handle_auth_mapping_get decode authorization =
      if is_empty authorization
      then mapping_of []
      else elim (decode (bearer authorization) (codes "openid" ∷ [])) [
        | none ↦ err 400
        | some info ↦ mapping_of (to_lower info.username)
      ]

  abbrev mapping_of_either : Text → Text → Result AuthMapping
  mapping_of_either username client_id =
      if is_empty client_id
      then ok (auth_mapping_for_user L db now username)
      else ok (auth_mapping_for_client L db now client_id)

  -- A token with a user counts for the user, one without for its client.
  abbrev mapping_of_token : Option TokenInfo → Result AuthMapping
  mapping_of_token none = err 401
  mapping_of_token (some info) =
      if not (is_empty info.username)
      then mapping_of_either info.username []
      else if not (is_empty info.client_id)
      then mapping_of_either [] info.client_id
      else err 401

  abbrev mapping_of_body : MappingBody → Result AuthMapping
  mapping_of_body (unreadable c) = err c
  mapping_of_body no_body = auth_mapping_for_groups L db now (anonymous_group ∷ [])
  mapping_of_body not_decoded = err 400
  mapping_of_body (names username client_id) =
      if same_bool (is_empty username) (is_empty client_id)
      then err 400
      else mapping_of_either username client_id

  unfoldable pub handle_auth_mapping_post :
      (Text → List Text → Option TokenInfo) → Text → MappingBody → Result AuthMapping
  handle_auth_mapping_post decode authorization (unreadable c) = err c
  handle_auth_mapping_post decode authorization body =
      if is_empty authorization
      then mapping_of_body body
      else mapping_of_token (decode (bearer authorization) (codes "openid" ∷ []))

  -- The tags or the paths of the resources that were found.
  unfoldable pub make_auth_resources_response :
      Bool → Result (List (ResourceFromQuery L.Label)) → Result (List Text)
  make_auth_resources_response use_tags (err c) = err c
  make_auth_resources_response use_tags (ok resources) = ok (
      map (λ (r : ResourceOut). if use_tags then r.tag else r.path)
        (map (standardize_resource L) resources))

  unfoldable pub handle_list_auth_resources_get :
      (Text → List Text → Option TokenInfo) → Bool → GetRequest → Result (List Text)
  handle_list_auth_resources_get decode use_tags r =
      let anybody =
        make_auth_resources_response use_tags
          (authorized_resources_for_groups L db now (anonymous_group ∷ [])) in
      if is_empty r.authorization then anybody else elim (auth_request_from_get decode r) [
        | err c ↦ err c
        | ok request ↦
            if is_empty request.username
            then anybody
            else make_auth_resources_response use_tags (authorized_resources L db now request)
      ]

  -- `none` is a body that does not decode.
  unfoldable pub handle_list_auth_resources_post :
      (Text → List Text → Option TokenInfo) → Bool → Option AuthRequestUser → Result (List Text)
  handle_list_auth_resources_post decode use_tags none = err 400
  handle_list_auth_resources_post decode use_tags (some user) =
      elim (decode user.token (or_openid user.scopes)) [
        | none ↦ err 401
        | some info ↦ make_auth_resources_response use_tags (
            authorized_resources L db now (record {
              username = info.username;
              client_id = info.client_id;
              policies = [];
              resource = [];
              service = [];
              method = [];
            }))
      ]
