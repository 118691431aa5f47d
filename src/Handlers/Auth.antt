-- ===== src/Handlers/Auth.antt =====
-- internal/httpapi/auth_handlers.go: the decisions of the auth endpoints.
pub mod Decides
use arborist.Base.{
  ℕ, Text, codes, Bool, true, false, not, ◌&&◌, ◌||◌, Option, none, some, List, [], ◌∷◌, ◌++◌, map,
  ◌==◌, nat_eq, is_empty, if◌then◌else◌,
}
use arborist.Base.Exec.{Result, ok, err}
use arborist.Core.Strings.{to_lower}
use arborist.Engine.Request.{Action, AuthRequest, TokenInfo, anonymous_group}
use arborist.Engine.Authorize.{authorize_user, authorize_client, authorize_anonymous}
use arborist.Engine.Mapping.{
  AuthMapping, auth_mapping_for_user, auth_mapping_for_groups, auth_mapping_for_client,
}
use arborist.Engine.Resources.{
  GetRequest, auth_request_from_get, trim_prefix, ResourceFromQuery, authorized_resources,
  authorized_resources_for_groups,
}
use arborist.Store.Ltree.{Ltree}
use arborist.Store.Schema.{Db}
use arborist.Store.Resource.{ResourceOut, standardize_resource}

-- AuthRequestJSON_User, `none` for a list that is nil
pub record AuthRequestUser : Type 0 where
  pub token : Text
  pub user_id : Text
  pub policies : Option (List Text)
  pub scopes : Option (List Text)

-- AuthRequestJSON_Request; the constraints are never read.
pub record RequestedAction : Type 0 where
  pub resource : Text
  pub action : Action

pub record AuthRequestJson : Type 0 where
  pub user : AuthRequestUser
  pub request : Option RequestedAction
  pub requests : List RequestedAction

-- Who asks: nobody, or the user and the client of a token or of the body, with the policies that the
-- request is restricted to and those of the token.
pub data Caller : Type 0 where
  anonymous : Caller
  caller : Text → Text → List Text → List Text → Caller

abbrev pub or_openid : Option (List Text) → List Text
or_openid none = codes "openid" ∷ []
or_openid (some scopes) = scopes

abbrev or_policies : Option (List Text) → List Text → List Text
or_policies none policies = policies
or_policies (some chosen) policies = chosen

abbrev pub with_first : {A : Type 0} → Option A → List A → List A
with_first none xs = xs
with_first (some x) xs = x ∷ xs

-- An error of the engine is answered with 400.
abbrev pub or_bad_request : Option Bool → Result Bool
or_bad_request none = err 400
or_bad_request (some b) = ok b

-- `if rv.Auth && ...`: the second check is made only after the first has passed.
abbrev pub and_then : Result Bool → Result Bool → Result Bool
and_then (err c) next = err c
and_then (ok false) next = ok false
and_then (ok true) next = next

abbrev pub with_action : Text → Text → List Text → RequestedAction → AuthRequest
with_action username client_id policies r = record {
  username = username;
  client_id = client_id;
  policies = policies;
  resource = r.resource;
  service = r.action.service;
  method = r.action.method;
}

-- The token of the header `Authorization`
abbrev pub bearer : Text → Text
bearer header = trim_prefix (codes "bearer ") (trim_prefix (codes "Bearer ") header)

-- The loop over the requests: the first that is not granted ends it.
unfoldable pub each : (RequestedAction → Result Bool) → List RequestedAction → Result Bool
each check [] = ok true
each check (r ∷ rs) = and_then (check r) (each check rs)

module _ (decode : Text → List Text → Option TokenInfo) where
  unfoldable pub caller_of : AuthRequestUser → Result Caller
  caller_of user =
      if is_empty user.user_id && is_empty user.token
      then ok anonymous
      else if is_empty user.token
      then ok (caller user.user_id [] (or_policies user.policies []) [])
      else elim (decode user.token (or_openid user.scopes)) [
        | none ↦ err 401
        | some info ↦ ok (
            caller info.username info.client_id (or_policies user.policies info.policies)
              info.policies)
      ]

module _ (L : Ltree) (db : Db L.Label) (now : ℕ) where
  -- The user, if one is named, and then the client, if one is named.
  unfoldable pub authorize_both : AuthRequest → Result Bool
  authorize_both request =
      and_then
        (if is_empty request.username
          then ok true
          else or_bad_request (authorize_user L db now request))
        (if is_empty request.client_id
          then ok true
          else or_bad_request (authorize_client L db now request))

  unfoldable pub authorize_action : Caller → RequestedAction → Result Bool
  authorize_action anonymous r =
      or_bad_request (authorize_anonymous L db now (with_action [] [] [] r))
  authorize_action (caller username client_id policies token_policies) r =
      if is_empty client_id && is_empty username
      then (if is_empty token_policies then err 400 else err 403)
      else authorize_both (with_action username client_id policies r)

  -- The answer `auth` with status 200, or an error. `none` is a body that does not decode.
  unfoldable pub handle_auth_request :
      (Text → List Text → Option TokenInfo) → Option AuthRequestJson → Result Bool
  handle_auth_request decode none = err 400
  handle_auth_request decode (some body) = elim (caller_of decode body.user) [
    | err c ↦ err c
    | ok who ↦
        if is_empty (with_first body.request body.requests)
        then err 400
        else each (authorize_action who) (with_first body.request body.requests)
  ]

  -- The last error that is found is the one that is answered; all are 400.
  unfoldable pub proxy_decision : AuthRequest → Result Bool
  proxy_decision request =
      if is_empty request.resource || is_empty request.service || is_empty request.method
      then err 400
      else if is_empty request.username && is_empty request.client_id
      then err 403
      else authorize_both request

  -- A granted request is answered with 200.
  unfoldable pub handle_auth_proxy :
      (Text → List Text → Option TokenInfo) → GetRequest → Result Bool
  handle_auth_proxy decode r = elim (auth_request_from_get decode r) [
    | err c ↦ err c
    | ok request ↦ elim (proxy_decision request) [
      | err c ↦ err c
      | ok false ↦ err 403
      | ok true ↦ ok true
    ]
  ]
