-- ===== src/Tests/Handlers.antt =====
-- Tests of Handlers.
use arborist.Base.{codes, Text, ◌≡◌, refl, true, Option, none, some, List, [], ◌∷◌, text_beq}
use arborist.Engine.Request.{TokenInfo}
use arborist.Handlers.Token.{
  json_string, json_array, json_object, nil, cons, Fields, no_fields, field, get, strings, user_of,
  token_info, decode_token,
}
use arborist.Handlers.Auth.{AuthRequestJson, RequestedAction, Caller, caller}

-- The claims of a token of `alice` for the client `c1`.
abbrev claims : Fields
claims = field (codes "azp") (json_string (codes "c1")) (
    field (codes "context")
      (json_object (
        field (codes "user")
          (json_object (
            field (codes "name") (json_string (codes "Alice")) (
              field (codes "policies") (json_array (cons (json_string (codes "read-a")) nil))
                no_fields)))
          no_fields))
      no_fields)

abbrev decode : Text → List Text → Option TokenInfo
decode = decode_token (λ token. some claims) (λ scopes fields. true)

token_lem :
    decode (codes "t") []
    ≡ some (record {
      username = codes "Alice";
      client_id = codes "c1";
      policies = codes "read-a" ∷ [];
    })
unfolding decode_token token_info user_of get strings text_beq
token_lem = refl

abbrev reads : Text → RequestedAction
reads resource = record {
  resource = resource;
  action = record { service = codes "svc"; method = codes "read" };
}

abbrev by_token : AuthRequestJson
by_token = record {
  user = record { token = codes "t"; user_id = []; policies = none; scopes = none };
  request = some (reads (codes "/programs/a"));
  requests = reads (codes "/programs/a/b") ∷ [];
}

abbrev alice : Caller
alice = caller (codes "Alice") (codes "c1") (codes "read-a" ∷ []) (codes "read-a" ∷ [])
