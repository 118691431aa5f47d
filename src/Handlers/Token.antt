-- ===== src/Handlers/Token.antt =====
-- internal/httpapi/token.go: from a token to the user, the client and the policies that it names.
use arborist.Base.{
  ℕ, Text, codes, Bool, not, Option, none, some, List, [], ◌∷◌, ◌==◌, nat_eq, text_eq, is_empty,
  if◌then◌else◌,
}
use arborist.Base.Exec.{Result, ok, err}
use arborist.Core.Strings.{to_lower, trim_space}
use arborist.Engine.Request.{TokenInfo}

-- A JSON value as encoding/json decodes it into an `interface{}`; numbers, Booleans and null are not
-- told apart.
mutual
  pub data Json : Type 0 where
    json_string : Text → Json
    json_array : JsonList → Json
    json_object : Fields → Json
    json_other : Json

  pub data JsonList : Type 0 where
    nil : JsonList
    cons : Json → JsonList → JsonList

  -- map[string]interface{}
  pub data Fields : Type 0 where
    no_fields : Fields
    field : Text → Json → Fields → Fields

unfoldable pub get : Text → Fields → Option Json
get key no_fields = none
get key (field k v rest) = if k == key then some v else get key rest

-- The type assertions; `none` is a value of another type.
abbrev pub as_object : Json → Option Fields
as_object (json_object fields) = some fields
as_object _ = none

abbrev pub as_string : Json → Option Text
as_string (json_string s) = some s
as_string _ = none

abbrev pub as_array : Json → Option JsonList
as_array (json_array items) = some items
as_array _ = none

unfoldable pub strings : JsonList → Option (List Text)
strings nil = some []
strings (cons v rest) = elim (as_string v) [
  | none ↦ none
  | some s ↦ elim (strings rest) [ none ↦ none | some ss ↦ some (s ∷ ss) ]
]

-- A field that has to be there, and one that may be missing.
abbrev pub required_field : {A : Type 0} → Text → (Json → Option A) → Fields → Option A
required_field key cast fields = elim (get key fields) [ none ↦ none | some v ↦ cast v ]

abbrev pub optional_field : {A : Type 0} → Text → A → (Json → Option A) → Fields → Option A
optional_field key default cast fields = elim (get key fields) [
  | none ↦ some default
  | some v ↦ cast v
]

abbrev pub then_cast : {A B : Type 0} → Option A → (A → Option B) → Option B
then_cast none f = none
then_cast (some a) f = f a

-- The name and the policies of the user. Without a list of policies there are none.
unfoldable pub user_of : Json → Option (Text × List Text)
user_of v = then_cast (as_object v) λ user.
    then_cast (required_field (codes "name") as_string user) λ name.
      then_cast (optional_field (codes "policies") [] (λ p. then_cast (as_array p) strings) user)
        λ policies. some (name, policies)

unfoldable pub token_info : Fields → Option TokenInfo
token_info claims = then_cast (required_field (codes "context") as_object claims) λ context.
    then_cast (optional_field (codes "user") ([], []) user_of context) λ user.
      then_cast (optional_field (codes "azp") [] as_string claims)
        λ client_id. some (record { username = user.0; client_id = client_id; policies = user.1 })

abbrev with_head : ℕ → Option (Text × Text) → Option (Text × Text)
with_head c none = none
with_head c (some (a, b)) = some (c ∷ a, b)

-- strings.Cut(s, " ")
unfoldable pub cut_space : Text → Option (Text × Text)
cut_space [] = none
cut_space (c ∷ s) = let rest = with_head c (cut_space s) in if c == 32 then some ([], s) else rest

-- `decode` is jwtApp.Decode, and `valid` tells whether Expected.Validate accepts the claims.
module _ (decode : Text → Option Fields) (valid : List Text → Fields → Bool) where
  unfoldable pub decode_token : Text → List Text → Option TokenInfo
  decode_token token scopes = elim (decode token) [
    | none ↦ none
    | some claims ↦ if valid scopes claims then token_info claims else none
  ]

  -- strings.EqualFold is modelled on ASCII letters.
  unfoldable pub username_from_bearer : Text → Result Text
  username_from_bearer header = if is_empty header then err 401 else elim (cut_space header) [
    | none ↦ err 401
    | some (scheme, token) ↦
        if not (to_lower scheme == codes "bearer")
        then err 401
        else elim (decode_token (trim_space token) []) [
          | none ↦ err 401
          | some info ↦ if is_empty info.username then err 401 else ok (to_lower info.username)
        ]
  ]
