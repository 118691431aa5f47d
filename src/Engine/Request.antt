-- ===== src/Engine/Request.antt =====
-- internal/authz/engine/request.go and the constants of internal/authz/core/types.go.
use arborist.Base.{Text, codes, List, Bool, ◌||◌, ◌==◌, text_eq}

-- core.Action
pub record Action : Type 0 where
  pub service : Text
  pub method : Text

abbrev pub create_descendant_method : Text
create_descendant_method = codes "create-descendant"

abbrev pub anonymous_group : Text
anonymous_group = codes "anonymous"

abbrev pub logged_in_group : Text
logged_in_group = codes "logged-in"

-- core.TokenInfo
pub record TokenInfo : Type 0 where
  pub username : Text
  pub client_id : Text
  pub policies : List Text

-- An AuthRequest without the handle to the prepared statements.
pub record AuthRequest : Type 0 where
  pub username : Text
  pub client_id : Text
  pub policies : List Text
  pub resource : Text
  pub service : Text
  pub method : Text

-- A group that is there from the start: `name IN ($2, $3)` and the tests of the principal store.
abbrev pub is_built_in : Text → Bool
is_built_in name = name == anonymous_group || name == logged_in_group
