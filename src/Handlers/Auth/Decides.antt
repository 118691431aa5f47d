-- ===== src/Handlers/Auth/Decides.antt =====
-- When POST /auth/request answers that the caller is authorized.
use arborist.Base.{ℕ, ◌≡◌, true, false, ◌&&◌, some, [], is_empty}
use arborist.Engine.Authorize.{authorize_user, authorize_client, authorize_anonymous}
use arborist.Store.Ltree.{Ltree}
use arborist.Store.Schema.{Db}
use arborist.Handlers.Auth.{RequestedAction, Caller, anonymous, caller, with_action}

module _ (L : Ltree) (db : Db L.Label) (now : ℕ) where
  -- What a caller may do. An anonymous one needs a grant to everybody. Otherwise a user or a client is
  -- named, and each of them that is named needs a grant.
  abbrev pub CallerMay : Caller → RequestedAction → Type 0
  CallerMay anonymous r = authorize_anonymous L db now (with_action [] [] [] r) ≡ some true
  CallerMay (caller username client_id policies token_policies) r =
      ((is_empty client_id && is_empty username) ≡ false)
      × (is_empty username ≡ false
          → authorize_user L db now (with_action username client_id policies r) ≡ some true)
      × (is_empty client_id ≡ false
          → authorize_client L db now (with_action username client_id policies r) ≡ some true)
