-- ===== src/Store/Principal/Client.antt =====
-- internal/authz/store/principal/client.go
pub mod Grants
use arborist.Base.{
  ℕ, ◌+◌, Text, not, ◌&&◌, Option, none, some, List, [], ◌∷◌, ◌++◌, map, ◌==◌, text_eq, nat_eq, any,
  select, pick, first, join,
}
use arborist.Base.Exec.{Outcome, Change, ok, err}
use arborist.Store.Schema.{Db, ClientRow, ClientPolicyRow}
use arborist.Store.Rows.{provider_fits, both, delete, insert, equals_id}
use arborist.Store.Lookup.{unique, select_client_id, select_policy_id}

-- Client and ClientFromQuery have the same columns.
pub record Client : Type 0 where
  pub client_id : Text
  pub policies : List Text

module _ {P : Type 0} (db : Db P) where
  unfoldable pub client_from_query : ClientRow → Client
  client_from_query c = record {
    client_id = c.external_client_id;
    policies = unique (
        join (select (λ cp. cp.client_id == c.id) db.client_policy)
          λ cp. pick (λ p. p.id == cp.policy_id) (λ p. p.name) db.policy);
  }

  unfoldable pub client_with_client_id : Text → Option Client
  client_with_client_id client_id =
      elim (first (λ c. c.external_client_id == client_id) db.client) [
        | none ↦ none
        | some c ↦ some (client_from_query c)
      ]

  unfoldable pub list_clients_from_db : List Client
  list_clients_from_db = map client_from_query db.client

module _ {P : Type 0} where
  -- `SELECT id, name FROM policy WHERE name = ANY($1)` and the rows that it inserts
  unfoldable pub granted_rows : ℕ → List Text → Option Text → Db P → List ClientPolicyRow
  granted_rows id names authz_provider db =
      pick (λ p. any (λ n. p.name == n) names)
        (λ p. record { client_id = id; policy_id = p.id; authz_provider = authz_provider })
        db.policy

  -- The names that stay in `remaining`.
  unfoldable pub missing_policies : List Text → Db P → List Text
  missing_policies names db = select (λ n. not (any (λ p. p.name == n) db.policy)) names

  unfoldable pub create_client : Client → Option Text → Change (Db P)
  create_client client authz_provider db =
      elim (insert (λ (c : ClientRow). c.external_client_id == client.client_id)
        (record { id = db.serial; external_client_id = client.client_id }) db.client) [
          | none ↦ (err 409, db)
          | some rows ↦ elim (missing_policies client.policies db) [
            | [] ↦ (
              ok tt,
              record db {
                client = rows;
                client_policy =
                    db.client_policy ++ granted_rows db.serial client.policies authz_provider db;
                serial = db.serial + 1;
              },
            )
            | _ ∷ _ ↦ (err 404, db)
          ]
        ]

  -- ON DELETE CASCADE takes the rows of client_policy along.
  unfoldable pub delete_client : Client → Change (Db P)
  delete_client client db =
      let gone = select (λ c. c.external_client_id == client.client_id) db.client in
      (
        ok tt,
        record db {
          client = delete (λ c. c.external_client_id == client.client_id) db.client;
          client_policy = delete (λ cp. any (λ c. c.id == cp.client_id) gone) db.client_policy;
        },
      )

  -- `none` is the refusal of a NULL key or of a key that exists.
  unfoldable pub insert_client_policy :
      Text → Text → Option Text → Db P → Option (List ClientPolicyRow)
  insert_client_policy client_id policy_name authz_provider db =
      both (select_client_id db client_id) (select_policy_id db policy_name) λ c p.
        insert (λ cp. cp.client_id == c && cp.policy_id == p)
          (record { client_id = c; policy_id = p; authz_provider = authz_provider })
          db.client_policy

  -- What grantClientPolicy answers after a failed statement.
  unfoldable pub grant_client_failure : Text → Text → Db P → Outcome
  grant_client_failure client_id policy_name db = elim (client_with_client_id db client_id) [
    | none ↦ err 404
    | some c ↦ elim (select_policy_id db policy_name) [ none ↦ err 404 | some p ↦ ok tt ]
  ]

  unfoldable pub grant_client_policy : Text → Text → Option Text → Change (Db P)
  grant_client_policy client_id policy_name authz_provider db =
      elim (insert_client_policy client_id policy_name authz_provider db) [
        | none ↦ (grant_client_failure client_id policy_name db, db)
        | some rows ↦ (ok tt, record db { client_policy = rows })
      ]

  unfoldable pub revoke_client_policy : Text → Text → Option Text → Change (Db P)
  revoke_client_policy client_id policy_name authz_provider db = (
    ok tt,
    record db {
      client_policy =
          delete
            (λ cp.
              equals_id (select_client_id db client_id) cp.client_id
              && (equals_id (select_policy_id db policy_name) cp.policy_id
                  && provider_fits authz_provider cp.authz_provider))
            db.client_policy;
    },
  )

  unfoldable pub revoke_client_policy_all : Text → Option Text → Change (Db P)
  revoke_client_policy_all client_id authz_provider db = (
    ok tt,
    record db {
      client_policy =
          delete
            (λ cp.
              equals_id (select_client_id db client_id) cp.client_id
              && provider_fits authz_provider cp.authz_provider)
            db.client_policy;
    },
  )
