-- ===== src/Store/Principal/User/Bindings.antt =====
-- The policies and the groups of a user: the second half of internal/authz/store/principal/user.go.
use arborist.Base.{
  ℕ, Text, ◌&&◌, Option, none, some, ◌==◌, text_eq, nat_eq, if◌then◌else◌, is_empty,
}
use arborist.Base.Exec.{Outcome, Change, ok, err}
use arborist.Store.Schema.{Db}
use arborist.Store.Rows.{provider_fits, both, delete, upsert, equals_id}
use arborist.Store.Lookup.{select_usr_id, select_policy_id, select_grp_id}
use arborist.Engine.Request.{is_built_in}
use arborist.Store.Principal.User.{user_with_name}

module _ {P : Type 0} where
  -- The statement of grantUserPolicy; `none` is the refusal of a NULL key.
  unfoldable pub insert_usr_policy : Text → Text → Option ℕ → Option Text → Db P → Option (Db P)
  insert_usr_policy username policy_name expires_at authz_provider db =
      both (select_usr_id db username) (select_policy_id db policy_name) λ u p. some (record db {
        usr_policy =
            upsert (λ up. up.usr_id == u && up.policy_id == p)
              (λ up. record up { expires_at = expires_at })
              (record {
                usr_id = u;
                policy_id = p;
                expires_at = expires_at;
                authz_provider = authz_provider;
              })
              db.usr_policy;
      })

  -- What grantUserPolicy answers after a failed statement.
  unfoldable pub grant_user_failure : Text → Text → Db P → Outcome
  grant_user_failure username policy_name db = elim (user_with_name db username) [
    | none ↦ err 404
    | some u ↦ elim (select_policy_id db policy_name) [ none ↦ err 400 | some p ↦ ok tt ]
  ]

  unfoldable pub grant_user_policy : Text → Text → Option ℕ → Option Text → Change (Db P)
  grant_user_policy username policy_name expires_at authz_provider db =
      elim (insert_usr_policy username policy_name expires_at authz_provider db) [
        | none ↦ (grant_user_failure username policy_name db, db)
        | some db' ↦ (ok tt, db')
      ]

  unfoldable pub revoke_user_policy : Text → Text → Option Text → Change (Db P)
  revoke_user_policy username policy_name authz_provider db = (
    ok tt,
    record db {
      usr_policy =
          delete
            (λ up.
              equals_id (select_usr_id db username) up.usr_id
              && (equals_id (select_policy_id db policy_name) up.policy_id
                  && provider_fits authz_provider up.authz_provider))
            db.usr_policy;
    },
  )

  unfoldable pub revoke_user_policy_all : Text → Option Text → Change (Db P)
  revoke_user_policy_all username authz_provider db = (
    ok tt,
    record db {
      usr_policy =
          delete
            (λ up.
              equals_id (select_usr_id db username) up.usr_id
              && provider_fits authz_provider up.authz_provider)
            db.usr_policy;
    },
  )

  unfoldable pub insert_usr_grp : Text → Text → Option ℕ → Option Text → Db P → Option (Db P)
  insert_usr_grp username group_name expires_at authz_provider db =
      both (select_usr_id db username) (select_grp_id db group_name) λ u g. some (record db {
        usr_grp =
            upsert (λ ug. ug.usr_id == u && ug.grp_id == g)
              (λ ug. record ug { expires_at = expires_at })
              (record {
                usr_id = u;
                grp_id = g;
                expires_at = expires_at;
                authz_provider = authz_provider;
              })
              db.usr_grp;
      })

  unfoldable pub add_user_failure : Text → Text → Db P → Outcome
  add_user_failure username group_name db = elim (user_with_name db username) [
    | none ↦ err 400
    | some u ↦ elim (select_grp_id db group_name) [ none ↦ err 404 | some g ↦ ok tt ]
  ]

  unfoldable pub add_user_to_group : Text → Text → Option ℕ → Option Text → Change (Db P)
  add_user_to_group username group_name expires_at authz_provider db =
      if is_built_in group_name
      then (err 400, db)
      else if is_empty username
      then (err 400, db)
      else elim (insert_usr_grp username group_name expires_at authz_provider db) [
        | none ↦ (add_user_failure username group_name db, db)
        | some db' ↦ (ok tt, db')
      ]

  unfoldable pub remove_user_from_group : Text → Text → Option Text → Change (Db P)
  remove_user_from_group username group_name authz_provider db = (
    ok tt,
    record db {
      usr_grp =
          delete
            (λ ug.
              equals_id (select_usr_id db username) ug.usr_id
              && (equals_id (select_grp_id db group_name) ug.grp_id
                  && provider_fits authz_provider ug.authz_provider))
            db.usr_grp;
    },
  )
