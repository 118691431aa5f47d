-- ===== src/Store/Principal/User.antt =====
-- internal/authz/store/principal/user.go. Each statement runs in a transaction of its own; the id of
-- a new row is the next one of the sequence.
pub mod Bindings
pub mod Grants
pub mod Revokes
use arborist.Base.{
  ℕ, ◌+◌, Text, Bool, false, not, ◌&&◌, ◌||◌, Option, none, some, List, [], ◌++◌, map, ◌==◌,
  text_eq, nat_eq, any, select, pick, first, join, if◌then◌else◌, is_empty,
}
use arborist.Base.Exec.{Outcome, Change, ok, err}
use arborist.Core.Strings.{to_lower}
use arborist.Store.Schema.{Db, UsrRow}
use arborist.Store.Rows.{provider_fits, both, delete, upsert, insert, equals_id}
use arborist.Store.Lookup.{unique, select_usr_id, select_policy_id, select_grp_id}
use arborist.Engine.Request.{is_built_in}

pub record PolicyBinding : Type 0 where
  pub policy : Text
  pub expires_at : Option ℕ

-- UserFromQuery, its column `policies` parsed
pub record UserFromQuery : Type 0 where
  pub id : ℕ
  pub name : Text
  pub email : Option Text
  pub groups : List Text
  pub policies : List PolicyBinding

pub record User : Type 0 where
  pub name : Text
  pub email : Text
  pub groups : List Text
  pub policies : List PolicyBinding

abbrev text_or_empty : Option Text → Text
text_or_empty none = []
text_or_empty (some t) = t

unfoldable pub standardize : UserFromQuery → User
standardize u = record {
  name = u.name;
  email = text_or_empty u.email;
  groups = u.groups;
  policies = u.policies;
}

module _ {P : Type 0} (db : Db P) where
  -- The names of a policy id, each with the time until which it counts.
  unfoldable pub named_policy : ℕ → Option ℕ → List PolicyBinding
  named_policy policy_id expires_at =
      pick (λ p. p.id == policy_id) (λ p. record { policy = p.name; expires_at = expires_at })
        db.policy

  -- The UNION `all_policies`. Double rows and the order are not modelled.
  unfoldable pub all_policies : ℕ → List PolicyBinding
  all_policies usr_id =
      join (select (λ up. up.usr_id == usr_id) db.usr_policy)
        (λ up. named_policy up.policy_id up.expires_at)
      ++ (join (select (λ ug. ug.usr_id == usr_id) db.usr_grp) (λ ug.
            join (select (λ gp. gp.grp_id == ug.grp_id) db.grp_policy)
              (λ gp. named_policy gp.policy_id ug.expires_at))
          ++ join (select (λ g. is_built_in g.name) db.grp) (λ g.
            join (select (λ gp. gp.grp_id == g.id) db.grp_policy)
              (λ gp. named_policy gp.policy_id none)))

  unfoldable pub user_from_query : UsrRow → UserFromQuery
  user_from_query u = record {
    id = u.id;
    name = u.name;
    email = u.email;
    groups = unique (
        pick
          (λ g. any (λ ug. ug.usr_id == u.id && ug.grp_id == g.id) db.usr_grp || is_built_in g.name)
          (λ g. g.name) db.grp);
    policies = all_policies u.id;
  }

  unfoldable pub user_with_name : Text → Option UserFromQuery
  user_with_name name = elim (first (λ u. to_lower u.name == to_lower name) db.usr) [
    | none ↦ none
    | some u ↦ some (user_from_query u)
  ]

  -- listUsersFromDb: the groups and the policies of the user's own rows.
  unfoldable pub list_users_from_db : List UserFromQuery
  list_users_from_db =
      map
        (λ u. record {
          id = u.id;
          name = u.name;
          email = u.email;
          groups = unique (
              pick (λ g. any (λ ug. ug.usr_id == u.id && ug.grp_id == g.id) db.usr_grp)
                (λ g. g.name) db.grp);
          policies =
              join (select (λ up. up.usr_id == u.id) db.usr_policy)
                (λ up. named_policy up.policy_id up.expires_at);
        })
        db.usr

abbrev coalesce : Option Text → Text → Text
coalesce none a = a
coalesce (some b) a = b

abbrev or_email : Option Text → Option Text → Option Text
or_email none e = e
or_email (some b) e = some b

-- UPDATE usr SET name = COALESCE($1, name), email = COALESCE($2, email) WHERE name = $3
abbrev updated : Option Text → Option Text → UsrRow → UsrRow
updated name email u = record u { name = coalesce name u.name; email = or_email email u.email }

-- The new name belongs to another user: the UNIQUE constraint refuses the statement.
abbrev name_taken : Text → Option Text → List UsrRow → Bool
name_taken old none rows = false
name_taken old (some new) rows = not (old == new) && any (λ u. u.name == new) rows

module _ {P : Type 0} where
  unfoldable pub create_user : User → Change (Db P)
  create_user user db =
      elim (insert (λ (u : UsrRow). u.name == user.name)
        (record { id = db.serial; name = user.name; email = some user.email }) db.usr) [
          | none ↦ (err 409, db)
          | some rows ↦ (ok tt, record db { usr = rows; serial = db.serial + 1 })
        ]

  unfoldable pub update_user : User → Option Text → Option Text → Change (Db P)
  update_user user name email db =
      if any (λ u. u.name == user.name) db.usr
      then (if name_taken user.name name db.usr then (err 409, db) else (
        ok tt,
        record db {
          usr = map (λ u. if u.name == user.name then updated name email u else u) db.usr;
        },
      ))
      else (err 404, db)

  -- ON DELETE CASCADE takes the rows of usr_policy and usr_grp along.
  unfoldable pub delete_user : User → Change (Db P)
  delete_user user db =
      let gone = select (λ u. u.name == user.name) db.usr in
      (
        ok tt,
        record db {
          usr = delete (λ u. u.name == user.name) db.usr;
          usr_policy = delete (λ up. any (λ u. u.id == up.usr_id) gone) db.usr_policy;
          usr_grp = delete (λ ug. any (λ u. u.id == ug.usr_id) gone) db.usr_grp;
        },
      )
