-- ===== src/Store/Principal/Group.antt =====
-- internal/authz/store/principal/group.go. The functions that take a `tx` are steps of a transaction:
-- what they wrote before an error, the caller rolls back.
pub mod Attach
pub mod Members
use arborist.Base.{
  ℕ, ◌+◌, Text, Bool, ◌&&◌, Option, none, some, List, map, ◌==◌, text_eq, nat_eq, any, select, pick,
  first, join, if◌then◌else◌, length, ltb,
}
use arborist.Base.Exec.{Outcome, Change, ok, err, after}
use arborist.Core.Strings.{to_lower}
use arborist.Store.Schema.{Db, GrpRow, UsrRow, PolicyRow, UsrGrpRow, GrpPolicyRow}
use arborist.Store.Rows.{provider_fits, both, delete, insert, equals_id, insert_all}
use arborist.Store.Lookup.{unique, select_grp_id, select_policy_id}
use arborist.Engine.Request.{is_built_in}

-- Group and GroupFromQuery have the same columns.
pub record Group : Type 0 where
  pub name : Text
  pub users : List Text
  pub policies : List Text

abbrev pub same_usr_grp : UsrGrpRow → UsrGrpRow → Bool
same_usr_grp a b = a.usr_id == b.usr_id && a.grp_id == b.grp_id

abbrev pub same_grp_policy : GrpPolicyRow → GrpPolicyRow → Bool
same_grp_policy a b = a.grp_id == b.grp_id && a.policy_id == b.policy_id

module _ {P : Type 0} (db : Db P) where
  unfoldable pub group_from_query : GrpRow → Group
  group_from_query g = record {
    name = g.name;
    users = unique (
        join (select (λ ug. ug.grp_id == g.id) db.usr_grp)
          λ ug. pick (λ u. u.id == ug.usr_id) (λ u. to_lower u.name) db.usr);
    policies = unique (
        join (select (λ gp. gp.grp_id == g.id) db.grp_policy)
          λ gp. pick (λ p. p.id == gp.policy_id) (λ p. p.name) db.policy);
  }

  unfoldable pub group_with_name : Text → Option Group
  group_with_name name = elim (first (λ g. g.name == name) db.grp) [
    | none ↦ none
    | some g ↦ some (group_from_query g)
  ]

  unfoldable pub list_groups_from_db : List Group
  list_groups_from_db = map group_from_query db.grp

  -- The methods `users` and `policies` of a group: the rows that its lists name.
  unfoldable pub users : Group → List UsrRow
  users group = select (λ u. any (λ n. u.name == n) group.users) db.usr

  unfoldable pub policies : Group → List PolicyRow
  policies group = select (λ p. any (λ n. p.name == n) group.policies) db.policy

module _ {P : Type 0} where
  unfoldable pub attach_users : Group → ℕ → Option Text → Change (Db P)
  attach_users group group_id authz_provider db =
      if ltb 0 (length group.users)
      then (if ltb (length (users db group)) (length group.users)
          then (err 400, db)
          else elim (insert_all same_usr_grp
              (map
                (λ u. record {
                  usr_id = u.id;
                  grp_id = group_id;
                  expires_at = none;
                  authz_provider = authz_provider;
                })
                (users db group))
              db.usr_grp) [
                | none ↦ (err 500, db)
                | some rows ↦ (ok tt, record db { usr_grp = rows })
              ])
      else (ok tt, db)

  unfoldable pub attach_policies : Group → ℕ → Option Text → Change (Db P)
  attach_policies group group_id authz_provider db =
      if ltb 0 (length group.policies)
      then (if ltb (length (policies db group)) (length group.policies)
          then (err 400, db)
          else elim (insert_all same_grp_policy
              (map
                (λ p. record {
                  grp_id = group_id;
                  policy_id = p.id;
                  authz_provider = authz_provider;
                })
                (policies db group))
              db.grp_policy) [
                | none ↦ (err 500, db)
                | some rows ↦ (ok tt, record db { grp_policy = rows })
              ])
      else (ok tt, db)

  unfoldable pub attach_usr_and_policy : Group → ℕ → Option Text → Change (Db P)
  attach_usr_and_policy group group_id authz_provider db =
      after (attach_users group group_id authz_provider db)
        λ _ db'. attach_policies group group_id authz_provider db'

  unfoldable pub create_group : Group → Option Text → Change (Db P)
  create_group group authz_provider db =
      elim (insert (λ (g : GrpRow). g.name == group.name)
        (record { id = db.serial; name = group.name }) db.grp) [
          | none ↦ (err 409, db)
          | some rows ↦
              attach_usr_and_policy group db.serial authz_provider
                (record db { grp = rows; serial = db.serial + 1 })
        ]

  -- ON DELETE CASCADE takes the rows of usr_grp and grp_policy along.
  unfoldable pub delete_group : Group → Change (Db P)
  delete_group group db =
      if is_built_in group.name
      then (err 400, db)
      else let gone = select (λ g. g.name == group.name) db.grp in
        (
          ok tt,
          record db {
            grp = delete (λ g. g.name == group.name) db.grp;
            usr_grp = delete (λ ug. any (λ g. g.id == ug.grp_id) gone) db.usr_grp;
            grp_policy = delete (λ gp. any (λ g. g.id == gp.grp_id) gone) db.grp_policy;
          },
        )

  -- The two DELETE statements of overwriteInDb.
  unfoldable pub clear_group : ℕ → Option Text → Db P → Db P
  clear_group group_id authz_provider db = record db {
    usr_grp =
        delete (λ ug. ug.grp_id == group_id && provider_fits authz_provider ug.authz_provider)
          db.usr_grp;
    grp_policy =
        delete (λ gp. gp.grp_id == group_id && provider_fits authz_provider gp.authz_provider)
          db.grp_policy;
  }

  unfoldable pub overwrite_group : Group → Option Text → Change (Db P)
  overwrite_group group authz_provider db = elim (select_grp_id db group.name) [
    | none ↦ create_group group authz_provider db
    | some i ↦ attach_usr_and_policy group i authz_provider (clear_group i authz_provider db)
  ]

  -- `none` is the refusal of a NULL key or of a key that exists.
  unfoldable pub insert_grp_policy : Text → Text → Option Text → Db P → Option (List GrpPolicyRow)
  insert_grp_policy group_name policy_name authz_provider db =
      both (select_grp_id db group_name) (select_policy_id db policy_name) λ g p.
        insert (λ gp. gp.grp_id == g && gp.policy_id == p)
          (record { grp_id = g; policy_id = p; authz_provider = authz_provider }) db.grp_policy

  -- What grantGroupPolicy answers after a failed statement.
  unfoldable pub grant_group_failure : Text → Text → Db P → Outcome
  grant_group_failure group_name policy_name db = elim (group_with_name db group_name) [
    | none ↦ err 404
    | some g ↦ elim (select_policy_id db policy_name) [ none ↦ err 400 | some p ↦ ok tt ]
  ]

  unfoldable pub grant_group_policy : Text → Text → Option Text → Change (Db P)
  grant_group_policy group_name policy_name authz_provider db =
      elim (insert_grp_policy group_name policy_name authz_provider db) [
        | none ↦ (grant_group_failure group_name policy_name db, db)
        | some rows ↦ (ok tt, record db { grp_policy = rows })
      ]

  unfoldable pub revoke_group_policy : Text → Text → Option Text → Change (Db P)
  revoke_group_policy group_name policy_name authz_provider db = (
    ok tt,
    record db {
      grp_policy =
          delete
            (λ gp.
              equals_id (select_grp_id db group_name) gp.grp_id
              && (equals_id (select_policy_id db policy_name) gp.policy_id
                  && provider_fits authz_provider gp.authz_provider))
            db.grp_policy;
    },
  )
