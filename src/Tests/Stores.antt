-- ===== src/Tests/Stores.antt =====
-- Tests of Store.
use arborist.Base.{
  ◌⊎◌, codes, Text, ◌≡◌, ◌≢◌, ◌↔◌, refl, true, none, some, List, [], ◌∷◌, text_beq, any, select,
  first, Elem, here, there, arith,
}
use arborist.Base.Exec.{Outcome, ok, err}
use arborist.Core.Strings.{to_lower, replace_all, query_escape, query_unescape, trim_left_by}
use arborist.Core.Paths.{underscore_encode, underscore_decode, format_path_for_db, format_db_path}
use arborist.Store.Schema.{Db, UsrRow, UsrPolicyRow, UsrGrpRow, PolicyRow, GeneratedPolicyRow}
use arborist.Store.Rows.{delete, lookup, insert, insert_all}
use arborist.Store.Lookup.{select_usr_id, select_policy_id, select_client_id, select_grp_id}
use arborist.Store.Principal.User.Bindings.{grant_user_policy, revoke_user_policy}
use arborist.Store.Principal.User.Grants.{
  KnownUser, KnownPolicy, grant_user_policy-UserHolds, grant_user_policy-ok,
  grant_user_policy-other_case,
}
use arborist.Store.Principal.User.Revokes.{Named, revoke_user_policy-rows}
use arborist.Store.Principal.Client.{grant_client_policy}
use arborist.Store.Principal.Client.Grants.{grant_client_policy-ClientHolds}
use arborist.Store.Principal.Group.{
  Group, users, policies, attach_users, attach_policies, attach_usr_and_policy, clear_group,
  overwrite_group,
}
use arborist.Store.Principal.Group.Attach.{Joins}
use arborist.Store.Principal.Group.Members.{Cleared, overwrite_group-members}
use arborist.Store.Policy.{
  Policy, validate, resources, roles, missing_resources, missing_roles, link_resources, link_roles,
  add_resources_and_roles, insert_policy, create_policy, delete_policy, update_policy,
}
use arborist.Store.Policy.Create.{Linked, create_policy-Linked}
use arborist.Store.Policy.Protected.{Describes, protected-refused}
use arborist.Engine.Request.{AuthRequest}
use arborist.Engine.Spec.{UserHolds, ClientHolds}
use arborist.Engine.Resources.{ResourceFromQuery, authorized_resources}
use arborist.Engine.Resources.Correct.{UserReaches, authorized_resources-UserReaches}
use arborist.Tests.Labels.{labels}
use arborist.Tests.Samples.{sample_db, asks}

alice : select_usr_id sample_db (codes "Alice") ≡ some 1
unfolding lookup first text_beq
alice = refl

open_policy : select_policy_id sample_db (codes "open") ≡ some 2
unfolding lookup first text_beq
open_policy = refl

c1 : select_client_id sample_db (codes "c1") ≡ some 1
unfolding lookup first text_beq
c1 = refl

knows_alice : KnownUser sample_db (codes "alice")
unfolding to_lower
knows_alice = (record { id = 1; name = codes "Alice"; email = none }, here refl, refl)

knows_open : KnownPolicy sample_db (codes "open")
knows_open = (record { id = 2; name = codes "open"; description = none }, there (here refl), refl)

no_lower_alice : (u : UsrRow) → Elem u sample_db.usr → u.name ≢ codes "alice"
no_lower_alice u (here e) = rw e (λ k. ground arith)
no_lower_alice u (there m) = elim m [ ]

grant_user_policy-UserHolds_example :
    ((grant_user_policy (codes "Alice") (codes "open") (some 9) none sample_db).0 ≡ ok tt)
    × UserHolds
        (grant_user_policy (codes "Alice") (codes "open") (some 9) none sample_db).1
        5
        (to_lower (codes "Alice"))
        2
grant_user_policy-UserHolds_example =
    grant_user_policy-UserHolds sample_db 5 (codes "Alice") (codes "open") (some 9) none 1 2 alice
      open_policy (omega arith)

grant_user_policy-ok_example :
    ((grant_user_policy (codes "alice") (codes "open") none none sample_db).0 ≡ ok tt)
    ↔ (KnownUser sample_db (codes "alice") × KnownPolicy sample_db (codes "open"))
grant_user_policy-ok_example =
    grant_user_policy-ok sample_db (codes "alice") (codes "open") none none

grant_user_policy-other_case_example :
    grant_user_policy (codes "alice") (codes "open") none none sample_db ≡ (ok tt, sample_db)
grant_user_policy-other_case_example =
    grant_user_policy-other_case sample_db (codes "alice") (codes "open") none none knows_alice
      knows_open no_lower_alice

abbrev granted_row : UsrPolicyRow
granted_row = record { usr_id = 1; policy_id = 1; expires_at = some 9; authz_provider = none }

revoke_user_policy-rows_example :
    ((revoke_user_policy (codes "Alice") (codes "read-a") none sample_db).0 ≡ ok tt)
    × (Elem granted_row
          (revoke_user_policy (codes "Alice") (codes "read-a") none sample_db).1.usr_policy
        ↔ (Elem granted_row sample_db.usr_policy
            × ¬ Named sample_db (codes "Alice") (codes "read-a") none granted_row))
revoke_user_policy-rows_example =
    revoke_user_policy-rows sample_db (codes "Alice") (codes "read-a") none granted_row

grant_client_policy-ClientHolds_example :
    ((grant_client_policy (codes "c1") (codes "open") none sample_db).0 ≡ ok tt)
    × ClientHolds (grant_client_policy (codes "c1") (codes "open") none sample_db).1 (codes "c1") 2
grant_client_policy-ClientHolds_example =
    grant_client_policy-ClientHolds sample_db (codes "c1") (codes "open") none 1 2 c1 open_policy

abbrev new_policy : Policy
new_policy = record {
  name = codes "new";
  description = [];
  resource_paths = codes "/programs/a" ∷ [];
  role_ids = codes "reader" ∷ [];
}

created : Outcome × Db Text
unfolding create_policy validate insert_policy add_resources_and_roles link_resources link_roles
    missing_resources missing_roles resources roles insert insert_all select any text_beq
    format_path_for_db format_db_path underscore_encode underscore_decode replace_all query_escape
    query_unescape trim_left_by
created = create_policy labels new_policy sample_db

created_lem : create_policy labels new_policy sample_db ≡ (ok tt, created.1)
unfolding created
created_lem = refl

create_policy-Linked_example :
    (p : PolicyRow) × Elem p created.1.policy
    × (p.name ≡ codes "new")
    × Linked labels new_policy p.id created.1
create_policy-Linked_example =
    create_policy-Linked labels new_policy sample_db created.1 created_lem

abbrev kept_row : GeneratedPolicyRow
kept_row = record {
  policy_id = 2;
  resource_id = 4;
  template_name = codes "t";
  kind = codes "owner";
  protected = true;
  created_by = codes "root";
}

abbrev guarded_db : Db Text
guarded_db = record sample_db { generated_policy = kept_row ∷ [] }

abbrev open_update : Policy
open_update = record new_policy { name = codes "open" }

all_protected :
    (other : GeneratedPolicyRow)
    → Elem other guarded_db.generated_policy
    → Describes guarded_db (codes "open") other
    → other.protected ≡ true
all_protected other (here e) d = rw e refl
all_protected other (there m) d = elim m [ ]

protected-refused_example :
    (delete_policy labels open_update guarded_db ≡ (err 403, guarded_db))
    × (update_policy labels open_update guarded_db ≡ (err 403, guarded_db))
protected-refused_example =
    protected-refused labels guarded_db open_update kept_row (here refl)
      (record { id = 2; name = codes "open"; description = none }, there (here refl), refl, refl)
      all_protected

abbrev alice_asks : AuthRequest
alice_asks = record (asks [] (codes "read")) { client_id = [] }

authorized_resources-UserReaches_example :
    (rows : List (ResourceFromQuery Text)) × (authorized_resources labels sample_db 5 alice_asks
      ≡ ok rows)
    × ((e : ResourceFromQuery Text)
        → Elem e rows
        → UserReaches labels sample_db 5 (codes "alice") e.row)
    × ((r : _)
        → UserReaches labels sample_db 5 (codes "alice") r
        → (e : ResourceFromQuery Text) × Elem e rows × (e.row.id ≡ r.id))
authorized_resources-UserReaches_example =
    authorized_resources-UserReaches labels sample_db 5 alice_asks refl refl

abbrev new_staff : Group
new_staff = record {
  name = codes "staff";
  users = codes "Alice" ∷ [];
  policies = codes "open" ∷ [];
}

staff : select_grp_id sample_db (codes "staff") ≡ some 3
unfolding lookup first text_beq
staff = refl

overwritten : Outcome × Db Text
unfolding overwrite_group attach_usr_and_policy attach_users attach_policies users policies
    clear_group lookup first delete insert insert_all select any text_beq
overwritten = overwrite_group new_staff none sample_db

overwritten_lem : overwrite_group new_staff none sample_db ≡ (ok tt, overwritten.1)
unfolding overwritten
overwritten_lem = refl

abbrev alice_in_staff : UsrGrpRow
alice_in_staff = record { usr_id = 1; grp_id = 3; expires_at = none; authz_provider = none }

overwrite_group-members_example : Elem alice_in_staff overwritten.1.usr_grp ↔ (
    (Elem alice_in_staff sample_db.usr_grp × ¬ Cleared 3 none alice_in_staff)
    ⊎ Joins new_staff 3 none sample_db alice_in_staff)
overwrite_group-members_example =
    overwrite_group-members new_staff none sample_db overwritten.1 3 alice_in_staff staff
      overwritten_lem
