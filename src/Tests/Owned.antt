-- ===== src/Tests/Owned.antt =====
-- A small database with an owned resource, for the tests.
use arborist.Base.{codes, Text, ◌≡◌, refl, false, none, some, [], ◌∷◌, ◌++◌, text_beq, here, there}
use arborist.Core.Strings.{
  trim_left_by, trim_by, trim_space, is_space, collapse_slashes, collapse_after,
}
use arborist.Core.Paths.{clean_resource_path}
use arborist.Store.Schema.{Db, OwnershipTemplate, OwnershipBindingRow, UsrPolicyRow}
use arborist.Ownership.{Outside}
use arborist.Ownership.Bindings.Grants.{NoneExpired}
use arborist.Tests.Labels.{labels}
use arborist.Tests.Samples.{resource_row}

abbrev program : OwnershipTemplate
program = record {
  name = codes "gen3-program";
  description = none;
  parent_path_pattern = codes "^/programs$";
  child_kind = codes "program";
  child_container_name = none;
  owner_role = codes "owner";
  admin_role = codes "administrator";
  default_admin_groups = [];
  grantable_roles = codes "owner" ∷ codes "reader" ∷ [];
}

-- Patterns without special characters; one template, so the order is that of the table.
abbrev pub around : Outside labels
around = record {
  matches = λ pattern path. some (text_beq pattern (codes "^" ++ path ++ codes "$"));
  order_by_name = λ templates. templates;
  new_tag = λ rows. codes "tag";
}

abbrev owner_binding : OwnershipBindingRow
owner_binding = record {
  subject_type = codes "user";
  subject_name = codes "alice";
  policy_id = 1;
  resource_id = 2;
  template_name = codes "gen3-program";
  kind = codes "owner";
  protected = false;
  created_by = codes "alice";
}

abbrev owner_grant : UsrPolicyRow
owner_grant = record { usr_id = 1; policy_id = 1; expires_at = none; authz_provider = none }

abbrev reader_grant : UsrPolicyRow
reader_grant = record { usr_id = 1; policy_id = 2; expires_at = none; authz_provider = none }

-- `alice` owns /programs/a and reads it directly.
abbrev pub owned_db : Db Text
owned_db = record {
  serial = 100;
  resource =
      resource_row 1 (codes "programs") (codes "programs")
      ∷ resource_row 2 (codes "a") (codes "programs.a")
      ∷ [];
  role =
      record { id = 1; name = codes "owner"; description = none }
      ∷ record { id = 2; name = codes "reader"; description = none }
      ∷ [];
  permission =
      record {
        role_id = 1;
        name = codes "owner_update";
        service = codes "*";
        method = codes "update";
        constraints = [];
        description = none;
      }
      ∷ [];
  policy =
      record { id = 1; name = codes "generated.owner.programs.a.owner"; description = none }
      ∷ record { id = 2; name = codes "direct.programs.a.reader"; description = none }
      ∷ [];
  policy_role = record { policy_id = 1; role_id = 1 } ∷ record { policy_id = 2; role_id = 2 } ∷ [];
  policy_resource =
      record { policy_id = 1; resource_id = 2 } ∷ record { policy_id = 2; resource_id = 2 } ∷ [];
  usr = record { id = 1; name = codes "alice"; email = none } ∷ [];
  usr_policy = owner_grant ∷ reader_grant ∷ [];
  client = [];
  client_policy = [];
  grp = [];
  usr_grp = [];
  grp_policy = [];
  ownership_template = program ∷ [];
  generated_policy =
      record {
        policy_id = 1;
        resource_id = 2;
        template_name = codes "gen3-program";
        kind = codes "owner";
        protected = false;
        created_by = codes "alice";
      }
      ∷ [];
  ownership_binding = owner_binding ∷ [];
}

pub clean_a : clean_resource_path (codes "/programs/a") ≡ codes "/programs/a"
unfolding clean_resource_path trim_space trim_by trim_left_by is_space collapse_slashes
    collapse_after
clean_a = refl

pub none_expired : (name : Text) → NoneExpired owned_db 5 name
none_expired name up (here e) s = rw e tt
none_expired name up (there (here e)) s = rw e tt
none_expired name up (there (there m)) s = elim m [ ]
