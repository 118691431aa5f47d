-- ===== src/Tests/Samples.antt =====
-- A small database for the tests.
use arborist.Base.{ℕ, Text, codes, ◌≡◌, refl, true, none, some, [], ◌∷◌}
use arborist.Core.Strings.{has_prefix, replace_all, query_escape, trim_left_by}
use arborist.Core.Paths.{underscore_encode, format_path_for_db}
use arborist.Store.Schema.{Db, ResourceRow}
use arborist.Engine.Request.{AuthRequest, anonymous_group, logged_in_group}
use arborist.Engine.Authorize.{target_of, at_path}

abbrev pub resource_row : ℕ → Text → Text → ResourceRow Text
resource_row i name p = record { id = i; tag = name; name = name; description = none; path = p }

-- `alice` reads below /programs/a until time 9, the group `staff` may do anything at /data, anonymous
-- callers read /open, and the client `c1` reads /programs.
abbrev pub sample_db : Db Text
sample_db = record {
  serial = 100;
  resource =
      resource_row 1 (codes "programs") (codes "programs")
      ∷ resource_row 2 (codes "a") (codes "programs.a")
      ∷ resource_row 3 (codes "b") (codes "programs.a.b")
      ∷ resource_row 4 (codes "open") (codes "open")
      ∷ resource_row 5 (codes "data") (codes "data")
      ∷ [];
  role =
      record { id = 1; name = codes "reader"; description = none }
      ∷ record { id = 2; name = codes "boss"; description = none }
      ∷ [];
  permission =
      record {
        role_id = 1;
        name = codes "read";
        service = codes "*";
        method = codes "read";
        constraints = [];
        description = none;
      }
      ∷ record {
        role_id = 2;
        name = codes "all";
        service = codes "*";
        method = codes "*";
        constraints = [];
        description = none;
      }
      ∷ [];
  policy =
      record { id = 1; name = codes "read-a"; description = none }
      ∷ record { id = 2; name = codes "open"; description = none }
      ∷ record { id = 3; name = codes "staff"; description = none }
      ∷ [];
  policy_role =
      record { policy_id = 1; role_id = 1 }
      ∷ record { policy_id = 2; role_id = 1 }
      ∷ record { policy_id = 3; role_id = 2 }
      ∷ [];
  policy_resource =
      record { policy_id = 1; resource_id = 2 }
      ∷ record { policy_id = 2; resource_id = 4 }
      ∷ record { policy_id = 3; resource_id = 5 }
      ∷ [];
  usr = record { id = 1; name = codes "Alice"; email = none } ∷ [];
  usr_policy =
      record { usr_id = 1; policy_id = 1; expires_at = some 9; authz_provider = none } ∷ [];
  client = record { id = 1; external_client_id = codes "c1" } ∷ [];
  client_policy = record { client_id = 1; policy_id = 1; authz_provider = none } ∷ [];
  grp =
      record { id = 1; name = anonymous_group }
      ∷ record { id = 2; name = logged_in_group }
      ∷ record { id = 3; name = codes "staff" }
      ∷ [];
  usr_grp = record { usr_id = 1; grp_id = 3; expires_at = none; authz_provider = none } ∷ [];
  grp_policy =
      record { grp_id = 1; policy_id = 2; authz_provider = none }
      ∷ record { grp_id = 3; policy_id = 3; authz_provider = none }
      ∷ [];
  ownership_template = [];
  generated_policy = [];
  ownership_binding = [];
}

abbrev pub asks : Text → Text → AuthRequest
asks resource method = record {
  username = codes "alice";
  client_id = codes "c1";
  policies = [];
  resource = resource;
  service = codes "svc";
  method = method;
}

pub label_a : format_path_for_db (codes "/programs/a") ≡ codes "programs.a"
unfolding format_path_for_db underscore_encode replace_all query_escape trim_left_by
label_a = refl

pub label_b : format_path_for_db (codes "/programs/a/b") ≡ codes "programs.a.b"
unfolding format_path_for_db underscore_encode replace_all query_escape trim_left_by
label_b = refl

pub label_open : format_path_for_db (codes "/open") ≡ codes "open"
unfolding format_path_for_db underscore_encode replace_all query_escape trim_left_by
label_open = refl

pub target_a : target_of (codes "/programs/a") ≡ at_path (format_path_for_db (codes "/programs/a"))
unfolding target_of format_path_for_db underscore_encode replace_all query_escape trim_left_by
    has_prefix
target_a = refl

pub target_b :
    target_of (codes "/programs/a/b") ≡ at_path (format_path_for_db (codes "/programs/a/b"))
unfolding target_of format_path_for_db underscore_encode replace_all query_escape trim_left_by
    has_prefix
target_b = refl

pub target_open : target_of (codes "/open") ≡ at_path (format_path_for_db (codes "/open"))
unfolding target_of format_path_for_db underscore_encode replace_all query_escape trim_left_by
    has_prefix
target_open = refl

pub slash_a : has_prefix (codes "/") (codes "/programs/a") ≡ true
unfolding has_prefix
slash_a = refl
