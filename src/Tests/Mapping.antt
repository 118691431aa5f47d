-- ===== src/Tests/Mapping.antt =====
-- Tests of Engine.Mapping.
use arborist.Base.{
  codes, Text, ℕ, true, ◌≡◌, ◌↔◌, ◌≢◌, refl, ◌∙◌, sym, some, [], text_beq, any, select, pick, join,
  Elem, here, there, arith,
}
use arborist.Core.Strings.{
  has_prefix, replace_all, query_escape, query_unescape, trim_left_by, to_lower,
}
use arborist.Core.Paths.{underscore_encode, underscore_decode, format_path_for_db, format_db_path}
use arborist.Core.Paths.Absolute.{IsAbsolute}
use arborist.Core.Paths.Tokens.{Bytes}
use arborist.Store.Schema.{ResourceRow}
use arborist.Engine.Request.{Action, create_descendant_method}
use arborist.Engine.Grants.{
  permits, in_filter, direct_policies, member_policies, group_policies, user_policies,
  policy_resources,
}
use arborist.Engine.Spec.{Fits}
use arborist.Engine.Authorize.{
  authorize_user, authorize_user_with_resource_matcher, policy_grants, target_of,
}
use arborist.Engine.Mapping.{
  same_row, distinct, add_action, collect, is_create_descendant, reaches, policy_permissions,
  mapping_rows, auth_mapping_for_user,
}
use arborist.Engine.Mapping.Collect.{actions_at}
use arborist.Engine.Mapping.Correct.{UserMaps, auth_mapping_for_user-UserMaps}
use arborist.Engine.Mapping.Agrees.{
  IsStored, asking, auth_mapping-authorize_user, authorize_user-auth_mapping,
}
use arborist.Tests.Labels.{labels, labels-IsLawful, below}
use arborist.Tests.Samples.{sample_db, resource_row, label_a}

abbrev reading : Action
reading = record { service = codes "*"; method = codes "read" }

listed_b :
    Elem reading (
      actions_at (codes "/programs/a/b") (auth_mapping_for_user labels sample_db 5 (codes "ALICE")))
unfolding auth_mapping_for_user mapping_rows policy_permissions reaches is_create_descendant collect
    add_action distinct same_row direct_policies member_policies group_policies user_policies
    policy_resources select join pick any text_beq to_lower below has_prefix format_db_path
    underscore_decode replace_all query_unescape
listed_b = here refl

stored :
    (i : ℕ) (tag label shown : Text)
    → Bytes shown
    → IsAbsolute shown
    → label ≡ format_path_for_db shown
    → label ≢ []
    → IsStored labels labels-IsLawful sample_db 5 (resource_row i tag label)
stored i tag label shown b a e n = record {
  shown = shown;
  bytes = b;
  absolute = a;
  label = e;
  proper = λ k. n (e ∙ k);
}

label_programs : codes "programs" ≡ format_path_for_db (codes "/programs")
unfolding format_path_for_db underscore_encode replace_all query_escape trim_left_by
label_programs = refl

label_deep : codes "programs.a.b" ≡ format_path_for_db (codes "/programs/a/b")
unfolding format_path_for_db underscore_encode replace_all query_escape trim_left_by
label_deep = refl

label_open' : codes "open" ≡ format_path_for_db (codes "/open")
unfolding format_path_for_db underscore_encode replace_all query_escape trim_left_by
label_open' = refl

label_data : codes "data" ≡ format_path_for_db (codes "/data")
unfolding format_path_for_db underscore_encode replace_all query_escape trim_left_by
label_data = refl

stored_a :
    IsStored labels labels-IsLawful sample_db 5 (resource_row 2 (codes "a") (codes "programs.a"))
stored_a =
    stored 2 (codes "a") (codes "programs.a") (codes "/programs/a") (omega arith) (omega arith)
      (sym label_a) (λ k. cc)

all_stored :
    (r : ResourceRow Text)
    → Elem r sample_db.resource
    → IsStored labels labels-IsLawful sample_db 5 r
all_stored r (here e) = rw e (
    stored 1 (codes "programs") (codes "programs") (codes "/programs") (omega arith) (omega arith)
      label_programs (λ k. cc))
all_stored r (there (here e)) = rw e stored_a
all_stored r (there (there (here e))) = rw e (
    stored 3 (codes "b") (codes "programs.a.b") (codes "/programs/a/b") (omega arith) (omega arith)
      label_deep (λ k. cc))
all_stored r (there (there (there (here e)))) = rw e (
    stored 4 (codes "open") (codes "open") (codes "/open") (omega arith) (omega arith) label_open'
      (λ k. cc))
all_stored r (there (there (there (there (here e))))) = rw e (
    stored 5 (codes "data") (codes "data") (codes "/data") (omega arith) (omega arith) label_data
      (λ k. cc))
all_stored r (there (there (there (there (there m))))) = elim m [ ]

auth_mapping_for_user-UserMaps_example :
    Elem reading (
      actions_at (codes "/programs/a/b") (auth_mapping_for_user labels sample_db 5 (codes "ALICE")))
    ↔ ((r : ResourceRow Text) × Elem r sample_db.resource
        × (format_db_path r.path ≡ codes "/programs/a/b")
        × UserMaps labels labels-IsLawful sample_db 5 (codes "ALICE") reading r)
auth_mapping_for_user-UserMaps_example =
    auth_mapping_for_user-UserMaps labels labels-IsLawful sample_db 5 (codes "ALICE")
      (codes "/programs/a/b") reading

auth_mapping-authorize_user_example :
    authorize_user labels sample_db 5
      (asking labels labels-IsLawful sample_db 5 (codes "ALICE") (codes "/programs/a/b") reading)
    ≡ some true
auth_mapping-authorize_user_example =
    auth_mapping-authorize_user labels labels-IsLawful sample_db 5 all_stored (codes "ALICE")
      (codes "/programs/a/b") reading listed_b

not_creating :
    ¬ ((reading.service ≡ codes "arborist") × (reading.method ≡ create_descendant_method))
not_creating (e, f) = cc

reads_a :
    authorize_user labels sample_db 5
      (asking labels labels-IsLawful sample_db 5 (codes "ALICE") (codes "/programs/a") reading)
    ≡ some true
unfolding authorize_user authorize_user_with_resource_matcher policy_grants target_of has_prefix
    underscore_encode format_path_for_db replace_all query_escape trim_left_by to_lower
    direct_policies member_policies group_policies user_policies permits in_filter policy_resources
    text_beq any select pick join below
reads_a = refl

authorize_user-auth_mapping_example :
    (listed : Action) × Elem listed
      (actions_at (codes "/programs/a") (auth_mapping_for_user labels sample_db 5 (codes "ALICE")))
    × Fits listed.service reading.service
    × Fits listed.method reading.method
unfolding stored_a stored
authorize_user-auth_mapping_example =
    authorize_user-auth_mapping labels labels-IsLawful sample_db 5 (codes "ALICE") reading
      (resource_row 2 (codes "a") (codes "programs.a")) (there (here refl)) stored_a not_creating
      reads_a
