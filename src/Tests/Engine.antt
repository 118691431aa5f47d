-- ===== src/Tests/Engine.antt =====
-- Tests of Engine.
use arborist.Base.{
  codes, ◌≡◌, ◌≢◌, ◌↔◌, refl, ap, Bool, true, false, Option, none, some, [], ◌∷◌, text_beq, any,
  select, pick, join, Elem, here, there,
}
use arborist.Core.Strings.{has_prefix, replace_all, query_escape, trim_left_by, to_lower}
use arborist.Core.Paths.{underscore_encode, format_path_for_db}
use arborist.Store.Ltree.{descends_agg}
use arborist.Engine.Request.{AuthRequest}
use arborist.Engine.Grants.{
  direct_policies, member_policies, group_policies, user_policies, client_policies, permits,
  in_filter, policy_resources,
}
use arborist.Engine.Authorize.{
  target_of, policy_grants, authorize_user_with_resource_matcher, authorize_user,
  authorize_user_exact, authorize_client, client_paths, authorize_anonymous, anonymous_paths,
}
use arborist.Engine.Authorize.Correct.{
  UserMay, authorize_user-UserMay, authorize_user_exact-UserMay,
  authorize_user_exact-authorize_user, authorize_user-descends,
}
use arborist.Engine.Authorize.Arrays.{ClientMay, authorize_client-ClientMay}
use arborist.Engine.Authorize.Anonymous.{
  AnonymousMay, AnonymousAttached, authorize_anonymous-AnonymousMay,
  authorize_anonymous-authorize_user,
}
use arborist.Engine.Spec.Holds.{group_policies-of}
use arborist.Engine.Request.{anonymous_group}
use arborist.Tests.Labels.{labels, labels-IsLawful, below}
use arborist.Tests.Samples.{
  sample_db, asks, label_a, label_b, label_open, target_a, target_b, target_open, slash_a,
}

user_answer : AuthRequest → Option Bool
unfolding authorize_user authorize_user_with_resource_matcher policy_grants target_of has_prefix
    underscore_encode format_path_for_db replace_all query_escape trim_left_by to_lower
    direct_policies member_policies group_policies user_policies permits in_filter policy_resources
    text_beq any select pick join below
user_answer = authorize_user labels sample_db 5

read_a_test : user_answer (asks (codes "/programs/a") (codes "read")) ≡ some true
unfolding user_answer
read_a_test = refl

read_b_test : user_answer (asks (codes "/programs/a/b") (codes "read")) ≡ some true
unfolding user_answer
read_b_test = refl

write_a_test : user_answer (asks (codes "/programs/a") (codes "write")) ≡ some false
unfolding user_answer
write_a_test = refl

above_test : user_answer (asks (codes "/programs") (codes "read")) ≡ some false
unfolding user_answer
above_test = refl

open_test : user_answer (asks (codes "/open") (codes "read")) ≡ some true
unfolding user_answer
open_test = refl

no_resource_test : user_answer (asks [] (codes "read")) ≡ none
unfolding user_answer
no_resource_test = refl

read_a : authorize_user labels sample_db 5 (asks (codes "/programs/a") (codes "read")) ≡ some true
unfolding user_answer
read_a = refl

exact_a :
    authorize_user_exact labels sample_db 5 (asks (codes "/programs/a") (codes "read")) ≡ some true
unfolding user_answer authorize_user_exact
exact_a = refl

-- The exact check fails one level further down.
exact_b_test :
    authorize_user_exact labels sample_db 5 (asks (codes "/programs/a/b") (codes "read"))
    ≡ some false
unfolding user_answer authorize_user_exact
exact_b_test = refl

client_b_test :
    authorize_client labels sample_db 5 (asks (codes "/programs/a/b") (codes "read")) ≡ some true
unfolding user_answer authorize_client client_paths client_policies descends_agg
client_b_test = refl

anonymous_open :
    authorize_anonymous labels sample_db 5 (asks (codes "/open") (codes "read")) ≡ some true
unfolding user_answer authorize_anonymous anonymous_paths descends_agg
anonymous_open = refl

b_below_a : below (codes "programs.a.b") (codes "programs.a") ≡ true
unfolding below
b_below_a = refl

anonymous_attached : AnonymousAttached labels labels-IsLawful sample_db 5
unfolding group_policies policy_resources select join pick any text_beq
anonymous_attached i g =
    go (group_policies-of sample_db (anonymous_group ∷ []) i anonymous_group (here refl) g)
  where
    go :
        Elem i (group_policies sample_db (anonymous_group ∷ [])) → policy_resources sample_db i ≢ []
    go (here e) = rw e (λ k. cc)
    go (there m) = elim m [ ]

authorize_user-UserMay_example :
    (authorize_user labels sample_db 5 (asks (codes "/programs/a") (codes "read")) ≡ some true)
    ↔ UserMay labels sample_db 5
        (asks (codes "/programs/a") (codes "read"))
        (λ root. below (codes "programs.a") root ≡ true)
authorize_user-UserMay_example =
    authorize_user-UserMay labels sample_db 5 (asks (codes "/programs/a") (codes "read"))
      (codes "programs.a") target_a (ap some label_a)

authorize_user_exact-UserMay_example :
    (authorize_user_exact labels sample_db 5 (asks (codes "/programs/a") (codes "read"))
      ≡ some true)
    ↔ UserMay labels sample_db 5
        (asks (codes "/programs/a") (codes "read"))
        (λ root. root ≡ codes "programs.a")
authorize_user_exact-UserMay_example =
    authorize_user_exact-UserMay labels sample_db 5 labels-IsLawful
      (asks (codes "/programs/a") (codes "read")) (codes "programs.a") slash_a (ap some label_a)

authorize_user_exact-authorize_user_example :
    authorize_user labels sample_db 5 (asks (codes "/programs/a") (codes "read")) ≡ some true
authorize_user_exact-authorize_user_example =
    authorize_user_exact-authorize_user labels sample_db 5 labels-IsLawful
      (asks (codes "/programs/a") (codes "read")) (codes "programs.a") slash_a target_a
      (ap some label_a) exact_a

authorize_user-descends_example :
    authorize_user labels sample_db 5 (asks (codes "/programs/a/b") (codes "read")) ≡ some true
authorize_user-descends_example =
    authorize_user-descends labels sample_db 5 labels-IsLawful
      (asks (codes "/programs/a") (codes "read")) (asks (codes "/programs/a/b") (codes "read"))
      (codes "programs.a.b") (codes "programs.a") target_a (ap some label_a) target_b
      (ap some label_b) refl b_below_a read_a

authorize_client-ClientMay_example :
    (authorize_client labels sample_db 5 (asks (codes "/programs/a/b") (codes "read")) ≡ some true)
    ↔ ClientMay labels labels-IsLawful sample_db 5
        (asks (codes "/programs/a/b") (codes "read"))
        (codes "programs.a.b")
authorize_client-ClientMay_example =
    authorize_client-ClientMay labels labels-IsLawful sample_db 5
      (asks (codes "/programs/a/b") (codes "read")) (codes "programs.a.b") target_b
      (ap some label_b)

authorize_anonymous-AnonymousMay_example :
    (authorize_anonymous labels sample_db 5 (asks (codes "/open") (codes "read")) ≡ some true)
    ↔ AnonymousMay labels labels-IsLawful sample_db 5
        (asks (codes "/open") (codes "read"))
        (codes "open")
authorize_anonymous-AnonymousMay_example =
    authorize_anonymous-AnonymousMay labels labels-IsLawful sample_db 5 anonymous_attached
      (asks (codes "/open") (codes "read")) (codes "open") target_open (ap some label_open)

authorize_anonymous-authorize_user_example :
    authorize_user labels sample_db 5 (asks (codes "/open") (codes "read")) ≡ some true
authorize_anonymous-authorize_user_example =
    authorize_anonymous-authorize_user labels labels-IsLawful sample_db 5 anonymous_attached
      (asks (codes "/open") (codes "read")) (codes "open") target_open (ap some label_open)
      anonymous_open
