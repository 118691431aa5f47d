-- ===== src/Engine/Authorize/Correct.antt =====
-- What the answers of the engine mean.
use mathlib.Core.Option.{some-injective}
use arborist.Base.{
  ℕ, codes, ◌≡◌, ◌↔◌, ap, ◌∙◌, sym, Bool, true, some, any, any_found, any_of_Elem, and_split,
  and_join,
}
use arborist.Core.Strings.{to_lower, has_prefix}
use arborist.Core.Paths.{format_path_for_db}
use arborist.Store.Ltree.{Ltree, IsLawful}
use arborist.Store.Schema.{Db, ResourceRow}
use arborist.Engine.Request.{AuthRequest}
use arborist.Engine.Grants.{user_policies, permits, policy_resources}
use arborist.Engine.Spec.{UserHolds, Permits, Listed, Covers}
use arborist.Engine.Spec.Holds.{user_policies-holds, user_policies-of}
use arborist.Engine.Spec.Reads.{
  permits-Permits, permits-of, in_filter-Listed, in_filter-of, policy_resources-Covers,
  policy_resources-of,
}
use arborist.Engine.Authorize.{
  target_of, at_path, policy_grants, authorize_user_with_resource_matcher, authorize_user,
  authorize_user_exact,
}

module _ (L : Ltree) (db : Db L.Label) (now : ℕ) where
  -- A policy of the user that grants the action of the request on a resource with the property.
  pub record UserMay (request : AuthRequest) (Root : L.Label → Type 0) : Type 0 where
    pub policy_id : ℕ
    pub root : ResourceRow L.Label
    pub holds : UserHolds db now (to_lower request.username) policy_id
    pub covers : Covers db policy_id root
    pub root_fits : Root root.path
    pub permitted : Permits db policy_id request.service request.method
    pub listed : Listed db request.policies policy_id

  pub UserMay_map :
      (request : AuthRequest) {Q R : L.Label → Type 0}
      → ((root : L.Label) → Q root → R root)
      → UserMay request Q
      → UserMay request R
  UserMay_map request f m = record {
    policy_id = m.policy_id;
    root = m.root;
    holds = m.holds;
    covers = m.covers;
    root_fits = f m.root.path m.root_fits;
    permitted = m.permitted;
    listed = m.listed;
  }

  matcher_lem :
      (request : AuthRequest) (matcher : L.Label → L.Label → Bool) (p : L.Label)
      → L.text2ltree (format_path_for_db request.resource) ≡ some p
      → authorize_user_with_resource_matcher L db now request matcher
        ≡ some (
            any
              (policy_grants L db now request (matcher p))
              (user_policies db now (to_lower request.username)))
  unfolding authorize_user_with_resource_matcher
  matcher_lem request matcher p e = rw e

  grants_sound :
      (request : AuthRequest) (fits : L.Label → Bool) (i : ℕ)
      → UserHolds db now (to_lower request.username) i
      → policy_grants L db now request fits i ≡ true
      → UserMay request (λ root. fits root ≡ true)
  unfolding policy_grants
  grants_sound request fits i held h =
      let (h1, h2) = and_split (any (λ r. fits r.path) (policy_resources db i)) _ h in
      let (r, mr, hr) = any_found _ (policy_resources db i) h1 in
      let (h3, h4) = and_split (permits db i request.service request.method) _ h2 in
      record {
        policy_id = i;
        root = r;
        holds = held;
        covers = policy_resources-Covers db i r mr;
        root_fits = hr;
        permitted = permits-Permits db i _ _ h3;
        listed = in_filter-Listed db _ i h4;
      }

  grants_complete :
      (request : AuthRequest) (fits : L.Label → Bool)
      (m : UserMay request (λ root. fits root ≡ true))
      → policy_grants L db now request fits m.policy_id ≡ true
  unfolding policy_grants
  grants_complete request fits m =
      and_join _ _
        (any_of_Elem (λ r. fits r.path) _ m.root
          (policy_resources-of db m.policy_id m.root m.covers) m.root_fits)
        (and_join _ _ (permits-of db m.policy_id _ _ m.permitted)
          (in_filter-of db request.policies m.policy_id m.listed))

  -- The query of `authorizeUserWithResourceMatcher` asks for such a policy.
  pub matcher_iff :
      (request : AuthRequest) (matcher : L.Label → L.Label → Bool) (p : L.Label)
      → L.text2ltree (format_path_for_db request.resource) ≡ some p
      → (authorize_user_with_resource_matcher L db now request matcher ≡ some true)
        ↔ UserMay request (λ root. matcher p root ≡ true)
  matcher_iff request matcher p e = (
    λ h.
        let found =
          any_found _ _ (some-injective _ _ (sym (matcher_lem request matcher p e) ∙ h)) in
        grants_sound request (matcher p) found.0
          (user_policies-holds db now (to_lower request.username) found.0 found.1) found.2,
    λ m.
        matcher_lem request matcher p e
        ∙ ap some (
            any_of_Elem _ _ m.policy_id
              (user_policies-of db now (to_lower request.username) m.policy_id m.holds)
              (grants_complete request (matcher p) m)),
  )

  authorize_user_path :
      (request : AuthRequest)
      → target_of request.resource ≡ at_path (format_path_for_db request.resource)
      → authorize_user L db now request
        ≡ authorize_user_with_resource_matcher L db now request (λ q root. L.descends q root)
  unfolding authorize_user
  authorize_user_path request t = rw (t, authorize_user)

  -- For a request at a path that the database accepts as a label path, the user is authorized exactly
  -- when a policy that the user holds, unexpired, permits the action, passes the filter of the
  -- request and is attached to the resource or to an ancestor of it.
  pub authorize_user-UserMay :
      (request : AuthRequest) (p : L.Label)
      → target_of request.resource ≡ at_path (format_path_for_db request.resource)
      → L.text2ltree (format_path_for_db request.resource) ≡ some p
      → (authorize_user L db now request ≡ some true)
        ↔ UserMay request (λ root. L.descends p root ≡ true)
  authorize_user-UserMay request p t e =
      rw (authorize_user_path request t) (matcher_iff request (λ q root. L.descends q root) p e)

  -- For a request whose path starts with a slash and is one that the database accepts as a label
  -- path, the exact check grants exactly when a policy that the user holds, unexpired, permits
  -- the action, passes the filter of the request and is attached to the resource at that very
  -- path.
  pub authorize_user_exact-UserMay :
      IsLawful L
      → (request : AuthRequest) (p : L.Label) → has_prefix (codes "/") request.resource ≡ true
      → L.text2ltree (format_path_for_db request.resource) ≡ some p
      → (authorize_user_exact L db now request ≡ some true) ↔ UserMay request (λ root. root ≡ p)
  unfolding authorize_user_exact
  authorize_user_exact-UserMay laws request p t e = rw t (
      let inner = matcher_iff request (λ q root. L.path_beq root q) p e in
      (
        λ h. UserMay_map request (λ r k. (laws.path_beq_iff r p).0 k) (inner.0 h),
        λ m. inner.1 (UserMay_map request (λ r k. (laws.path_beq_iff r p).1 k) m),
      ))

  -- A caller that passes the exact check at a path passes the ordinary check there.
  pub authorize_user_exact-authorize_user :
      IsLawful L
      → (request : AuthRequest) (p : L.Label) → has_prefix (codes "/") request.resource ≡ true
      → target_of request.resource ≡ at_path (format_path_for_db request.resource)
      → L.text2ltree (format_path_for_db request.resource) ≡ some p
      → authorize_user_exact L db now request ≡ some true
      → authorize_user L db now request ≡ some true
  authorize_user_exact-authorize_user laws request p s t e h =
      (authorize_user-UserMay request p t e).1 (
        UserMay_map request (λ r k. rw k (laws.descends_refl p))
          ((authorize_user_exact-UserMay laws request p s e).0 h))

  -- What a user may do at a resource, the user may do at every resource below it.
  pub authorize_user-descends :
      IsLawful L
      → (request below : AuthRequest) (p q : L.Label)
      → target_of request.resource ≡ at_path (format_path_for_db request.resource)
      → L.text2ltree (format_path_for_db request.resource) ≡ some q
      → target_of below.resource ≡ at_path (format_path_for_db below.resource)
      → L.text2ltree (format_path_for_db below.resource) ≡ some p
      → below ≡ record request { resource = below.resource }
      → L.descends p q ≡ true
      → authorize_user L db now request ≡ some true
      → authorize_user L db now below ≡ some true
  authorize_user-descends laws request below p q t e t' e' same d h =
      (authorize_user-UserMay below p t' e').1 (rw same moved)
    where
      moved :
          UserMay (record request { resource = below.resource }) (λ root. L.descends p root ≡ true)
      moved =
          let m = (authorize_user-UserMay request q t e).0 h in
          record {
            policy_id = m.policy_id;
            root = m.root;
            holds = m.holds;
            covers = m.covers;
            root_fits = laws.descends_trans p q m.root.path d m.root_fits;
            permitted = m.permitted;
            listed = m.listed;
          }
