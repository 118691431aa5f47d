-- ===== src/Engine/Authorize/Anonymous.antt =====
-- The answer to an anonymous caller: internal/authz/engine/authorize.go, authorizeAnonymous.
use mathlib.Core.Option.{some-injective}
use arborist.Base.{
  ℕ, Text, ◌≡◌, ◌≢◌, ◌↔◌, refl, ap, ◌∙◌, sym, subst, inl, true, ◌&&◌, some, List, [], ◌∷◌, map,
  Elem, here, there, any, and_split, and_join, select, Elem-select, Elem-select_of, join_congr,
}
use arborist.Core.Paths.{format_path_for_db}
use arborist.Store.Ltree.{Ltree, IsLawful, descends_agg}
use arborist.Store.Schema.{Db, ResourceRow}
use arborist.Engine.Request.{AuthRequest, anonymous_group}
use arborist.Engine.Grants.{group_policies, permits, in_filter, policy_resources}
use arborist.Engine.Spec.{GroupHolds, built_in, Permits, Listed, Covers}
use arborist.Engine.Spec.Holds.{group_policies-holds, group_policies-of}
use arborist.Engine.Spec.Reads.{permits-Permits, permits-of, in_filter-Listed, in_filter-of}
use arborist.Engine.Authorize.{
  target_of, at_path, anonymous_paths, authorize_anonymous, or_null, authorize_user,
}
use arborist.Engine.Authorize.Arrays.{root_paths, some_paths, agg_any, root_found, root_given}
use arborist.Engine.Authorize.Correct.{authorize_user-UserMay}

module _ (L : Ltree) (laws : IsLawful L) (db : Db L.Label) (now : ℕ) where
  -- A policy of the anonymous group that permits the action, passes the filter of the request and is
  -- attached at the path or above it.
  pub record AnonymousMay (request : AuthRequest) (p : L.Label) : Type 0 where
    pub policy_id : ℕ
    pub root : ResourceRow L.Label
    pub holds : GroupHolds db anonymous_group policy_id
    pub covers : Covers db policy_id root
    pub root_fits : L.descends p root.path ≡ true
    pub permitted : Permits db policy_id request.service request.method
    pub listed : Listed db request.policies policy_id

  -- No policy of the anonymous group has lost all its resources.
  abbrev pub AnonymousAttached : Type 0
  AnonymousAttached = (i : ℕ) → GroupHolds db anonymous_group i → policy_resources db i ≢ []

  or_null_lem :
      (rs : List (ResourceRow L.Label))
      → rs ≢ []
      → or_null L db now rs ≡ map (λ (r : ResourceRow L.Label). some r.path) rs
  or_null_lem [] h = absurd (h refl)
  or_null_lem (r ∷ rs) h = refl

  -- The policies of the anonymous group that pass the tests of the query.
  abbrev anonymous_selected : AuthRequest → List ℕ
  anonymous_selected request =
      select (λ i. permits db i request.service request.method && in_filter db request.policies i)
        (group_policies db (anonymous_group ∷ []))

  anonymous_held :
      (i : ℕ) → Elem i (group_policies db (anonymous_group ∷ [])) → GroupHolds db anonymous_group i
  anonymous_held i m = go (group_policies-holds db _ i m)
    where
      go :
          (n : Text) × Elem n (anonymous_group ∷ []) × GroupHolds db n i
          → GroupHolds db anonymous_group i
      go (n, here e, g) = subst (λ k. GroupHolds db k i) e g
      go (n, there m, g) = elim m [ ]

  anonymous_answer :
      AnonymousAttached
      → (request : AuthRequest) (p : L.Label)
      → target_of request.resource ≡ at_path (format_path_for_db request.resource)
      → L.text2ltree (format_path_for_db request.resource) ≡ some p
      → authorize_anonymous L db now request
        ≡ some (any (λ q. L.descends p q) (root_paths L laws db now (anonymous_selected request)))
  unfolding authorize_anonymous anonymous_paths
  anonymous_answer full request p t e =
      rw (t, authorize_anonymous)
        (rw e (
          ap (descends_agg L p) (
            join_congr (anonymous_selected request) _ _
              (λ i m. or_null_lem _ (full i (anonymous_held i (Elem-select _ _ i m).0)))
            ∙ some_paths L laws db now (anonymous_selected request))
          ∙ agg_any L laws db now p _))

  -- If each policy of the anonymous group still has a resource, then for a request at a path that the
  -- database accepts an anonymous caller is authorized exactly when a policy of that group permits the
  -- action, passes the filter and is attached to the resource or to an ancestor of it.
  pub authorize_anonymous-AnonymousMay :
      AnonymousAttached
      → (request : AuthRequest) (p : L.Label)
      → target_of request.resource ≡ at_path (format_path_for_db request.resource)
      → L.text2ltree (format_path_for_db request.resource) ≡ some p
      → (authorize_anonymous L db now request ≡ some true) ↔ AnonymousMay request p
  authorize_anonymous-AnonymousMay full request p t e =
      (sound, λ m. anonymous_answer full request p t e ∙ ap some (complete m))
    where
      sound : authorize_anonymous L db now request ≡ some true → AnonymousMay request p
      sound h =
          let (i, r, mi, c, d) =
            root_found L laws db now p _
              (some-injective _ _ (sym (anonymous_answer full request p t e) ∙ h)) in
          let (mi', k) = Elem-select _ _ i mi in
          let (k1, k2) = and_split (permits db i request.service request.method) _ k in
          record {
            policy_id = i;
            root = r;
            holds = anonymous_held i mi';
            covers = c;
            root_fits = d;
            permitted = permits-Permits db i _ _ k1;
            listed = in_filter-Listed db _ i k2;
          }

      complete :
          (m : AnonymousMay request p)
          → any (λ q. L.descends p q) (root_paths L laws db now (anonymous_selected request)) ≡ true
      complete m =
          root_given L laws db now p _ m.policy_id m.root
            (Elem-select_of _ _ m.policy_id
              (group_policies-of db _ m.policy_id anonymous_group (here refl) m.holds)
              (and_join _ _ (permits-of db m.policy_id _ _ m.permitted)
                (in_filter-of db request.policies m.policy_id m.listed)))
            m.covers m.root_fits

  -- If each policy of the anonymous group still has a resource, then what an anonymous caller may do
  -- at a path, every user may do, whatever the user name of the request and whether or not the
  -- database has such a user.
  pub authorize_anonymous-authorize_user :
      AnonymousAttached
      → (request : AuthRequest) (p : L.Label)
      → target_of request.resource ≡ at_path (format_path_for_db request.resource)
      → L.text2ltree (format_path_for_db request.resource) ≡ some p
      → authorize_anonymous L db now request ≡ some true
      → authorize_user L db now request ≡ some true
  authorize_anonymous-authorize_user full request p t e h =
      let m = (authorize_anonymous-AnonymousMay full request p t e).0 h in
      (authorize_user-UserMay L db now request p t e).1 (record {
        policy_id = m.policy_id;
        root = m.root;
        holds = built_in (inl m.holds);
        covers = m.covers;
        root_fits = m.root_fits;
        permitted = m.permitted;
        listed = m.listed;
      })
