-- ===== src/Engine/Authorize/Arrays.antt =====
-- The answers that the engine computes through an array of allowed paths.
use mathlib.Core.Option.{some-injective}
use arborist.Base.{
  ℕ, ◌≡◌, ◌↔◌, refl, ap, ◌∙◌, sym, true, some, List, [], ◌∷◌, map, Elem, any, any_found,
  any_of_Elem, join, select, Elem-join, Elem-join_of, Elem-select, Elem-select_of, Elem-map,
  Elem-map_of, map-join, join_congr, map-map,
}
use arborist.Core.Paths.{format_path_for_db}
use arborist.Store.Ltree.{Ltree, IsLawful, descends_agg}
use arborist.Store.Schema.{Db, ResourceRow}
use arborist.Engine.Request.{AuthRequest}
use arborist.Engine.Grants.{client_policies, permits, policy_resources}
use arborist.Engine.Spec.{ClientHolds, Permits, Covers}
use arborist.Engine.Spec.Holds.{client_policies-holds, client_policies-of}
use arborist.Engine.Spec.Reads.{
  permits-Permits, permits-of, policy_resources-Covers, policy_resources-of,
}
use arborist.Engine.Authorize.{target_of, at_path, client_paths, authorize_client}

module _ (L : Ltree) (laws : IsLawful L) (db : Db L.Label) (now : ℕ) where
  -- The paths of the resources of the given policies.
  abbrev pub root_paths : List ℕ → List L.Label
  root_paths policies =
      join policies (λ i. map (λ (r : ResourceRow L.Label). r.path) (policy_resources db i))

  pub some_paths :
      (policies : List ℕ)
      → join policies (λ i. map (λ (r : ResourceRow L.Label). some r.path) (policy_resources db i))
        ≡ map some (root_paths policies)
  some_paths policies =
      join_congr policies _ _
        (λ i _. map-map some (λ (r : ResourceRow L.Label). r.path) (policy_resources db i))
      ∙ sym (map-join some policies _)

  pub agg_any :
      (p : L.Label) (qs : List L.Label)
      → descends_agg L p (map some qs) ≡ some (any (λ q. L.descends p q) qs)
  unfolding descends_agg any
  agg_any p [] = refl
  agg_any p (q ∷ qs) = laws.descends_array_any p (q ∷ qs)

  pub root_found :
      (p : L.Label) (policies : List ℕ)
      → any (λ q. L.descends p q) (root_paths policies) ≡ true
      → (i : ℕ) × (r : ResourceRow L.Label) × Elem i policies
        × Covers db i r
        × (L.descends p r.path ≡ true)
  root_found p policies h =
      let (q, mq, d) = any_found _ _ h in
      let (i, mi, m) = Elem-join policies _ q mq in
      let (r, mr, e) = Elem-map (λ (r : ResourceRow L.Label). r.path) _ q m in
      (i, r, mi, policy_resources-Covers db i r mr, rw (← e) d)

  pub root_given :
      (p : L.Label) (policies : List ℕ) (i : ℕ) (r : ResourceRow L.Label)
      → Elem i policies
      → Covers db i r
      → L.descends p r.path ≡ true
      → any (λ q. L.descends p q) (root_paths policies) ≡ true
  root_given p policies i r mi c d =
      any_of_Elem _ _ r.path
        (Elem-join_of policies _ i r.path mi
          (Elem-map_of (λ (q : ResourceRow L.Label). q.path) _ r (policy_resources-of db i r c)))
        d

  -- A policy of the client that permits the action, attached at the path or above it.
  pub record ClientMay (request : AuthRequest) (p : L.Label) : Type 0 where
    pub policy_id : ℕ
    pub root : ResourceRow L.Label
    pub holds : ClientHolds db request.client_id policy_id
    pub covers : Covers db policy_id root
    pub root_fits : L.descends p root.path ≡ true
    pub permitted : Permits db policy_id request.service request.method

  client_answer :
      (request : AuthRequest) (p : L.Label)
      → target_of request.resource ≡ at_path (format_path_for_db request.resource)
      → L.text2ltree (format_path_for_db request.resource) ≡ some p
      → authorize_client L db now request
        ≡ some (
            any
              (λ q. L.descends p q)
              (root_paths (
                select
                  (λ i. permits db i request.service request.method)
                  (client_policies db request.client_id))))
  unfolding authorize_client client_paths
  client_answer request p t e = rw (t, authorize_client) (rw e (rw some_paths (agg_any p _)))

  -- For a request at a path that the database accepts, the client is authorized exactly when a policy
  -- that the client holds permits the action and is attached to the resource or to an ancestor. The
  -- policies that the request names play no part.
  pub authorize_client-ClientMay :
      (request : AuthRequest) (p : L.Label)
      → target_of request.resource ≡ at_path (format_path_for_db request.resource)
      → L.text2ltree (format_path_for_db request.resource) ≡ some p
      → (authorize_client L db now request ≡ some true) ↔ ClientMay request p
  authorize_client-ClientMay request p t e =
      (λ h. sound h, λ m. client_answer request p t e ∙ ap some (complete m))
    where
      sound : authorize_client L db now request ≡ some true → ClientMay request p
      sound h =
          let (i, r, mi, c, d) =
            root_found p _ (some-injective _ _ (sym (client_answer request p t e) ∙ h)) in
          let (mi', k) = Elem-select _ _ i mi in
          record {
            policy_id = i;
            root = r;
            holds = client_policies-holds db request.client_id i mi';
            covers = c;
            root_fits = d;
            permitted = permits-Permits db i _ _ k;
          }

      complete :
          (m : ClientMay request p)
          → any
              (λ q. L.descends p q)
              (root_paths (
                select
                  (λ i. permits db i request.service request.method)
                  (client_policies db request.client_id)))
            ≡ true
      complete m =
          root_given p _ m.policy_id m.root
            (Elem-select_of _ _ m.policy_id
              (client_policies-of db request.client_id m.policy_id m.holds)
              (permits-of db m.policy_id _ _ m.permitted))
            m.covers m.root_fits
