-- ===== src/Engine/Resources/Correct.antt =====
-- The list of a user's resources is what the policies of the user reach.
use arborist.Base.{
  ℕ, Text, ◌≡◌, refl, ap, sym, ◌∙◌, inl, inr, true, false, List, [], ◌∷◌, ◌==◌, text_eq, nat_eq,
  nat_beq_iff, any, any_found, select, join, is_empty, Elem, here, there, Elem-join, Elem-join_of,
  Elem-select, Elem-select_of, Elem-map, Elem-map_of, Bool-cases,
}
use arborist.Base.Exec.{ok}
use arborist.Core.Strings.{to_lower}
use arborist.Store.Ltree.{Ltree}
use arborist.Store.Schema.{Db, ResourceRow}
use arborist.Engine.Request.{AuthRequest}
use arborist.Engine.Grants.{user_policies, policy_resources}
use arborist.Engine.Spec.{UserHolds, Covers}
use arborist.Engine.Spec.Holds.{user_policies-holds, user_policies-of}
use arborist.Engine.Spec.Reads.{policy_resources-Covers, policy_resources-of}
use arborist.Engine.Resources.{
  ResourceFromQuery, resource_from_query, distinct_rows, reachable, authorized_resources,
}

module _ (L : Ltree) (db : Db L.Label) (now : ℕ) where
  -- The resource lies at or below a resource of a policy that the user holds.
  pub record UserReaches (username : Text) (r : ResourceRow L.Label) : Type 0 where
    pub policy_id : ℕ
    pub root : ResourceRow L.Label
    pub holds : UserHolds db now (to_lower username) policy_id
    pub covers : Covers db policy_id root
    pub exists : Elem r db.resource
    pub below : L.descends r.path root.path ≡ true

  Elem-distinct_rows :
      (xs : List (ResourceRow L.Label)) (r : ResourceRow L.Label)
      → Elem r (distinct_rows L db now xs)
      → Elem r xs
  unfolding distinct_rows
  Elem-distinct_rows [] r m = m
  Elem-distinct_rows (x ∷ xs) r m =
      elim (Bool-cases (any (λ q. q.id == x.id) (distinct_rows L db now xs))) [
        | inl h ↦ there (Elem-distinct_rows xs r (rw (h, distinct_rows) at m))
        | inr h ↦ first_or_later x xs r (Elem-distinct_rows xs r) (rw (h, distinct_rows) at m)
      ]
    where
      first_or_later :
          (x : ResourceRow L.Label) (xs : List (ResourceRow L.Label)) (r : ResourceRow L.Label)
          {ys : List (ResourceRow L.Label)}
          → (Elem r ys → Elem r xs)
          → Elem r (x ∷ ys)
          → Elem r (x ∷ xs)
      first_or_later x xs r f (here e) = here e
      first_or_later x xs r f (there m) = there (f m)

  distinct_rows-id :
      (xs : List (ResourceRow L.Label)) (r : ResourceRow L.Label)
      → Elem r xs
      → (q : ResourceRow L.Label) × Elem q (distinct_rows L db now xs) × (q.id ≡ r.id)
  unfolding distinct_rows
  distinct_rows-id [] r m = elim m [ ]
  distinct_rows-id (x ∷ xs) r (here e) =
      elim (Bool-cases (any (λ q. q.id == x.id) (distinct_rows L db now xs))) [
        | inl h ↦
            let (q, m, k) = any_found _ _ h in
            (
              q,
              rw (h, distinct_rows) m,
              (nat_beq_iff _ _).0 k ∙ ap (λ (z : ResourceRow L.Label). z.id) (sym e),
            )
        | inr h ↦
            (x, rw (h, distinct_rows) (here refl), ap (λ (z : ResourceRow L.Label). z.id) (sym e))
      ]
  distinct_rows-id (x ∷ xs) r (there m) =
      let (q, k, e) = distinct_rows-id xs r m in
      elim (Bool-cases (any (λ p. p.id == x.id) (distinct_rows L db now xs))) [
        | inl h ↦ (q, rw (h, distinct_rows) k, e)
        | inr h ↦ (q, rw (h, distinct_rows) (there k), e)
      ]

  -- What the query lists for a list of policies.
  abbrev listed : List ℕ → List (ResourceRow L.Label)
  listed policies = join policies λ i.
      join (policy_resources db i) λ root. select (λ r. L.descends r.path root.path) db.resource

  answer :
      (request : AuthRequest)
      → request.client_id ≡ []
      → is_empty request.username ≡ false
      → authorized_resources L db now request
        ≡ ok (reachable L db now (user_policies db now (to_lower request.username)))
  unfolding authorized_resources user_policies
  answer request c u = rw (ap is_empty c, authorized_resources, u) refl

  -- For a request with a user name and without a client, the query succeeds. It lists only resources
  -- at or below a resource of a policy that the user holds, and each of these by its id.
  pub authorized_resources-UserReaches :
      (request : AuthRequest)
      → request.client_id ≡ []
      → is_empty request.username ≡ false
      → (rows : List (ResourceFromQuery L.Label)) × (authorized_resources L db now request
          ≡ ok rows)
        × ((e : ResourceFromQuery L.Label) → Elem e rows → UserReaches request.username e.row)
        × ((r : ResourceRow L.Label)
            → UserReaches request.username r
            → (e : ResourceFromQuery L.Label) × Elem e rows × (e.row.id ≡ r.id))
  unfolding reachable resource_from_query
  authorized_resources-UserReaches request c u = (_, answer request c u, sound, complete)
    where
      sound :
          (e : ResourceFromQuery L.Label)
          → Elem e (reachable L db now (user_policies db now (to_lower request.username)))
          → UserReaches request.username e.row
      sound e m =
          let (r, k, q) = Elem-map (resource_from_query L db) _ e m in
          let (i, mi, m1) = Elem-join _ _ r (Elem-distinct_rows _ r k) in
          let (root, mr, m2) = Elem-join _ _ r m1 in
          let (m3, d) = Elem-select _ db.resource r m2 in
          rw q (record {
            policy_id = i;
            root = root;
            holds = user_policies-holds db now _ i mi;
            covers = policy_resources-Covers db i root mr;
            exists = m3;
            below = d;
          })

      complete :
          (r : ResourceRow L.Label)
          → UserReaches request.username r
          → (e : ResourceFromQuery L.Label) × Elem e
              (reachable L db now (user_policies db now (to_lower request.username)))
            × (e.row.id ≡ r.id)
      complete r w =
          let (q, m, e) =
            distinct_rows-id (listed (user_policies db now (to_lower request.username))) r (
              Elem-join_of _ _ w.policy_id r (user_policies-of db now _ w.policy_id w.holds) (
                Elem-join_of _ _ w.root r (policy_resources-of db w.policy_id w.root w.covers)
                  (Elem-select_of _ db.resource r w.exists w.below))) in
          (resource_from_query L db q, Elem-map_of (resource_from_query L db) _ q m, e)
