-- ===== src/Ownership/Bindings/Authorized.antt =====
-- What the engine answers about a user who holds a policy that gives a role on a resource.
use mathlib.Core.Option.{some-injective}
use arborist.Base.{
  Text, ℕ, ◌≡◌, refl, sym, ◌∙◌, ap, inl, inr, some, [], ◌∷◌, first, first_found, Elem, Option-cases,
  true, nat_eq, arith,
}
use arborist.Core.Strings.{to_lower, to_lower_byte}
use arborist.Core.Paths.{format_path_for_db}
use arborist.Engine.Request.{AuthRequest}
use arborist.Engine.Authorize.{authorize_user, target_of, at_path}
use arborist.Engine.Authorize.Correct.{authorize_user-UserMay}
use arborist.Engine.Resources.{ResourceFromQuery, resource_from_query}
use arborist.Engine.Spec.{UserHolds, Fits, unrestricted}
use arborist.Store.Ltree.{Ltree, IsLawful}
use arborist.Store.Schema.{Db, RoleRow, PermissionRow, ResourceRow}
use arborist.Store.Resource.{resource_with_path}
use arborist.Ownership.Bindings.Grants.{Gives, KeepsLinks}

to_lower_byte_twice : (c : ℕ) → to_lower_byte (to_lower_byte c) ≡ to_lower_byte c
unfolding to_lower_byte
to_lower_byte_twice c = ground arith

pub to_lower_twice : (s : Text) → to_lower (to_lower s) ≡ to_lower s
unfolding to_lower
to_lower_twice [] = refl
to_lower_twice (c ∷ s) = cc (to_lower_byte_twice c, to_lower_twice s)

module _ (L : Ltree) where
  -- The row at a path, which a target or a query stands for.
  pub record StandsAt (db : Db L.Label) (path : Text) (i : ℕ) : Type 0 where
    pub row : ResourceRow L.Label
    pub exists : Elem row db.resource
    pub of_id : row.id ≡ i
    pub of_path : L.text2ltree (format_path_for_db path) ≡ some row.path

  -- A user who holds a policy that gives a role on a resource is authorized there for each action
  -- that a permission of the role fits.
  pub Gives-authorize_user :
      IsLawful L
      → (db : Db L.Label) (now : ℕ) (request : AuthRequest) (i j : ℕ) (role_name : Text)
      → UserHolds db now (to_lower request.username) i
      → Gives db i j role_name
      → StandsAt db request.resource j
      → target_of request.resource ≡ at_path (format_path_for_db request.resource)
      → request.policies ≡ []
      → (r : RoleRow) × Elem r db.role
        × (r.name ≡ role_name)
        × ((pm : PermissionRow)
            → Elem pm db.permission
            → pm.role_id ≡ r.id
            → Fits pm.service request.service
            → Fits pm.method request.method
            → authorize_user L db now request ≡ some true)
  Gives-authorize_user laws db now request i j role_name held g at t free = (
    g.role,
    g.role_exists,
    g.of_name,
    λ pm m of_role service method.
        (authorize_user-UserMay L db now request at.row.path t at.of_path).1 (record {
          policy_id = i;
          root = at.row;
          holds = held;
          covers = record {
            link = record { policy_id = i; resource_id = j };
            link_exists = g.to_resource;
            of_policy = refl;
            root_exists = at.exists;
            of_resource = at.of_id;
          };
          root_fits = laws.descends_refl at.row.path;
          permitted = record {
            link = record { policy_id = i; role_id = g.role.id };
            permission = pm;
            link_exists = g.to_role;
            of_policy = refl;
            permission_exists = m;
            of_role = of_role;
            fits_service = service;
            fits_method = method;
          };
          listed = unrestricted free;
        }),
  )

  -- A row of the table `resource` stays under steps that leave the table alone.
  pub StandsAt-KeepsLinks :
      (db db' : Db L.Label) (path : Text) (i : ℕ)
      → KeepsLinks db db'
      → StandsAt db path i
      → StandsAt db' path i
  StandsAt-KeepsLinks db db' path i k at = record {
    row = at.row;
    exists = rw k.all_resources at.exists;
    of_id = at.of_id;
    of_path = at.of_path;
  }

  pub resource_with_path-StandsAt :
      IsLawful L
      → (db : Db L.Label) (path : Text) (r : ResourceFromQuery L.Label)
      → resource_with_path L db path ≡ some r
      → StandsAt db path r.row.id
  unfolding resource_with_path resource_from_query
  resource_with_path-StandsAt laws db path r h =
      elim (Option-cases (L.text2ltree (format_path_for_db path))) [
        | inl e ↦ absurd (cc (rw (e, resource_with_path) at h))
        | inr (p, e) ↦ elim (Option-cases (first (λ x. L.path_beq x.path p) db.resource)) [
          | inl k ↦ absurd (cc (rw (e, resource_with_path, k) at h))
          | inr (x, k) ↦
              let (m, q) = first_found _ db.resource x k in
              let same =
                ap (λ y. y.row) (some-injective _ _ (rw (e, resource_with_path, k) at h)) in
              record {
                row = x;
                exists = m;
                of_id = ap (λ y. y.id) same;
                of_path = e ∙ ap some (sym ((laws.path_beq_iff x.path p).0 q));
              }
        ]
      ]
