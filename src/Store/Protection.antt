-- ===== src/Store/Protection.antt =====
-- internal/authz/protection/ownership_protection.go
use arborist.Base.{Text, Bool, false, ◌&&◌, none, some, ◌==◌, text_eq, nat_eq, any, first}
use arborist.Base.Exec.{Result, ok, err}
use arborist.Core.Paths.{format_path_for_db}
use arborist.Store.Ltree.{Ltree}
use arborist.Store.Schema.{Db}

-- A policy that is not generated has no row in generated_policy_metadata.
unfoldable pub generated_policy_is_protected : {P : Type 0} → Db P → Text → Bool
generated_policy_is_protected db policy_name =
    elim (first (λ g. any (λ p. g.policy_id == p.id && p.name == policy_name) db.policy)
      db.generated_policy) [ none ↦ false | some g ↦ g.protected ]

unfoldable pub resource_has_protected_ownership : (L : Ltree) → Db L.Label → Text → Result Bool
resource_has_protected_ownership L db resource_path =
    elim (L.text2ltree (format_path_for_db resource_path)) [
      | none ↦ err 500
      | some q ↦ ok (
          any
            (λ g.
              g.protected
              && any
                  (λ pr.
                    g.policy_id == pr.policy_id
                    && any (λ r. pr.resource_id == r.id && L.path_beq r.path q) db.resource)
                  db.policy_resource)
            db.generated_policy)
    ]
