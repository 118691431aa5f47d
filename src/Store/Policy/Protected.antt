-- ===== src/Store/Policy/Protected.antt =====
-- Protected generated policies can neither be deleted nor overwritten.
use arborist.Base.{
  Text, ◌≡◌, refl, sym, ◌∙◌, inl, inr, true, ◌&&◌, ◌==◌, text_eq, nat_eq, text_beq_iff, nat_beq_iff,
  any, any_found, any_of_Elem, first, first_found, first_missing, Option-cases, and_split, and_join,
  Elem, false≢true,
}
use arborist.Base.Exec.{err}
use arborist.Store.Ltree.{Ltree}
use arborist.Store.Schema.{Db, PolicyRow, GeneratedPolicyRow}
use arborist.Store.Protection.{generated_policy_is_protected}
use arborist.Store.Policy.{Policy, delete_policy, update_policy}

-- The metadata belong to the policy of this name.
abbrev pub Describes : {P : Type 0} → Db P → Text → GeneratedPolicyRow → Type 0
Describes db name g = (p : PolicyRow) × Elem p db.policy × (g.policy_id ≡ p.id) × (p.name ≡ name)

module _ {P : Type 0} (db : Db P) (name : Text) where
  Describes-of :
      (g : GeneratedPolicyRow)
      → Describes db name g
      → any (λ p. g.policy_id == p.id && p.name == name) db.policy ≡ true
  Describes-of g (p, m, i, n) =
      any_of_Elem _ db.policy p m (and_join _ _ ((nat_beq_iff _ _).1 i) ((text_beq_iff _ _).1 n))

  any-Describes :
      (g : GeneratedPolicyRow)
      → any (λ p. g.policy_id == p.id && p.name == name) db.policy ≡ true
      → Describes db name g
  any-Describes g h =
      let (p, m, k) = any_found _ db.policy h in
      let (a, b) = and_split (g.policy_id == p.id) _ k in
      (p, m, (nat_beq_iff _ _).0 a, (text_beq_iff _ _).0 b)

  protected_found :
      (g : GeneratedPolicyRow)
      → Elem g db.generated_policy
      → Describes db name g
      → ((other : GeneratedPolicyRow)
          → Elem other db.generated_policy
          → Describes db name other
          → other.protected ≡ true)
      → generated_policy_is_protected db name ≡ true
  unfolding generated_policy_is_protected
  protected_found g m d all =
      elim (Option-cases (
        first (λ g. any (λ p. g.policy_id == p.id && p.name == name) db.policy)
          db.generated_policy)) [
            | inl e ↦ absurd (false≢true (sym (first_missing _ _ g e m) ∙ Describes-of g d))
            | inr (o, e) ↦
                let (k, h) = first_found _ _ o e in
                rw (e, generated_policy_is_protected) (all o k (any-Describes o h))
          ]

-- If a policy has metadata of a generated policy, and all of them say that it is protected, deleting
-- and overwriting it are refused with 403 and change nothing.
pub protected-refused :
    (L : Ltree) (db : Db L.Label) (policy : Policy) (g : GeneratedPolicyRow)
    → Elem g db.generated_policy
    → Describes db policy.name g
    → ((other : GeneratedPolicyRow)
        → Elem other db.generated_policy
        → Describes db policy.name other
        → other.protected ≡ true)
    → (delete_policy L policy db ≡ (err 403, db)) × (update_policy L policy db ≡ (err 403, db))
unfolding delete_policy update_policy
protected-refused L db policy g m d all =
    let h = protected_found db policy.name g m d all in
    (rw (h, delete_policy) refl, rw (h, update_policy) refl)
