-- ===== src/Engine/Spec/Holds.antt =====
-- The lists of Engine/Grants.antt hold just the policies that Engine/Spec.antt describes.
use arborist.Base.{
  ℕ, Text, ◌≡◌, refl, subst, ◌↔◌, ◌⊎◌, inl, inr, true, ◌&&◌, Option, none, some, List, [], ◌∷◌,
  ◌==◌, nat_eq, text_eq, nat_beq_iff, text_beq_iff, Elem, here, there, any, any_found, any_of_Elem,
  Elem-append_cases, Elem-append_left, Elem-append_right, Elem-join, Elem-join_of, Elem-pick,
  Elem-pick_of, Elem-select, Elem-select_of, and_split, and_join, arith,
}
use arborist.Core.Strings.{to_lower}
use arborist.Store.Schema.{
  Db, UsrRow, UsrPolicyRow, GrpRow, UsrGrpRow, GrpPolicyRow, ClientRow, ClientPolicyRow,
}
use arborist.Engine.Request.{anonymous_group, logged_in_group}
use arborist.Engine.Grants.{
  live, direct_policies, member_policies, group_policies, user_policies, client_policies,
}
use arborist.Engine.Spec.{Unexpired, GroupHolds, UserHolds, direct, member, built_in, ClientHolds}

pub live_iff : (now : ℕ) (e : Option ℕ) → (live now e ≡ true) ↔ Unexpired now e
live_iff now none = (λ _. tt, λ _. refl)
live_iff now (some t) = (λ h. ground arith, λ h. ground arith)

module _ {P : Type 0} (db : Db P) where
  direct_policies-holds :
      (now : ℕ) (name : Text) (i : ℕ)
      → Elem i (direct_policies db now name)
      → UserHolds db now name i
  unfolding direct_policies
  direct_policies-holds now name i m =
      let (u, mu, m1) = Elem-join _ _ i m in
      let (mu', nu) = Elem-select _ db.usr u mu in
      let (up, mup, h, e) = Elem-pick _ _ db.usr_policy i m1 in
      let (h1, h2) = and_split (up.usr_id == u.id) (live now up.expires_at) h in
      direct u up mu' ((text_beq_iff _ _).0 nu) mup ((nat_beq_iff _ _).0 h1)
        ((live_iff now up.expires_at).0 h2) e

  direct_policies-of :
      (now : ℕ) (name : Text) (i : ℕ) (u : UsrRow) (up : UsrPolicyRow)
      → Elem u db.usr
      → to_lower u.name ≡ name
      → Elem up db.usr_policy
      → up.usr_id ≡ u.id
      → Unexpired now up.expires_at
      → i ≡ up.policy_id
      → Elem i (direct_policies db now name)
  unfolding direct_policies
  direct_policies-of now name i u up mu nu mup h1 h2 e = rw e (
      Elem-join_of _ _ u up.policy_id (Elem-select_of _ db.usr u mu ((text_beq_iff _ _).1 nu)) (
        Elem-pick_of (λ (r : UsrPolicyRow). r.usr_id == u.id && live now r.expires_at)
          (λ r. r.policy_id) db.usr_policy up mup
          (and_join _ _ ((nat_beq_iff _ _).1 h1) ((live_iff now up.expires_at).1 h2))))

  member_policies-holds :
      (now : ℕ) (name : Text) (i : ℕ)
      → Elem i (member_policies db now name)
      → UserHolds db now name i
  unfolding member_policies
  member_policies-holds now name i m =
      let (u, mu, m1) = Elem-join _ _ i m in
      let (mu', nu) = Elem-select _ db.usr u mu in
      let (ug, mug, m2) = Elem-join _ _ i m1 in
      let (mug', h) = Elem-select _ db.usr_grp ug mug in
      let (gp, mgp, g, e) = Elem-pick _ _ db.grp_policy i m2 in
      let (h1, h2) = and_split (ug.usr_id == u.id) (live now ug.expires_at) h in
      member u ug gp mu' ((text_beq_iff _ _).0 nu) mug' ((nat_beq_iff _ _).0 h1)
        ((live_iff now ug.expires_at).0 h2) mgp ((nat_beq_iff _ _).0 g) e

  member_policies-of :
      (now : ℕ) (name : Text) (i : ℕ) (u : UsrRow) (ug : UsrGrpRow) (gp : GrpPolicyRow)
      → Elem u db.usr
      → to_lower u.name ≡ name
      → Elem ug db.usr_grp
      → ug.usr_id ≡ u.id
      → Unexpired now ug.expires_at
      → Elem gp db.grp_policy
      → gp.grp_id ≡ ug.grp_id
      → i ≡ gp.policy_id
      → Elem i (member_policies db now name)
  unfolding member_policies
  member_policies-of now name i u ug gp mu nu mug h1 h2 mgp g e = rw e (
      Elem-join_of _ _ u gp.policy_id (Elem-select_of _ db.usr u mu ((text_beq_iff _ _).1 nu)) (
        Elem-join_of _ _ ug gp.policy_id
          (Elem-select_of (λ (r : UsrGrpRow). r.usr_id == u.id && live now r.expires_at) db.usr_grp
            ug mug (and_join _ _ ((nat_beq_iff _ _).1 h1) ((live_iff now ug.expires_at).1 h2)))
          (Elem-pick_of (λ (r : GrpPolicyRow). r.grp_id == ug.grp_id) (λ r. r.policy_id)
            db.grp_policy gp mgp ((nat_beq_iff _ _).1 g))))

  -- The policies of the groups with the given names are those that a group of such a name holds.
  pub group_policies-holds :
      (names : List Text) (i : ℕ)
      → Elem i (group_policies db names)
      → (n : Text) × Elem n names × GroupHolds db n i
  unfolding group_policies
  group_policies-holds names i m =
      let (g, mg, m1) = Elem-join _ _ i m in
      let (mg', h) = Elem-select _ db.grp g mg in
      let (n, mn, e) = any_found _ names h in
      let (gp, mgp, h2, e2) = Elem-pick _ _ db.grp_policy i m1 in
      (
        n,
        mn,
        record {
          group = g;
          binding = gp;
          group_exists = mg';
          group_name = (text_beq_iff _ _).0 e;
          binding_exists = mgp;
          of_group = (nat_beq_iff _ _).0 h2;
          of_policy = e2;
        },
      )

  pub group_policies-of :
      (names : List Text) (i : ℕ) (n : Text)
      → Elem n names
      → GroupHolds db n i
      → Elem i (group_policies db names)
  unfolding group_policies
  group_policies-of names i n mn g = rw g.of_policy (
      Elem-join_of _ _ g.group g.binding.policy_id
        (Elem-select_of (λ (r : GrpRow). any (λ m. r.name == m) names) db.grp g.group g.group_exists
          (any_of_Elem (λ m. g.group.name == m) names n mn ((text_beq_iff _ _).1 g.group_name)))
        (Elem-pick_of (λ (r : GrpPolicyRow). r.grp_id == g.group.id) (λ r. r.policy_id)
          db.grp_policy g.binding g.binding_exists ((nat_beq_iff _ _).1 g.of_group)))

  built_in-holds :
      (now : ℕ) (name : Text) (i : ℕ)
      → (n : Text) × Elem n (anonymous_group ∷ logged_in_group ∷ []) × GroupHolds db n i
      → UserHolds db now name i
  built_in-holds now name i (n, here e, g) = built_in (inl (subst (λ m. GroupHolds db m i) e g))
  built_in-holds now name i (n, there (here e), g) =
      built_in (inr (subst (λ m. GroupHolds db m i) e g))
  built_in-holds now name i (n, there (there m), g) = elim m [ ]

  -- `user_policies` lists exactly the policies that the user holds.
  pub user_policies-holds :
      (now : ℕ) (name : Text) (i : ℕ) → Elem i (user_policies db now name) → UserHolds db now name i
  unfolding user_policies
  user_policies-holds now name i m = elim (Elem-append_cases i _ _ m) [
    | inl d ↦ direct_policies-holds now name i d
    | inr r ↦ elim (Elem-append_cases i _ _ r) [
      | inl g ↦ member_policies-holds now name i g
      | inr b ↦ built_in-holds now name i (group_policies-holds _ i b)
    ]
  ]

  built_in-of :
      (i : ℕ)
      → GroupHolds db anonymous_group i ⊎ GroupHolds db logged_in_group i
      → Elem i (group_policies db (anonymous_group ∷ logged_in_group ∷ []))
  built_in-of i (inl g) = group_policies-of _ i anonymous_group (here refl) g
  built_in-of i (inr g) = group_policies-of _ i logged_in_group (there (here refl)) g

  pub user_policies-of :
      (now : ℕ) (name : Text) (i : ℕ) → UserHolds db now name i → Elem i (user_policies db now name)
  unfolding user_policies
  user_policies-of now name i (direct u up a b c d e f) =
      Elem-append_left i _ _ (direct_policies-of now name i u up a b c d e f)
  user_policies-of now name i (member u ug gp a b c d e f g h) =
      Elem-append_right i _ _
        (Elem-append_left i _ _ (member_policies-of now name i u ug gp a b c d e f g h))
  user_policies-of now name i (built_in g) =
      Elem-append_right i _ _
        (Elem-append_right i (member_policies db now name) _ (built_in-of i g))

  pub client_policies-holds :
      (client_id : Text) (i : ℕ)
      → Elem i (client_policies db client_id)
      → ClientHolds db client_id i
  unfolding client_policies
  client_policies-holds client_id i m =
      let (c, mc, m1) = Elem-join _ _ i m in
      let (mc', h) = Elem-select _ db.client c mc in
      let (cp, mcp, h2, e) = Elem-pick _ _ db.client_policy i m1 in
      record {
        client = c;
        binding = cp;
        client_exists = mc';
        external_id = (text_beq_iff _ _).0 h;
        binding_exists = mcp;
        of_client = (nat_beq_iff _ _).0 h2;
        of_policy = e;
      }

  pub client_policies-of :
      (client_id : Text) (i : ℕ)
      → ClientHolds db client_id i
      → Elem i (client_policies db client_id)
  unfolding client_policies
  client_policies-of client_id i h = rw h.of_policy (
      Elem-join_of _ _ h.client h.binding.policy_id
        (Elem-select_of (λ (r : ClientRow). r.external_client_id == client_id) db.client h.client
          h.client_exists ((text_beq_iff _ _).1 h.external_id))
        (Elem-pick_of (λ (r : ClientPolicyRow). r.client_id == h.client.id) (λ r. r.policy_id)
          db.client_policy h.binding h.binding_exists ((nat_beq_iff _ _).1 h.of_client)))
