-- ===== src/Engine/Mapping/Agrees.antt =====
-- The mapping of a user and the check of one request of this user agree.
use arborist.Base.{
  ℕ, Text, codes, ◌≡◌, ◌≢◌, refl, ap, ◌∙◌, sym, inl, inr, true, some, [], ◌∷◌, Elem, arith,
  is_empty, if◌then◌else◌,
}
use arborist.Core.Strings.{has_prefix}
use arborist.Core.Paths.{format_db_path, format_path_for_db}
use arborist.Core.Paths.Tokens.{Bytes}
use arborist.Core.Paths.Absolute.{IsAbsolute, format_db_path-format_path_for_db}
use arborist.Store.Ltree.{Ltree, IsLawful}
use arborist.Store.Schema.{Db, ResourceRow, PermissionRow}
use arborist.Engine.Request.{Action, AuthRequest, create_descendant_method}
use arborist.Engine.Spec.{Fits, unrestricted}
use arborist.Engine.Authorize.{Target, target_of, at_path, authorize_user}
use arborist.Engine.Authorize.Correct.{UserMay, authorize_user-UserMay}
use arborist.Engine.Mapping.{auth_mapping_for_user}
use arborist.Engine.Mapping.Collect.{actions_at}
use arborist.Engine.Mapping.Correct.{
  Reaches, exactly, inherited, UserMaps, auth_mapping_for_user-UserMaps,
}

module _ (L : Ltree) (laws : IsLawful L) (db : Db L.Label) (now : ℕ) where
  -- The label path of a resource is the database form of a path that begins with one slash.
  pub record IsStored (r : ResourceRow L.Label) : Type 0 where
    pub shown : Text
    pub bytes : Bytes shown
    pub absolute : IsAbsolute shown
    pub label : L.ltree2text r.path ≡ format_path_for_db shown
    pub proper : format_path_for_db shown ≢ []

  -- The request that asks for one action at a path.
  abbrev pub asking : Text → Text → Action → AuthRequest
  asking username q action = record {
    username = username;
    client_id = [];
    policies = [];
    resource = q;
    service = action.service;
    method = action.method;
  }

  target_absolute :
      (p : Text)
      → IsAbsolute p
      → format_path_for_db p ≢ []
      → target_of p ≡ at_path (format_path_for_db p)
  unfolding target_of has_prefix
  target_absolute [] a n = absurd a
  target_absolute (c ∷ s) a n = rw a.0 (nonempty (format_path_for_db (b'/' ∷ s)) (rw a.0 at n))
    where
      nonempty :
          (t : Text) → t ≢ [] → (if is_empty t then Target.missing else at_path t) ≡ at_path t
      nonempty [] h = absurd (h refl)
      nonempty (d ∷ t) h = refl

  -- The path that the mapping shows leads back to the resource.
  shown_path :
      (r : ResourceRow L.Label) (s : IsStored r) → format_db_path (L.ltree2text r.path) ≡ s.shown
  shown_path r s = rw s.label (format_db_path-format_path_for_db s.shown s.bytes s.absolute)

  shown_label :
      (r : ResourceRow L.Label) (s : IsStored r)
      → L.text2ltree (format_path_for_db s.shown) ≡ some r.path
  shown_label r s = rw (← s.label) (laws.text2ltree-ltree2text r.path)

  Reaches-descends :
      (pm : PermissionRow) (p root : L.Label)
      → Reaches L laws db now pm p root
      → L.descends p root ≡ true
  Reaches-descends pm p root (exactly a b e) = rw e (laws.descends_refl root)
  Reaches-descends pm p root (inherited n d) = d

  maps-may :
      (username q : Text) (action : Action) (r : ResourceRow L.Label)
      → UserMaps L laws db now username action r
      → UserMay L db now (asking username q action) (λ root. L.descends r.path root ≡ true)
  maps-may username q action r u = record {
    policy_id = u.policy_id;
    root = u.root;
    holds = u.holds;
    covers = u.covers;
    root_fits = Reaches-descends u.permission r.path u.root.path u.reaches_it;
    permitted = record {
      link = u.link;
      permission = u.permission;
      link_exists = u.link_exists;
      of_policy = u.of_policy;
      permission_exists = u.permission_exists;
      of_role = u.of_role;
      fits_service = inl (sym (ap (λ (a : Action). a.service) u.same_action));
      fits_method = inl (sym (ap (λ (a : Action). a.method) u.same_action));
    };
    listed = unrestricted refl;
  }

  -- If the label paths of all resources are database forms of paths with one leading slash, then every
  -- action that the mapping of a user lists at a path is one that the user is authorized for there.
  pub auth_mapping-authorize_user :
      ((r : ResourceRow L.Label) → Elem r db.resource → IsStored r)
      → (username q : Text) (action : Action)
      → Elem action (actions_at q (auth_mapping_for_user L db now username))
      → authorize_user L db now (asking username q action) ≡ some true
  auth_mapping-authorize_user stored username q action h =
      let (r, mr, e, u) = (auth_mapping_for_user-UserMaps L laws db now username q action).0 h in
      let s = stored r mr in
      let same = sym (shown_path r s) ∙ e in
      (authorize_user-UserMay L db now (asking username q action) r.path
          (rw (← same) (target_absolute s.shown s.absolute s.proper))
          (rw (← same) (shown_label r s))).1
        (maps-may username q action r u)

  permits-Reaches :
      (action : Action) (pm : PermissionRow) (p root : L.Label)
      → ¬ ((action.service ≡ codes "arborist") × (action.method ≡ create_descendant_method))
      → Fits pm.service action.service
      → Fits pm.method action.method
      → L.descends p root ≡ true
      → Reaches L laws db now pm p root
  permits-Reaches action pm p root n (inl s) (inl m) d =
      inherited (λ k. n (sym s ∙ k.0, sym m ∙ k.1)) d
  permits-Reaches action pm p root n (inr s) m d = inherited (λ k. different (sym s ∙ k.0)) d
    where
      different : codes "*" ≡ codes "arborist" → ⊥
      different e = ground arith
  permits-Reaches action pm p root n (inl s) (inr m) d = inherited (λ k. different (sym m ∙ k.1)) d
    where
      different : codes "*" ≡ create_descendant_method → ⊥
      different e = ground arith

  -- If the label path of a resource is the database form of a path with one leading slash, and a user
  -- is authorized there for an action other than `create-descendant` of Arborist by a request that
  -- names no policies, then the mapping of the user lists at this path an action that is the same or
  -- has the star for the service or the method.
  pub authorize_user-auth_mapping :
      (username : Text) (action : Action) (r : ResourceRow L.Label)
      → Elem r db.resource
      → (s : IsStored r)
      → ¬ ((action.service ≡ codes "arborist") × (action.method ≡ create_descendant_method))
      → authorize_user L db now (asking username s.shown action) ≡ some true
      → (listed : Action) × Elem listed
          (actions_at s.shown (auth_mapping_for_user L db now username))
        × Fits listed.service action.service
        × Fits listed.method action.method
  authorize_user-auth_mapping username action r mr s n h =
      let m =
        (authorize_user-UserMay L db now (asking username s.shown action) r.path
            (target_absolute s.shown s.absolute s.proper) (shown_label r s)).0
          h in
      let pm = m.permitted.permission in
      let listed : Action = record { service = pm.service; method = pm.method } in
      (
        listed,
        (auth_mapping_for_user-UserMaps L laws db now username s.shown listed).1 (
          r,
          mr,
          shown_path r s,
          record {
            policy_id = m.policy_id;
            root = m.root;
            link = m.permitted.link;
            permission = pm;
            holds = m.holds;
            covers = m.covers;
            link_exists = m.permitted.link_exists;
            of_policy = m.permitted.of_policy;
            permission_exists = m.permitted.permission_exists;
            of_role = m.permitted.of_role;
            reaches_it =
                permits-Reaches action pm r.path m.root.path n m.permitted.fits_service
                  m.permitted.fits_method m.root_fits;
            same_action = refl;
          },
        ),
        m.permitted.fits_service,
        m.permitted.fits_method,
      )
