-- ===== src/Core/Paths/Clean.antt =====
-- The normal form that `clean_resource_path` gives.
use mathlib.Core.List.{reverse, reverse-append}
use arborist.Base.{
  ℕ, Text, ◌≡◌, refl, ◌≢◌, ◌⊎◌, inl, inr, Bool, [], ◌∷◌, ◌++◌, nat_eq, is_empty, if◌then◌else◌,
  Bool-cases, arith,
}
use arborist.Core.Strings.{
  is_space, trim_left_by, trim_by, trim_space, collapse_after, collapse_slashes,
}
use arborist.Core.Paths.{clean_resource_path, is_slash, format_path_for_db, format_db_path}
use arborist.Core.Paths.Tokens.{Bytes}
use arborist.Core.Paths.Absolute.{NoSlash, IsAbsolute, format_db_path-format_path_for_db}

-- No two slashes stand side by side.
abbrev pub NoDouble : Text → Type 0
NoDouble [] = Unit
NoDouble (c ∷ s) = (c ≡ b'/' → NoSlash s) × NoDouble s

-- A cleaned path: one slash in front, and no double one.
pub record IsClean (p : Text) : Type 0 where
  pub absolute : IsAbsolute p
  pub single : NoDouble p

collapse_split :
    (prev c : ℕ) (s : Text)
    → ((prev ≡ b'/') × (c ≡ b'/') × (collapse_after prev (c ∷ s) ≡ collapse_after c s))
      ⊎ ((prev ≡ b'/' → c ≢ b'/') × (collapse_after prev (c ∷ s) ≡ c ∷ collapse_after c s))
unfolding collapse_after
collapse_split prev c s = ground arith

collapse_after-NoSlash : (prev : ℕ) (s : Text) → prev ≡ b'/' → NoSlash (collapse_after prev s)
collapse_after-NoSlash prev [] e = unfold collapse_after in tt
collapse_after-NoSlash prev (c ∷ s) e = elim (collapse_split prev c s) [
  | inl (p, q, same) ↦ rw same (collapse_after-NoSlash c s q)
  | inr (n, kept) ↦ rw kept (n e)
]

collapse_after-NoDouble : (prev : ℕ) (s : Text) → NoDouble (collapse_after prev s)
collapse_after-NoDouble prev [] = unfold collapse_after in tt
collapse_after-NoDouble prev (c ∷ s) = elim (collapse_split prev c s) [
  | inl (p, q, same) ↦ rw same (collapse_after-NoDouble c s)
  | inr (n, kept) ↦ rw kept (collapse_after-NoSlash c s, collapse_after-NoDouble c s)
]

slash_first : (s : Text) → collapse_slashes (b'/' ∷ s) ≡ b'/' ∷ collapse_after b'/' s
unfolding collapse_slashes
slash_first s = refl

slash_first-IsClean : (s : Text) → IsClean (collapse_slashes (b'/' ∷ s))
slash_first-IsClean s = rw (slash_first s) (record {
  absolute = (refl, collapse_after-NoSlash b'/' s refl);
  single = (collapse_after-NoSlash b'/' s, collapse_after-NoDouble b'/' s);
})

-- A cleaned path is empty, exactly when the path was white space alone, or it begins with one slash
-- and holds no two slashes side by side.
pub clean_resource_path-IsClean :
    (path : Text)
    → ((trim_space path ≡ []) × (clean_resource_path path ≡ []))
      ⊎ ((trim_space path ≢ []) × IsClean (clean_resource_path path))
unfolding clean_resource_path
clean_resource_path-IsClean path = go (trim_space path)
  where
    go :
        (t : Text)
        → ((t ≡ [])
            × ((if is_empty t then [] else collapse_slashes (b'/' ∷ trim_by is_slash t)) ≡ []))
          ⊎ ((t ≢ [])
              × IsClean (if is_empty t then [] else collapse_slashes (b'/' ∷ trim_by is_slash t)))
    go [] = inl (refl, refl)
    go (c ∷ t) = inr (λ e. cc, slash_first-IsClean (trim_by is_slash (c ∷ t)))

Bytes-append : (s t : Text) → Bytes s → Bytes t → Bytes (s ++ t)
Bytes-append [] t h k = k
Bytes-append (c ∷ s) t h k = (h.0, Bytes-append s t h.1 k)

Bytes-reverse : (s : Text) → Bytes s → Bytes (reverse s)
Bytes-reverse [] h = tt
Bytes-reverse (c ∷ s) h =
    rw (reverse-append (c ∷ []) s)
      (Bytes-append (reverse s) (c ∷ []) (Bytes-reverse s h.1) (h.0, tt))

Bytes-trim_left_by : (p : ℕ → Bool) (s : Text) → Bytes s → Bytes (trim_left_by p s)
unfolding trim_left_by
Bytes-trim_left_by p [] h = h
Bytes-trim_left_by p (c ∷ s) h = elim (Bool-cases (p c)) [
  | inl e ↦ rw e (Bytes-trim_left_by p s h.1)
  | inr e ↦ rw e h
]

Bytes-trim_by : (p : ℕ → Bool) (s : Text) → Bytes s → Bytes (trim_by p s)
unfolding trim_by
Bytes-trim_by p s h =
    Bytes-reverse _ (Bytes-trim_left_by p _ (Bytes-reverse _ (Bytes-trim_left_by p s h)))

Bytes-collapse_after : (prev : ℕ) (s : Text) → Bytes s → Bytes (collapse_after prev s)
Bytes-collapse_after prev [] h = unfold collapse_after in tt
Bytes-collapse_after prev (c ∷ s) h = elim (collapse_split prev c s) [
  | inl (p, q, same) ↦ rw same (Bytes-collapse_after c s h.1)
  | inr (n, kept) ↦ rw kept (h.0, Bytes-collapse_after c s h.1)
]

Bytes-clean_resource_path : (path : Text) → Bytes path → Bytes (clean_resource_path path)
unfolding clean_resource_path
Bytes-clean_resource_path path h =
    go (trim_space path) (unfold trim_space in Bytes-trim_by is_space path h)
  where
    go :
        (t : Text)
        → Bytes t
        → Bytes (if is_empty t then [] else collapse_slashes (b'/' ∷ trim_by is_slash t))
    go [] k = tt
    go (c ∷ t) k =
        rw (slash_first (trim_by is_slash (c ∷ t)))
          (omega arith, Bytes-collapse_after b'/' _ (Bytes-trim_by is_slash (c ∷ t) k))

-- A cleaned path of a text of bytes that is not white space alone is shown as itself after a round
-- trip through the database.
pub clean_resource_path_roundtrip :
    (path : Text)
    → Bytes path
    → trim_space path ≢ []
    → format_db_path (format_path_for_db (clean_resource_path path)) ≡ clean_resource_path path
clean_resource_path_roundtrip path h n = elim (clean_resource_path-IsClean path) [
  | inl (blank, e) ↦ absurd (n blank)
  | inr (m, c) ↦ format_db_path-format_path_for_db _ (Bytes-clean_resource_path path h) c.absolute
]
