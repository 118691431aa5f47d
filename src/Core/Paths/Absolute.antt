-- ===== src/Core/Paths/Absolute.antt =====
-- A resource path comes back from its database form.
use arborist.Base.{
  ℕ, Text, codes, ◌≡◌, ◌≢◌, refl, sym, ap, ◌∙◌, Bool, true, false, not, [], ◌∷◌, ◌++◌, ◌<◌, ◌==◌,
  nat_eq, text_beq, text_beq-eq, arith, ◌||◌,
}
use arborist.Core.Strings.{query_escape, trim_left_by}
use arborist.Core.Paths.{underscore_decode, format_path_for_db, format_db_path, is_dot}
use arborist.Core.Paths.Tokens.{
  scan, flat, Bytes, replaced, holds_below, holds_below_sound, replace_all-flat,
}
use arborist.Core.Paths.Roundtrip.{underscore_encode-flat, token, underscore_decode-tokens}

-- A path that begins with one slash.
abbrev pub NoSlash : Text → Type 0
NoSlash [] = Unit
NoSlash (c ∷ s) = c ≢ b'/'

abbrev pub IsAbsolute : Text → Type 0
IsAbsolute [] = ⊥
IsAbsolute (c ∷ s) = (c ≡ b'/') × NoSlash s

abbrev dotted : ℕ → Text
dotted = replaced (codes "/") (codes ".") token

abbrev head_is_dot : Text → Bool
head_is_dot [] = true
head_is_dot (c ∷ s) = is_dot c

trim_left_by_none : (t r : Text) → head_is_dot t ≡ false → trim_left_by is_dot (t ++ r) ≡ t ++ r
unfolding trim_left_by
trim_left_by_none [] r h = cc
trim_left_by_none (c ∷ t) r h = rw h

dotted_heads : holds_below 256 (λ b. b == b'/' || not (head_is_dot (dotted b))) ≡ true
unfolding holds_below scan token query_escape
dotted_heads = refl

dotted_head : (c : ℕ) → c < 256 → c ≢ b'/' → head_is_dot (dotted c) ≡ false
dotted_head c h n = ground (arith, holds_below_sound 256 _ c dotted_heads h)

undotted_tokens :
    holds_below 256 (λ b. text_beq (replaced (codes ".") (codes "/") dotted b) (token b)) ≡ true
unfolding holds_below scan token query_escape text_beq
undotted_tokens = refl

flat_congr :
    (f g : ℕ → Text) (s : Text)
    → holds_below 256 (λ b. text_beq (f b) (g b)) ≡ true
    → Bytes s
    → flat f s ≡ flat g s
unfolding flat
flat_congr f g [] e h = refl
flat_congr f g (c ∷ s) e h = cc (
  text_beq-eq _ _ (holds_below_sound 256 (λ b. text_beq (f b) (g b)) c e h.0),
  flat_congr f g s e h.1,
)

trim_dotted : (s : Text) → Bytes s → NoSlash s → trim_left_by is_dot (flat dotted s) ≡ flat dotted s
unfolding flat
trim_dotted [] h n = unfold trim_left_by in refl
trim_dotted (c ∷ s) h n = trim_left_by_none (dotted c) (flat dotted s) (dotted_head c h.0 n)

-- The label path of a path has a dot for each slash but the first.
format_path_for_db-flat :
    (s : Text) → Bytes s → NoSlash s → format_path_for_db (b'/' ∷ s) ≡ flat dotted s
unfolding format_path_for_db holds_below scan token query_escape
format_path_for_db-flat s h n =
    rw
      (
        underscore_encode-flat (b'/' ∷ s) (omega arith, h),
        replace_all-flat (codes "/") (codes ".") token (b'/' ∷ s) refl (omega arith, h),
      )
      (unfold flat in unfold trim_left_by in trim_dotted s h n)

token_slash : (s : Text) → b'/' ∷ flat token s ≡ flat token (b'/' ∷ s)
unfolding flat scan token query_escape
token_slash s = refl

format_db_path-flat : (s : Text) → Bytes s → format_db_path (flat dotted s) ≡ b'/' ∷ s
unfolding format_db_path holds_below scan token query_escape
format_db_path-flat s h =
    ap (λ t. underscore_decode (b'/' ∷ t))
      (replace_all-flat (codes ".") (codes "/") dotted s refl h
        ∙ flat_congr _ token s undotted_tokens h)
    ∙ ap underscore_decode (token_slash s)
    ∙ underscore_decode-tokens (b'/' ∷ s) (omega arith, h)

-- For every path of bytes that begins with exactly one slash, the path that the database path of it
-- is shown as is the path itself.
pub format_db_path-format_path_for_db :
    (p : Text) → Bytes p → IsAbsolute p → format_db_path (format_path_for_db p) ≡ p
format_db_path-format_path_for_db [] h a = absurd a
format_db_path-format_path_for_db (c ∷ s) h a =
    rw a.0 (rw (format_path_for_db-flat s h.1 a.1) (format_db_path-flat s h.1))

-- Two paths of bytes that begin with exactly one slash and have the same database path are equal.
pub format_path_for_db-injective :
    (p q : Text)
    → Bytes p
    → Bytes q
    → IsAbsolute p
    → IsAbsolute q
    → format_path_for_db p ≡ format_path_for_db q
    → p ≡ q
format_path_for_db-injective p q hp hq ip iq e =
    sym (format_db_path-format_path_for_db p hp ip)
    ∙ ap format_db_path e
    ∙ format_db_path-format_path_for_db q hq iq
