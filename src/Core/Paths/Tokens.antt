-- ===== src/Core/Paths/Tokens.antt =====
-- A text that is written token by token, one token for each byte of another text: `ReplaceAll` on
-- it is a replacement in each token, where no match can straddle the end of a token.
use arborist.Base.{
  ℕ, zero, suc, ◌-◌, ◌<◌, Text, ◌≡◌, refl, ap, ◌∙◌, Bool, true, false, ◌&&◌, Option, none, some, [],
  ◌∷◌, ◌++◌, append_assoc, ◌==◌, nat_eq, if◌then◌else◌, length, inl, inr, Bool-cases, arith,
}
use mathlib.Core.Option.{some-injective}
use arborist.Core.Strings.{has_prefix, replace_from, replace_all}

-- Whether a text begins with `old`, as far as the text itself tells.
pub data Verdict : Type 0 where
  hit miss short : Verdict

check : Text → Text → Verdict
check [] s = hit
check (p ∷ ps) [] = short
check (p ∷ ps) (c ∷ s) = if p == c then check ps s else miss

abbrev Answer : Verdict → Bool → Type 0
Answer hit b = b ≡ true
Answer miss b = b ≡ false
Answer short b = Unit

check_lem : (old s rest : Text) → Answer (check old s) (has_prefix old (s ++ rest))
unfolding check has_prefix
check_lem [] s rest = refl
check_lem (p ∷ ps) [] rest = tt
check_lem (p ∷ ps) (c ∷ s) rest = elim (Bool-cases (p == c)) [
  | inl e ↦ rw e (check_lem ps s rest)
  | inr e ↦ rw e
]

abbrev prefix_out : Text → Option Text → Option Text
prefix_out t none = none
prefix_out t (some s) = some (t ++ s)

abbrev scan_step : Text → ℕ → Verdict → Option Text → Option Text → Option Text
scan_step new c hit found kept = prefix_out new found
scan_step new c miss found kept = prefix_out (c ∷ []) kept
scan_step new c short found kept = none

-- `replace_from` on one token; `none` if what follows the token may matter.
unfoldable pub scan : Text → Text → ℕ → Text → Option Text
unfolding check
scan old new zero [] = some []
scan old new (suc k) [] = none
scan old new (suc k) (c ∷ t) = scan old new k t
scan old new zero (c ∷ t) =
    scan_step new c (check old (c ∷ t)) (scan old new (length old - 1) t) (scan old new zero t)

step_lem :
    (new : Text) (c : ℕ) (v : Verdict) (b : Bool) (found kept : Option Text) (F K R out : Text)
    → Answer v b
    → ((o : Text) → found ≡ some o → F ≡ o ++ R)
    → ((o : Text) → kept ≡ some o → K ≡ o ++ R)
    → scan_step new c v found kept ≡ some out
    → (if b then new ++ F else c ∷ K) ≡ out ++ R
step_lem new c hit b none kept F K R out a f k h = cc
step_lem new c hit b (some o) kept F K R out a f k h =
    rw (a, f o refl, ← append_assoc new o R) (ap (λ t. t ++ R) (some-injective _ _ h))
step_lem new c miss b found none F K R out a f k h = cc
step_lem new c miss b found (some o) F K R out a f k h =
    rw (a, k o refl) (ap (λ t. t ++ R) (some-injective _ _ h))
step_lem new c short b found kept F K R out a f k h = cc

pub replace_from-scan :
    (old new : Text) (k : ℕ) (t rest out : Text)
    → scan old new k t ≡ some out
    → replace_from old new k (t ++ rest) ≡ out ++ replace_from old new 0 rest
unfolding scan replace_from
replace_from-scan old new zero [] rest out h = ground arith
replace_from-scan old new (suc k) [] rest out h = cc
replace_from-scan old new (suc k) (c ∷ t) rest out h = replace_from-scan old new k t rest out h
replace_from-scan old new zero (c ∷ t) rest out h =
    step_lem new c (check old (c ∷ t)) (has_prefix old (c ∷ (t ++ rest)))
      (scan old new (length old - 1) t) (scan old new zero t)
      (replace_from old new (length old - 1) (t ++ rest)) (replace_from old new 0 (t ++ rest))
      (replace_from old new 0 rest) out (check_lem old (c ∷ t) rest)
      (replace_from-scan old new (length old - 1) t rest) (replace_from-scan old new zero t rest) h

-- The tokens of the bytes of `s`, one after the other.
unfoldable pub flat : (ℕ → Text) → Text → Text
flat f [] = []
flat f (c ∷ s) = f c ++ flat f s

-- Every element is a byte.
abbrev pub Bytes : Text → Type 0
Bytes [] = Unit
Bytes (c ∷ s) = (c < 256) × Bytes s

abbrev or_nil : Option Text → Text
or_nil none = []
or_nil (some t) = t

abbrev is_some : Option Text → Bool
is_some none = false
is_some (some t) = true

-- The tokens after the replacement.
abbrev pub replaced : Text → Text → (ℕ → Text) → ℕ → Text
replaced old new f b = or_nil (scan old new 0 (f b))

unfoldable pub holds_below : ℕ → (ℕ → Bool) → Bool
holds_below zero p = true
holds_below (suc n) p = p n && holds_below n p

pub holds_below_sound : (n : ℕ) (p : ℕ → Bool) (x : ℕ) → holds_below n p ≡ true → x < n → p x ≡ true
unfolding holds_below
holds_below_sound zero p x h lt = absurd (omega arith)
holds_below_sound (suc n) p x h lt = ground (arith, holds_below_sound n p x)

-- No match straddles the end of a token.
abbrev pub Closed : Text → Text → (ℕ → Text) → Type 0
Closed old new f = holds_below 256 (λ b. is_some (scan old new 0 (f b))) ≡ true

scanned : (o : Option Text) → is_some o ≡ true → o ≡ some (or_nil o)
scanned none h = cc
scanned (some t) h = refl

pub replace_all-flat :
    (old new : Text) (f : ℕ → Text) (s : Text)
    → Closed old new f
    → Bytes s
    → replace_all (flat f s) old new ≡ flat (replaced old new f) s
unfolding replace_all flat
replace_all-flat old new f [] closed h = unfold replace_from in refl
replace_all-flat old new f (c ∷ s) closed h =
    replace_from-scan old new 0 (f c) (flat f s) (replaced old new f c)
      (scanned _ (holds_below_sound 256 _ c closed h.0))
    ∙ ap (λ t. replaced old new f c ++ t) (replace_all-flat old new f s closed h.1)
