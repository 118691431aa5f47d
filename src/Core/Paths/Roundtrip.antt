-- ===== src/Core/Paths/Roundtrip.antt =====
-- The encoding of texts as labels is undone by the decoding.
use arborist.Base.{
  ℕ, Text, codes, ◌≡◌, refl, sym, ap, ◌∙◌, Bool, true, false, Option, none, some, [], ◌∷◌, ◌++◌,
  append_assoc, nat_eq, text_beq, text_beq-eq,
}
use arborist.Core.Strings.{
  escape_byte, query_escape, query_unescape, unescape_from, unescape_step, Mode, plain, prefix_out,
  then_from,
}
use arborist.Core.Paths.{underscore_encode, underscore_decode}
use arborist.Core.Paths.Tokens.{
  scan, flat, Bytes, replaced, holds_below, holds_below_sound, replace_all-flat,
}

abbrev pub same : ℕ → Text
same c = c ∷ []

flat-same : (s : Text) → flat same s ≡ s
unfolding flat
flat-same [] = refl
flat-same (c ∷ s) = ap (λ t. c ∷ t) (flat-same s)

query_escape-append : (s t : Text) → query_escape (s ++ t) ≡ query_escape s ++ query_escape t
unfolding query_escape
query_escape-append [] t = refl
query_escape-append (c ∷ s) t =
    ap (λ r. escape_byte c ++ r) (query_escape-append s t) ∙ sym (append_assoc (escape_byte c) _ _)

query_escape-flat :
    (f : ℕ → Text) (s : Text) → query_escape (flat f s) ≡ flat (λ c. query_escape (f c)) s
unfolding flat
query_escape-flat f [] = unfold query_escape in refl
query_escape-flat f (c ∷ s) =
    query_escape-append (f c) (flat f s) ∙ ap (λ r. query_escape (f c) ++ r) (query_escape-flat f s)

-- The token of a byte after each step of `underscore_encode`.
abbrev e1 : ℕ → Text
e1 = replaced (codes "_") (codes "_S0") same

abbrev e2 : ℕ → Text
e2 = replaced (codes "-") (codes "_S1") e1

abbrev e3 : ℕ → Text
e3 = replaced (codes ".") (codes "_S2") e2

abbrev e4 : ℕ → Text
e4 = replaced (codes "~") (codes "_S3") e3

abbrev e5 : ℕ → Text
e5 c = query_escape (e4 c)

abbrev e6 : ℕ → Text
e6 = replaced (codes "%2F") (codes "/") e5

unfoldable pub token : ℕ → Text
unfolding scan query_escape
token = replaced (codes "%") (codes "__") e6

-- The token of a byte after each step of `underscore_decode`.
abbrev d1 : ℕ → Text
d1 = replaced (codes "_S1") (codes "-") token

abbrev d2 : ℕ → Text
d2 = replaced (codes "_S2") (codes ".") d1

abbrev d3 : ℕ → Text
d3 = replaced (codes "_S3") (codes "~") d2

abbrev d4 : ℕ → Text
d4 = replaced (codes "__") (codes "%") d3

abbrev d5 : ℕ → Text
d5 = replaced (codes "_S0") (codes "_") d4

-- One step of the encoding or of the decoding on tokens.
module _ (s : Text) (h : Bytes s) where
  pub underscore_encode-flat : underscore_encode s ≡ flat token s
  unfolding underscore_encode holds_below scan token query_escape
  underscore_encode-flat = cc (
    flat-same s,
    replace_all-flat (codes "_") (codes "_S0") same s refl h,
    replace_all-flat (codes "-") (codes "_S1") e1 s refl h,
    replace_all-flat (codes ".") (codes "_S2") e2 s refl h,
    replace_all-flat (codes "~") (codes "_S3") e3 s refl h,
    query_escape-flat e4 s,
    replace_all-flat (codes "%2F") (codes "/") e5 s refl h,
    replace_all-flat (codes "%") (codes "__") e6 s refl h,
  )

  underscore_decode-flat : underscore_decode (flat token s) ≡ query_unescape (flat d5 s)
  unfolding underscore_decode holds_below scan token query_escape
  underscore_decode-flat = cc (
    replace_all-flat (codes "_S1") (codes "-") token s refl h,
    replace_all-flat (codes "_S2") (codes ".") d1 s refl h,
    replace_all-flat (codes "_S3") (codes "~") d2 s refl h,
    replace_all-flat (codes "__") (codes "%") d3 s refl h,
    replace_all-flat (codes "_S0") (codes "_") d4 s refl h,
  )

prefix_out-prefix_out :
    (t u : Text) (o : Option (Text × Mode)) → prefix_out t (prefix_out u o) ≡ prefix_out (t ++ u) o
prefix_out-prefix_out t u none = refl
prefix_out-prefix_out t u (some (v, m)) = rw (append_assoc t u v)

abbrev resume : (Mode → Option (Text × Mode)) → Option (Text × Mode) → Option (Text × Mode)
resume U o = then_from o U

resume_lem :
    (t out : Text) (m : Mode) (r R : Option (Text × Mode)) (U : Mode → Option (Text × Mode))
    → ((u : Text) (n : Mode) → r ≡ some (u, n) → R ≡ prefix_out u (U n))
    → prefix_out t r ≡ some (out, m)
    → prefix_out t R ≡ prefix_out out (U m)
resume_lem t out m none R U ih h = cc
resume_lem t out m (some (u, n)) R U ih h =
    rw (ih u n refl, prefix_out-prefix_out t u (U n)) (ap (resume U) h)

prefix_out-nil : (o : Option (Text × Mode)) → prefix_out [] o ≡ o
prefix_out-nil none = refl
prefix_out-nil (some (t, m)) = refl

-- The decoding of a text goes on where that of its first part ended.
unescape_from-append :
    (m m' : Mode) (t rest out : Text)
    → unescape_from m t ≡ some (out, m')
    → unescape_from m (t ++ rest) ≡ prefix_out out (unescape_from m' rest)
unfolding unescape_from
unescape_from-append m m' [] rest out h =
    sym (prefix_out-nil _) ∙ ap (resume (λ n. unescape_from n rest)) h
unescape_from-append m m' (c ∷ t) rest out h =
    go (unescape_step m c) (λ n k v e. unescape_from-append n k t rest v e) h
  where
    go :
        (o : Option (Text × Mode))
        → ((n k : Mode) (v : Text)
            → unescape_from n t ≡ some (v, k)
            → unescape_from n (t ++ rest) ≡ prefix_out v (unescape_from k rest))
        → then_from o (λ n. unescape_from n t) ≡ some (out, m')
        → then_from o (λ n. unescape_from n (t ++ rest)) ≡ prefix_out out (unescape_from m' rest)
    go none ih h = cc
    go (some (u, n)) ih h =
        resume_lem u out m' (unescape_from n t) (unescape_from n (t ++ rest))
          (λ k. unescape_from k rest) (λ v k e. ih n k v e) h

abbrev reads : ℕ → Option (Text × Mode) → Bool
reads b (some (out, plain)) = text_beq out (b ∷ [])
reads b _ = false

reads-eq : (b : ℕ) (o : Option (Text × Mode)) → reads b o ≡ true → o ≡ some (b ∷ [], plain)
reads-eq b (some (out, plain)) h = ap (λ t. some (t, plain)) (text_beq-eq out (b ∷ []) h)
reads-eq b none h = cc
reads-eq b _ h = cc

tokens_read : holds_below 256 (λ b. reads b (unescape_from plain (d5 b))) ≡ true
unfolding holds_below scan token query_escape unescape_from text_beq
tokens_read = refl

unescape_from-flat : (s : Text) → Bytes s → unescape_from plain (flat d5 s) ≡ some (s, plain)
unfolding flat
unescape_from-flat [] h = unfold unescape_from in refl
unescape_from-flat (c ∷ s) h =
    unescape_from-append plain plain (d5 c) (flat d5 s) (c ∷ [])
      (reads-eq c _ (holds_below_sound 256 _ c tokens_read h.0))
    ∙ ap (prefix_out (c ∷ [])) (unescape_from-flat s h.1)

pub underscore_decode-tokens : (s : Text) → Bytes s → underscore_decode (flat token s) ≡ s
unfolding query_unescape
underscore_decode-tokens s h =
    rw (underscore_decode-flat s h) (rw (unescape_from-flat s h, query_unescape))

-- For every text of bytes, decoding the encoded text gives the text back.
pub underscore_decode-underscore_encode :
    (s : Text) → Bytes s → underscore_decode (underscore_encode s) ≡ s
underscore_decode-underscore_encode s h =
    rw (underscore_encode-flat s h) (underscore_decode-tokens s h)
