-- ===== src/Core/Strings.antt =====
-- What the repository uses of Go's packages `strings`, `regexp` and `net/url`, over bytes. White
-- space and letter case are those of ASCII.
use arborist.Base.{
  ℕ, zero, suc, ◌+◌, ◌-◌, ◌*◌, ◌/◌, ◌%◌, Text, Bool, true, false, ◌&&◌, ◌||◌, Option, none, some,
  [], ◌∷◌, ◌++◌, map, leb, ltb, ◌==◌, nat_eq, if◌then◌else◌, length,
}
use mathlib.Core.List.{reverse}

-- strings.HasPrefix(s, prefix), with the prefix first
unfoldable pub has_prefix : Text → Text → Bool
has_prefix [] s = true
has_prefix (p ∷ ps) [] = false
has_prefix (p ∷ ps) (c ∷ s) = p == c && has_prefix ps s

-- The scan of strings.ReplaceAll: `skip` bytes belong to a match that is already replaced.
unfoldable pub replace_from : Text → Text → ℕ → Text → Text
unfolding has_prefix
replace_from old new skip [] = []
replace_from old new (suc k) (c ∷ s) = replace_from old new k s
replace_from old new zero (c ∷ s) =
    let hit = new ++ replace_from old new (length old - 1) s in
    let miss = c ∷ replace_from old new zero s in if has_prefix old (c ∷ s) then hit else miss

-- strings.ReplaceAll(s, old, new) for a non-empty `old`
unfoldable pub replace_all : Text → Text → Text → Text
unfolding replace_from
replace_all s old new = replace_from old new 0 s

-- strings.ToLower
unfoldable pub to_lower_byte : ℕ → ℕ
to_lower_byte c = if leb b'A' c && leb c b'Z' then c + 32 else c

unfoldable pub to_lower : Text → Text
unfolding to_lower_byte
to_lower = map to_lower_byte

unfoldable pub is_space : ℕ → Bool
is_space c = c == 32 || (leb 9 c && leb c 13)

-- Drops the leading bytes that the test accepts.
unfoldable pub trim_left_by : (ℕ → Bool) → Text → Text
trim_left_by p [] = []
trim_left_by p (c ∷ s) = let rest = trim_left_by p s in if p c then rest else c ∷ s

unfoldable pub trim_by : (ℕ → Bool) → Text → Text
unfolding trim_left_by
trim_by p s = reverse (trim_left_by p (reverse (trim_left_by p s)))

-- strings.TrimSpace
unfoldable pub trim_space : Text → Text
unfolding trim_by is_space
trim_space = trim_by is_space

-- regexp.MustCompile(`/+`).ReplaceAllLiteralString(s, "/"), given the byte before `s`
unfoldable pub collapse_after : ℕ → Text → Text
collapse_after prev [] = []
collapse_after prev (c ∷ s) =
    let rest = collapse_after c s in if prev == b'/' && c == b'/' then rest else c ∷ rest

unfoldable pub collapse_slashes : Text → Text
unfolding collapse_after
collapse_slashes = collapse_after 0

abbrev hex_digit : ℕ → ℕ
hex_digit n = if ltb n 10 then n + b'0' else n + 55

unfoldable pub is_alnum : ℕ → Bool
is_alnum c = (leb b'a' c && leb c b'z') || (leb b'A' c && leb c b'Z') || (leb b'0' c && leb c b'9')

-- url.QueryEscape, byte by byte
unfoldable pub escape_byte : ℕ → Text
unfolding is_alnum
escape_byte c =
    if is_alnum c || c == b'-' || c == b'_' || c == b'.' || c == b'~'
    then c ∷ []
    else if c == 32
    then b'+' ∷ []
    else b'%' ∷ hex_digit (c / 16) ∷ hex_digit (c % 16) ∷ []

unfoldable pub query_escape : Text → Text
unfolding escape_byte
query_escape [] = []
query_escape (c ∷ s) = escape_byte c ++ query_escape s

unfoldable pub hex_value : ℕ → Option ℕ
hex_value c =
    if leb b'0' c && leb c b'9'
    then some (c - b'0')
    else if leb b'A' c && leb c b'F'
    then some (c - 55)
    else if leb b'a' c && leb c b'f'
    then some (c - 87)
    else none

-- Where url.QueryUnescape stands: outside an escape, after `%`, after `%` and one digit.
pub data Mode : Type 0 where
  plain percent : Mode
  digit : ℕ → Mode

-- One byte: what it writes, and the place after it. `none` is an invalid escape.
unfoldable pub unescape_step : Mode → ℕ → Option (Text × Mode)
unfolding hex_value
unescape_step plain c =
    some
      (if c == b'%' then ([], percent) else if c == b'+' then (32 ∷ [], plain) else (c ∷ [], plain))
unescape_step percent c = elim (hex_value c) [ none ↦ none | some h ↦ some ([], digit h) ]
unescape_step (digit h) c = elim (hex_value c) [
  | none ↦ none
  | some l ↦ some ((h * 16 + l) ∷ [], plain)
]

abbrev pub prefix_out : Text → Option (Text × Mode) → Option (Text × Mode)
prefix_out out none = none
prefix_out out (some (rest, m)) = some (out ++ rest, m)

abbrev pub then_from : Option (Text × Mode) → (Mode → Option (Text × Mode)) → Option (Text × Mode)
then_from none k = none
then_from (some (out, m)) k = prefix_out out (k m)

unfoldable pub unescape_from : Mode → Text → Option (Text × Mode)
unfolding unescape_step
unescape_from m [] = some ([], m)
unescape_from m (c ∷ s) = then_from (unescape_step m c) (λ m'. unescape_from m' s)

abbrev finished : Option (Text × Mode) → Text
finished (some (out, plain)) = out
finished _ = []

-- decoded, _ = url.QueryUnescape(s): an invalid escape gives the empty text.
unfoldable pub query_unescape : Text → Text
unfolding unescape_from
query_unescape s = finished (unescape_from plain s)
