-- ===== src/Core/Paths.antt =====
-- internal/authz/core/utils.go: resource paths and their encoding as label paths. The functions of
-- the same names in internal/authz/store/resource/resource.go have the same bodies.
pub mod Tokens
pub mod Roundtrip
pub mod Absolute
pub mod Clean
use arborist.Base.{ℕ, Text, codes, Bool, [], ◌∷◌, ◌==◌, nat_eq, is_empty, if◌then◌else◌}
use arborist.Core.Strings.{
  replace_all, query_escape, query_unescape, trim_left_by, trim_by, trim_space, collapse_slashes,
}

unfoldable pub underscore_encode : Text → Text
underscore_encode decoded =
    let a = replace_all decoded (codes "_") (codes "_S0") in
    let b = replace_all a (codes "-") (codes "_S1") in
    let c = replace_all b (codes ".") (codes "_S2") in
    let d = replace_all c (codes "~") (codes "_S3") in
    let e = query_escape d in
    let f = replace_all e (codes "%2F") (codes "/") in replace_all f (codes "%") (codes "__")

unfoldable pub underscore_decode : Text → Text
underscore_decode encoded =
    let a = replace_all encoded (codes "_S1") (codes "-") in
    let b = replace_all a (codes "_S2") (codes ".") in
    let c = replace_all b (codes "_S3") (codes "~") in
    let d = replace_all c (codes "__") (codes "%") in
    let e = replace_all d (codes "_S0") (codes "_") in query_unescape e

abbrev is_slash : ℕ → Bool
is_slash c = c == b'/'

abbrev is_dot : ℕ → Bool
is_dot c = c == b'.'

unfoldable pub clean_resource_path : Text → Text
clean_resource_path path =
    let p = trim_space path in
    if is_empty p then [] else collapse_slashes (b'/' ∷ trim_by is_slash p)

unfoldable pub format_path_for_db : Text → Text
format_path_for_db path =
    trim_left_by is_dot (replace_all (underscore_encode path) (codes "/") (codes "."))

unfoldable pub format_db_path : Text → Text
format_db_path path = underscore_decode (b'/' ∷ replace_all path (codes ".") (codes "/"))
