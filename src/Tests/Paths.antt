-- ===== src/Tests/Paths.antt =====
-- Tests of Core.
use arborist.Base.{codes, ◌≡◌, ◌≢◌, refl, [], ◌⊎◌, arith}
use arborist.Core.Strings.{
  replace_all, query_escape, query_unescape, trim_left_by, trim_by, trim_space, collapse_slashes,
}
use arborist.Core.Paths.Roundtrip.{underscore_decode-underscore_encode}
use arborist.Core.Paths.Absolute.{format_db_path-format_path_for_db, format_path_for_db-injective}
use arborist.Core.Paths.Clean.{IsClean, clean_resource_path-IsClean, clean_resource_path_roundtrip}
use arborist.Core.Paths.{
  underscore_encode, underscore_decode, clean_resource_path, format_path_for_db, format_db_path,
}

encode_test : underscore_encode (codes "/a-b/c_%d e") ≡ codes "/a_S1b/c_S0__25d+e"
unfolding underscore_encode replace_all query_escape
encode_test = refl

decode_test : underscore_decode (codes "/a_S1b/c_S0__25d+e") ≡ codes "/a-b/c_%d e"
unfolding underscore_decode replace_all query_unescape
decode_test = refl

clean_test : clean_resource_path (codes "  programs//a/ ") ≡ codes "/programs/a"
unfolding clean_resource_path trim_space trim_by collapse_slashes
clean_test = refl

format_test : format_path_for_db (codes "/programs/a.b") ≡ codes "programs.a_S2b"
unfolding format_path_for_db underscore_encode replace_all query_escape trim_left_by
format_test = refl

format_back_test : format_db_path (codes "programs.a_S2b") ≡ codes "/programs/a.b"
unfolding format_db_path underscore_decode replace_all query_unescape
format_back_test = refl

underscore_decode-underscore_encode_example :
    underscore_decode (underscore_encode (codes "a b_/-%")) ≡ codes "a b_/-%"
underscore_decode-underscore_encode_example =
    underscore_decode-underscore_encode (codes "a b_/-%") (omega arith)

format_db_path-format_path_for_db_example :
    format_db_path (format_path_for_db (codes "/programs/a-b")) ≡ codes "/programs/a-b"
format_db_path-format_path_for_db_example =
    format_db_path-format_path_for_db (codes "/programs/a-b") (omega arith) (omega arith)

format_path_for_db-injective_example : codes "/a" ≡ codes "/a"
format_path_for_db-injective_example =
    format_path_for_db-injective (codes "/a") (codes "/a") (omega arith) (omega arith) (omega arith)
      (omega arith) refl

not_blank : trim_space (codes " programs//a") ≢ []
unfolding trim_space trim_by
not_blank e = cc

clean_resource_path_roundtrip_example :
    format_db_path (format_path_for_db (clean_resource_path (codes " programs//a")))
    ≡ clean_resource_path (codes " programs//a")
clean_resource_path_roundtrip_example =
    clean_resource_path_roundtrip (codes " programs//a") (omega arith) not_blank

clean_resource_path-IsClean_example :
    ((trim_space (codes " ") ≡ []) × (clean_resource_path (codes " ") ≡ []))
    ⊎ ((trim_space (codes " ") ≢ []) × IsClean (clean_resource_path (codes " ")))
clean_resource_path-IsClean_example = clean_resource_path-IsClean (codes " ")
