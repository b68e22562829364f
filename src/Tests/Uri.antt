-- ===== src/Tests/Uri.antt =====
-- Tests of decodeUri, minetype and catPath.
use socker.Prelude.{◌≡◌, refl, ◌∷◌, ◌++◌, arith}
use socker.Assoc.{get}
use socker.Boost.Reference.{reference}
use socker.Text.{Text, bytes, text_eq, text_beq, rfind, tolower}
use socker.Http.Uri.{decode_uri, decode_loop, decode_char, minetype}
use socker.Http.Uri.Decode.{decode_uri_percent}

abbrev escaped : Text
escaped = bytes "/A+b%2Fc"

decode_escaped : decode_uri reference escaped ≡ bytes "/a b" ++ 0 ∷ bytes "c"
unfolding decode_uri decode_loop decode_char tolower
decode_escaped = refl

decode_uri_percent_example :
    decode_uri reference (bytes "/a" ++ b'%' ∷ b'4' ∷ b'1' ∷ bytes "z")
    ≡ decode_uri reference (bytes "/a") ++ 0 ∷ decode_uri reference (bytes "z")
decode_uri_percent_example =
    decode_uri_percent reference (bytes "/a") (bytes "z") b'4' b'1' (omega arith)

minetype_tests :
    (minetype (bytes "/w/index.html") ≡ bytes "text/html")
    × (minetype (bytes "/w/a.b/readme") ≡ bytes "")
    × (minetype (bytes "/w/readme") ≡ bytes "text/plain")
unfolding minetype rfind get text_beq
minetype_tests = (refl, refl, refl)
