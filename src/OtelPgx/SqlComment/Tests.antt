-- ===== src/OtelPgx/SqlComment/Tests.antt =====
-- The comments of adapters/otelpgx/sqlcomment_test.go, and the theorems on one of them.
use micra.Common.{some, [], ◌++◌, ◌≡◌, refl, ◌≢◌, Bytes, codes, arith}
use micra.OtelPgx.SqlComment.{CommentFields, escape_value, encode}
use micra.OtelPgx.SqlComment.Escaping.{percent_decode, percent_decode-escape_value}
use micra.OtelPgx.SqlComment.Scanning.{strip_comment, strip_comment-encode, AreBytes}

abbrev odd_route : Bytes
odd_route = codes "/foo bar?x=1"

abbrev with_route : CommentFields
with_route = record { application = codes "bob's-svc"; route = odd_route; traceparent = [] }

encodes_special_chars :
    encode with_route ≡ codes "/*application='bob%27s-svc',route='%2Ffoo%20bar%3Fx%3D1'*/"
unfolding encode
encodes_special_chars = refl

encodes_nothing : encode (record { application = []; route = []; traceparent = [] }) ≡ []
unfolding encode
encodes_nothing = refl

percent_decode-escape_value_example : percent_decode (escape_value odd_route) ≡ some odd_route
percent_decode-escape_value_example = percent_decode-escape_value odd_route (omega arith)

with_route-AreBytes : AreBytes with_route
with_route-AreBytes = record { application = omega arith; route = omega arith; traceparent = tt }

encode-ne-nil : encode with_route ≢ []
unfolding encode
encode-ne-nil e = cc

strip_comment-encode_example :
    strip_comment (encode with_route ++ codes "SELECT 1") ≡ some (codes "SELECT 1")
strip_comment-encode_example =
    strip_comment-encode with_route (codes "SELECT 1") with_route-AreBytes encode-ne-nil
