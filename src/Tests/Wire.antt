-- ===== src/Tests/Wire.antt =====
-- The theorem on the portable codecs, at one word.
use ttserver.Base.{◌≡◌, [], ◌∷◌, ◌++◌}
use ttserver.Bytes.{encode64u, decode64u_portable}
use ttserver.Bytes.Laws.{decode64u_portable-encode64u}

decode64u_portable-encode64u_example :
    decode64u_portable (encode64u 5000000000 ++ 1 ∷ []) ≡ (705032704, 1 ∷ [])
decode64u_portable-encode64u_example = decode64u_portable-encode64u 5000000000 (1 ∷ [])
