-- ===== src/Qpack/StaticTable/FindArms.antt =====
-- The arms of the match in `StaticTable::find`, in the order of the source.
use webtransport_rs.Base.{ℕ, List, [], ◌∷◌}
use webtransport_rs.Qpack.Text.{Bytes, codes}

unfoldable pub find_arms : List ((Bytes × Bytes) × ℕ)
find_arms =
    ((codes ":authority", codes ""), 0)
    ∷ ((codes ":path", codes "/"), 1)
    ∷ ((codes "age", codes "0"), 2)
    ∷ ((codes "content-disposition", codes ""), 3)
    ∷ ((codes "content-length", codes "0"), 4)
    ∷ ((codes "cookie", codes ""), 5)
    ∷ ((codes "date", codes ""), 6)
    ∷ ((codes "etag", codes ""), 7)
    ∷ ((codes "if-modified-since", codes ""), 8)
    ∷ ((codes "if-none-match", codes ""), 9)
    ∷ ((codes "last-modified", codes ""), 10)
    ∷ ((codes "link", codes ""), 11)
    ∷ ((codes "location", codes ""), 12)
    ∷ ((codes "referer", codes ""), 13)
    ∷ ((codes "set-cookie", codes ""), 14)
    ∷ ((codes ":method", codes "CONNECT"), 15)
    ∷ ((codes ":method", codes "DELETE"), 16)
    ∷ ((codes ":method", codes "GET"), 17)
    ∷ ((codes ":method", codes "HEAD"), 18)
    ∷ ((codes ":method", codes "OPTIONS"), 19)
    ∷ ((codes ":method", codes "POST"), 20)
    ∷ ((codes ":method", codes "PUT"), 21)
    ∷ ((codes ":scheme", codes "http"), 22)
    ∷ ((codes ":scheme", codes "https"), 23)
    ∷ ((codes ":status", codes "103"), 24)
    ∷ ((codes ":status", codes "200"), 25)
    ∷ ((codes ":status", codes "304"), 26)
    ∷ ((codes ":status", codes "404"), 27)
    ∷ ((codes ":status", codes "503"), 28)
    ∷ ((codes "accept", codes "*/*"), 29)
    ∷ ((codes "accept", codes "application/dns-message"), 30)
    ∷ ((codes "accept-encoding", codes "gzip, deflate, br"), 31)
    ∷ ((codes "accept-ranges", codes "bytes"), 32)
    ∷ ((codes "access-control-allow-headers", codes "cache-control"), 33)
    ∷ ((codes "access-control-allow-headers", codes "content-type"), 34)
    ∷ ((codes "access-control-allow-origin", codes "*"), 35)
    ∷ ((codes "cache-control", codes "max-age=0"), 36)
    ∷ ((codes "cache-control", codes "max-age=2592000"), 37)
    ∷ ((codes "cache-control", codes "max-age=604800"), 38)
    ∷ ((codes "cache-control", codes "no-cache"), 39)
    ∷ ((codes "cache-control", codes "no-store"), 40)
    ∷ ((codes "cache-control", codes "public, max-age=31536000"), 41)
    ∷ ((codes "content-encoding", codes "br"), 42)
    ∷ ((codes "content-encoding", codes "gzip"), 43)
    ∷ ((codes "content-type", codes "application/dns-message"), 44)
    ∷ ((codes "content-type", codes "application/javascript"), 45)
    ∷ ((codes "content-type", codes "application/json"), 46)
    ∷ ((codes "content-type", codes "application/x-www-form-urlencoded"), 47)
    ∷ ((codes "content-type", codes "image/gif"), 48)
    ∷ ((codes "content-type", codes "image/jpeg"), 49)
    ∷ ((codes "content-type", codes "image/png"), 50)
    ∷ ((codes "content-type", codes "text/css"), 51)
    ∷ ((codes "content-type", codes "text/html; charset=utf-8"), 52)
    ∷ ((codes "content-type", codes "text/plain"), 53)
    ∷ ((codes "content-type", codes "text/plain;charset=utf-8"), 54)
    ∷ ((codes "range", codes "bytes=0-"), 55)
    ∷ ((codes "strict-transport-security", codes "max-age=31536000"), 56)
    ∷ ((codes "strict-transport-security", codes "max-age=31536000; includesubdomains"), 57)
    ∷ (
      (codes "strict-transport-security", codes "max-age=31536000; includesubdomains; preload"),
      58,
    )
    ∷ ((codes "vary", codes "accept-encoding"), 59)
    ∷ ((codes "vary", codes "origin"), 60)
    ∷ ((codes "x-content-type-options", codes "nosniff"), 61)
    ∷ ((codes "x-xss-protection", codes "1; mode=block"), 62)
    ∷ ((codes ":status", codes "100"), 63)
    ∷ ((codes ":status", codes "204"), 64)
    ∷ ((codes ":status", codes "206"), 65)
    ∷ ((codes ":status", codes "302"), 66)
    ∷ ((codes ":status", codes "400"), 67)
    ∷ ((codes ":status", codes "403"), 68)
    ∷ ((codes ":status", codes "421"), 69)
    ∷ ((codes ":status", codes "425"), 70)
    ∷ ((codes ":status", codes "500"), 71)
    ∷ ((codes "accept-language", codes ""), 72)
    ∷ ((codes "access-control-allow-credentials", codes "FALSE"), 73)
    ∷ ((codes "access-control-allow-credentials", codes "TRUE"), 74)
    ∷ ((codes "access-control-allow-headers", codes "*"), 75)
    ∷ ((codes "access-control-allow-methods", codes "get"), 76)
    ∷ ((codes "access-control-allow-methods", codes "get, post, options"), 77)
    ∷ ((codes "access-control-allow-methods", codes "options"), 78)
    ∷ ((codes "access-control-expose-headers", codes "content-length"), 79)
    ∷ ((codes "access-control-request-headers", codes "content-type"), 80)
    ∷ ((codes "access-control-request-method", codes "get"), 81)
    ∷ ((codes "access-control-request-method", codes "post"), 82)
    ∷ ((codes "alt-svc", codes "clear"), 83)
    ∷ ((codes "authorization", codes ""), 84)
    ∷ (
      (
        codes "content-security-policy",
        codes "script-src 'none'; object-src 'none'; base-uri 'none'",
      ),
      85,
    )
    ∷ ((codes "early-data", codes "1"), 86)
    ∷ ((codes "expect-ct", codes ""), 87)
    ∷ ((codes "forwarded", codes ""), 88)
    ∷ ((codes "if-range", codes ""), 89)
    ∷ ((codes "origin", codes ""), 90)
    ∷ ((codes "purpose", codes "prefetch"), 91)
    ∷ ((codes "server", codes ""), 92)
    ∷ ((codes "timing-allow-origin", codes "*"), 93)
    ∷ ((codes "upgrade-insecure-requests", codes "1"), 94)
    ∷ ((codes "user-agent", codes ""), 95)
    ∷ ((codes "x-forwarded-for", codes ""), 96)
    ∷ ((codes "x-frame-options", codes "deny"), 97)
    ∷ ((codes "x-frame-options", codes "sameorigin"), 98)
    ∷ []
