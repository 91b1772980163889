-- ===== src/Qpack/StaticTable/NameArms.antt =====
-- The arms of the match in `StaticTable::find_name`, in the order of the source.
use webtransport_rs.Base.{ℕ, List, [], ◌∷◌}
use webtransport_rs.Qpack.Text.{Bytes, codes}

unfoldable pub find_name_arms : List (Bytes × ℕ)
find_name_arms =
    (codes ":authority", 0)
    ∷ (codes ":path", 1)
    ∷ (codes "age", 2)
    ∷ (codes "content-disposition", 3)
    ∷ (codes "content-length", 4)
    ∷ (codes "cookie", 5)
    ∷ (codes "date", 6)
    ∷ (codes "etag", 7)
    ∷ (codes "if-modified-since", 8)
    ∷ (codes "if-none-match", 9)
    ∷ (codes "last-modified", 10)
    ∷ (codes "link", 11)
    ∷ (codes "location", 12)
    ∷ (codes "referer", 13)
    ∷ (codes "set-cookie", 14)
    ∷ (codes ":method", 15)
    ∷ (codes ":scheme", 22)
    ∷ (codes ":status", 24)
    ∷ (codes "accept", 29)
    ∷ (codes "accept-encoding", 31)
    ∷ (codes "accept-ranges", 32)
    ∷ (codes "access-control-allow-headers", 33)
    ∷ (codes "access-control-allow-origin", 35)
    ∷ (codes "cache-control", 36)
    ∷ (codes "content-encoding", 42)
    ∷ (codes "content-type", 44)
    ∷ (codes "range", 55)
    ∷ (codes "strict-transport-security", 56)
    ∷ (codes "vary", 59)
    ∷ (codes "x-content-type-options", 61)
    ∷ (codes "x-xss-protection", 62)
    ∷ (codes "accept-language", 72)
    ∷ (codes "access-control-allow-credentials", 73)
    ∷ (codes "access-control-allow-methods", 76)
    ∷ (codes "access-control-expose-headers", 79)
    ∷ (codes "access-control-request-headers", 80)
    ∷ (codes "access-control-request-method", 81)
    ∷ (codes "alt-svc", 83)
    ∷ (codes "authorization", 84)
    ∷ (codes "content-security-policy", 85)
    ∷ (codes "early-data", 86)
    ∷ (codes "expect-ct", 87)
    ∷ (codes "forwarded", 88)
    ∷ (codes "if-range", 89)
    ∷ (codes "origin", 90)
    ∷ (codes "purpose", 91)
    ∷ (codes "server", 92)
    ∷ (codes "timing-allow-origin", 93)
    ∷ (codes "upgrade-insecure-requests", 94)
    ∷ (codes "user-agent", 95)
    ∷ (codes "x-forwarded-for", 96)
    ∷ (codes "x-frame-options", 97)
    ∷ []
