-- ===== src/Workspace/Text/Utf8.antt =====
-- `utf8.Valid` of Go's library, as internal/workspace/text.go uses it.
use codexlink.Prelude.{ℕ, zero, suc, Bool, true, false, ◌&&◌, ◌||◌, List, [], ◌∷◌, leb, ltb}

abbrev between : ℕ → ℕ → ℕ → Bool
between lo hi b = leb lo b && leb b hi

-- `need` more bytes of a character are to come, and the next one is from `lo` to `hi`.
unfoldable pub is_utf8_from : ℕ → ℕ → ℕ → List ℕ → Bool
is_utf8_from zero lo hi [] = true
is_utf8_from (suc need) lo hi [] = false
is_utf8_from (suc need) lo hi (b ∷ bs) = between lo hi b && is_utf8_from need 0x80 0xbf bs
is_utf8_from zero lo hi (b ∷ bs) =
    (ltb b 0x80 && is_utf8_from 0 0 0 bs)
    || (between 0xc2 0xdf b && is_utf8_from 1 0x80 0xbf bs)
    || (between 0xe0 0xe0 b && is_utf8_from 2 0xa0 0xbf bs)
    || ((between 0xe1 0xec b || between 0xee 0xef b) && is_utf8_from 2 0x80 0xbf bs)
    || (between 0xed 0xed b && is_utf8_from 2 0x80 0x9f bs)
    || (between 0xf0 0xf0 b && is_utf8_from 3 0x90 0xbf bs)
    || (between 0xf1 0xf3 b && is_utf8_from 3 0x80 0xbf bs)
    || (between 0xf4 0xf4 b && is_utf8_from 3 0x80 0x8f bs)

abbrev pub is_utf8 : List ℕ → Bool
is_utf8 bytes = is_utf8_from 0 0 0 bytes
