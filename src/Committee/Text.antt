-- ===== src/Committee/Text.antt =====
-- The functions of Go's package strings that the committee code uses, on texts of ASCII letters: the
-- lower-case form of a letter beyond ASCII is the letter.
use Prim.Native.Char.{Char, code}
use text.Mathlib.Text.{char_at?}
use jmdn.Base.{ℕ, ◌-◌, Bool, ◌&&◌, ◌||◌, none, some, String, leb, ◌==◌, str_eq, if◌then◌else◌}

-- unicode.IsSpace
unfoldable pub is_space : ℕ → Bool
is_space c =
    leb 9 c && leb c 13
    || (c == 0x20
        || (c == 0x85
            || (c == 0xa0
                || (c == 0x1680
                    || (leb 0x2000 c && leb c 0x200a
                        || (c == 0x2028
                            || (c == 0x2029 || (c == 0x202f || (c == 0x205f || c == 0x3000)))))))))

unfoldable pub trim_left : String → String
unfolding is_space
trim_left String.[] = ""
trim_left (String.◌∷◌ c s) =
    let rest = trim_left s in if is_space (code c) then rest else String.◌∷◌ c s

unfoldable pub trim_right : String → String
trim_right String.[] = ""
trim_right (String.◌∷◌ c s) =
    let rest = trim_right s in if is_space (code c) && str_eq rest "" then "" else String.◌∷◌ c rest

-- strings.TrimSpace
unfoldable pub trim_space : String → String
trim_space s = trim_left (trim_right s)

unfoldable pub lower_char : Char → Char
lower_char c =
    if leb 65 (code c) && leb (code c) 90
    then elim (char_at? "abcdefghijklmnopqrstuvwxyz" (code c - 65)) [ none ↦ c | some d ↦ d ]
    else c

-- strings.ToLower
unfoldable pub to_lower : String → String
to_lower String.[] = ""
to_lower (String.◌∷◌ c s) = String.◌∷◌ (lower_char c) (to_lower s)

-- strings.TrimPrefix(s, "0x")
unfoldable pub trim_0x : String → String
trim_0x (String.◌∷◌ c (String.◌∷◌ d s)) =
    if code c == 0x30 && code d == 0x78 then s else String.◌∷◌ c (String.◌∷◌ d s)
trim_0x s = s

-- strings.EqualFold
unfoldable pub equal_fold : String → String → Bool
equal_fold s t = str_eq (to_lower s) (to_lower t)

-- normalizeBLSPub
unfoldable pub normalize_bls_pub : String → String
normalize_bls_pub s = trim_0x (to_lower (trim_space s))
