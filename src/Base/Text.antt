-- ===== src/Base/Text.antt =====
-- Python's `str` operations that the program uses, on the native texts. Case and white space are
-- those of ASCII.
use Prim.Native.Char.{Char, code}
use Prim.Native.String.{[], ◌∷◌, ◌++◌, char_at}
use mathlib.Core.List
use support_triage_llm.Base.{
  ℕ, zero, suc, ◌-◌, String, Bool, true, false, ◌&&◌, ◌||◌, leb, ◌==◌, str_eq, if◌then◌else◌,
}

unfoldable pub lower_char : Char → Char
lower_char c =
    if leb b'A' (code c) && leb (code c) b'Z'
    then char_at "abcdefghijklmnopqrstuvwxyz" (code c - b'A')
    else c

-- s.lower()
unfoldable pub lower : String → String
unfolding lower_char
lower [] = []
lower (c ∷ s) = lower_char c ∷ lower s

upper_char : Char → Char
upper_char c =
    if leb b'a' (code c) && leb (code c) b'z'
    then char_at "ABCDEFGHIJKLMNOPQRSTUVWXYZ" (code c - b'a')
    else c

-- s.upper()
unfoldable pub upper : String → String
unfolding upper_char
upper [] = []
upper (c ∷ s) = upper_char c ∷ upper s

-- s[:n]
unfoldable pub prefix : ℕ → String → String
prefix zero s = []
prefix (suc n) [] = []
prefix (suc n) (c ∷ s) = c ∷ prefix n s

unfoldable pub is_space : Char → Bool
is_space c = (code c == 32) || (leb 9 (code c) && leb (code c) 13)

unfoldable pub strip_start : String → String
unfolding is_space
strip_start [] = []
strip_start (c ∷ s) = let rest = strip_start s in if is_space c then rest else c ∷ s

unfoldable pub strip_end : String → String
unfolding is_space
strip_end [] = []
strip_end (c ∷ s) = let rest = strip_end s in if is_space c && str_eq rest "" then "" else c ∷ rest

-- s.strip()
unfoldable pub strip : String → String
unfolding strip_start strip_end
strip s = strip_end (strip_start s)

-- s.startswith(t), the prefix first
unfoldable pub begins_with : String → String → Bool
begins_with [] s = true
begins_with (d ∷ t) [] = false
begins_with (d ∷ t) (c ∷ s) = (code d == code c) && begins_with t s

-- needle in s
unfoldable pub contains : String → String → Bool
unfolding begins_with
contains needle [] = str_eq needle ""
contains needle (c ∷ s) = begins_with needle (c ∷ s) || contains needle s

-- a or b, of two texts
abbrev pub or_text : String → String → String
or_text a b = if str_eq a "" then b else a

-- the parts of a formatted text, in order
abbrev pub concat : List.List String → String
concat List.[] = ""
concat (List.◌∷◌ s parts) = s ++ concat parts

-- separator.join(parts)
unfoldable pub join : String → List.List String → String
join separator List.[] = ""
join separator (List.◌∷◌ s List.[]) = s
join separator (List.◌∷◌ s (List.◌∷◌ t parts)) = s ++ separator ++ join separator (List.◌∷◌ t parts)
