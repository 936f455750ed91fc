-- ===== src/Prelude/Text.antt =====
-- Python's `str` methods that the program calls: `split`, `strip`, `join` and the order of texts.
pub use text.Mathlib.Text.{◌==◌ as str_eq}
pub use text.Mathlib.TextEquality.{eq_iff}
use Prim.Native.Char.{Char, code}
use Prim.Native.String.{String, compare, ◌++◌}
use text.Mathlib.Text.{is_lt, is_le, find?}
use mathlib.Core.Bool.{Bool, true, false, ◌&&◌, ◌||◌}
use Prim.Native.Nat.{ℕ}
use mathlib.Core.List.{List, [], ◌∷◌}
use regnova.Prelude.Tests.{leb, ◌==◌, if◌then◌else◌, is_some}

-- `str.isspace` on one character: the white space of Unicode and the separators 28 to 31.
pub is_space : Char → Bool
is_space c =
    let n = code c in
    (leb 9 n && leb n 13)
    || (leb 28 n && leb n 32)
    || n == 0x85
    || n == 0xA0
    || n == 0x1680
    || (leb 0x2000 n && leb n 0x200A)
    || n == 0x2028
    || n == 0x2029
    || n == 0x202F
    || n == 0x205F
    || n == 0x3000

abbrev pub is_empty : String → Bool
is_empty String.[] = true
is_empty (String.◌∷◌ c s) = false

pub lstrip : String → String
lstrip String.[] = ""
lstrip (String.◌∷◌ c s) = let rest = lstrip s in if is_space c then rest else String.◌∷◌ c s

pub rstrip : String → String
rstrip String.[] = ""
rstrip (String.◌∷◌ c s) =
    let rest = rstrip s in if is_space c && is_empty rest then "" else String.◌∷◌ c rest

-- `text.strip()`.
unfoldable pub strip : String → String
unfolding lstrip rstrip is_space
strip s = rstrip (lstrip s)

-- A word is kept only if it has a character.
abbrev pub flush : String → List String → List String
flush word rest = if is_empty word then rest else word ∷ rest

unfoldable pub words_from : String → String → List String
words_from word String.[] = flush word []
words_from word (String.◌∷◌ c s) =
    let cut = flush word (words_from "" s) in
    let longer = words_from (word ++ String.◌∷◌ c "") s in if is_space c then cut else longer

pub join_spaces : List String → String
join_spaces [] = ""
join_spaces (word ∷ []) = word
join_spaces (word ∷ next ∷ rest) = word ++ " " ++ join_spaces (next ∷ rest)

-- `" ".join(text.split())`.
unfoldable pub collapse_whitespace : String → String
unfolding words_from join_spaces is_space
collapse_whitespace s = join_spaces (words_from "" s)

unfoldable pub split_from : ℕ → String → String → List String
split_from mark segment String.[] = segment ∷ []
split_from mark segment (String.◌∷◌ c s) =
    let cut = segment ∷ split_from mark "" s in
    let longer = split_from mark (segment ++ String.◌∷◌ c "") s in
    if code c == mark then cut else longer

-- `path.split(".")`.
unfoldable pub split_dots : String → List String
unfolding split_from
split_dots path = split_from b'.' "" path

-- `s < t` and `s <= t` on texts, by code points.
abbrev pub str_lt : String → String → Bool
str_lt s t = is_lt (compare s t)

abbrev pub str_le : String → String → Bool
str_le s t = is_le (compare s t)

-- `part in text`.
abbrev pub is_substring : String → String → Bool
is_substring part text = is_some (find? text part)
