-- ===== src/Text.antt =====
-- Python's `str` as a list of code points, and the methods of it that the program calls.
use fastedgy.Prelude.{
  ℕ, Bool, true, false, ◌||◌, ◌&&◌, Option, none, some, List, [], ◌∷◌, ◌++◌, ◌==◌, leb,
  if◌then◌else◌,
}
use Prim.Native.Char.{Char, code}
use Prim.Native.String.{String}
use mathlib.Core.List.{reverse}

abbrev pub Text : Type 0
Text = List ℕ

-- The line boundaries of `str.splitlines`, as its documentation lists them.
unfoldable pub is_line_break : ℕ → Bool
is_line_break c =
    leb 10 c && leb c 13 || leb 28 c && leb c 30 || c == 133 || leb 8232 c && leb c 8233

-- A line that the text does not end is a line unless it is empty.
abbrev last_line : Text → List Text
last_line [] = []
last_line (c ∷ cs) = (c ∷ cs) ∷ []

-- The line so far stands first, reversed. A carriage return takes the line feed behind it along.
pub lines_from : Text → Text → List Text
unfolding is_line_break
lines_from line [] = last_line (reverse line)
lines_from line (c ∷ []) = if is_line_break c then reverse line ∷ [] else reverse (c ∷ line) ∷ []
lines_from line (c ∷ d ∷ cs) =
    let after_pair = lines_from [] cs in
    let after_break = lines_from [] (d ∷ cs) in
    let within = lines_from (c ∷ line) (d ∷ cs) in
    if c == 13 && d == 10
    then reverse line ∷ after_pair
    else if is_line_break c
    then reverse line ∷ after_break
    else within

-- `s.splitlines()`
unfoldable pub splitlines : Text → List Text
unfolding lines_from
splitlines s = lines_from [] s

-- `"\n".join(lines)`
unfoldable pub join_lines : List Text → Text
join_lines [] = []
join_lines (l ∷ []) = l
join_lines (l ∷ m ∷ ls) = l ++ (10 ∷ join_lines (m ∷ ls))

-- `s.startswith(prefix)`
abbrev starts_with_text : Text → Text → Bool
starts_with_text [] s = true
starts_with_text (p ∷ ps) [] = false
starts_with_text (p ∷ ps) (c ∷ cs) = p == c && starts_with_text ps cs

-- `part in s`
unfoldable pub contains_text : Text → Text → Bool
contains_text part [] = starts_with_text part []
contains_text part (c ∷ cs) = starts_with_text part (c ∷ cs) || contains_text part cs

-- A literal as a list of code points.
abbrev pub codes : String → Text
codes String.[] = []
codes (String.◌∷◌ c s) = code c ∷ codes s

-- `s.split(c)`, for a character by its code.
abbrev pub push_char : Char → List String → List String
push_char c [] = []
push_char c (w ∷ ws) = String.◌∷◌ c w ∷ ws

unfoldable pub split_on : ℕ → String → List String
split_on c String.[] = "" ∷ []
split_on c (String.◌∷◌ d s) =
    let rest = split_on c s in if code d == c then "" ∷ rest else push_char d rest

-- `s[len(prefix):]`, if `s.startswith(prefix)`.
unfoldable pub remove_prefix : String → String → Option String
remove_prefix String.[] s = some s
remove_prefix (String.◌∷◌ p ps) String.[] = none
remove_prefix (String.◌∷◌ p ps) (String.◌∷◌ c s) =
    let rest = remove_prefix ps s in if code p == code c then rest else none

-- `c in s`, for a character by its code.
unfoldable pub has_char : ℕ → String → Bool
has_char c String.[] = false
has_char c (String.◌∷◌ d s) = code d == c || has_char c s
