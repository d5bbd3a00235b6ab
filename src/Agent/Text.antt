-- ===== src/Agent/Text.antt =====
-- The texts and regular expressions of semikb/agent_runtime, on code points. `str.lower` and
-- `re.IGNORECASE` are written out for the letters that the searched terms hold.
use Prim.Native.Char.{code}
use mathlib.Core.List.{reverse}
use semiconductor_agent_know.Base.{
  ℕ, String, Bool, true, false, ◌&&◌, ◌||◌, ◌+◌, List, [], ◌∷◌, any, map, is_empty, leb, eqb,
  if◌then◌else◌, Option, none, some,
}

abbrev pub Codes : Type 0
Codes = List ℕ

abbrev pub codes : String → Codes
codes String.[] = []
codes (String.◌∷◌ c s) = code c ∷ codes s

-- `text.lower()`, for the letters A to Z.
lower_code : ℕ → ℕ
lower_code c = if leb b'A' c && leb c b'Z' then c + 32 else c

unfoldable pub lower : Codes → Codes
unfolding lower_code
lower = map lower_code

-- What `re.IGNORECASE` takes for one letter: also the long s and the dotless and dotted i.
fold_code : ℕ → ℕ
unfolding lower_code
fold_code c = if eqb c 383 then b's' else if eqb c 304 || eqb c 305 then b'i' else lower_code c

unfoldable pub fold : Codes → Codes
unfolding fold_code
fold = map fold_code

-- `\s` and `str.isspace`
unfoldable pub is_space : ℕ → Bool
is_space c =
    (leb 9 c && leb c 13)
    || (leb 28 c && leb c 32)
    || any (eqb c) (133 ∷ 160 ∷ 5760 ∷ 8232 ∷ 8233 ∷ 8239 ∷ 8287 ∷ 12288 ∷ [])
    || (leb 8192 c && leb c 8202)

-- What is left of a text behind a term that it starts with.
unfoldable pub rest_after : Codes → Codes → Option Codes
rest_after [] s = some s
rest_after (t ∷ ts) [] = none
rest_after (t ∷ ts) (c ∷ s) = let rest = rest_after ts s in if eqb t c then rest else none

-- The parts of a regular expression: one of the terms, one of the terms or nothing, any number of
-- characters of a class, the end of the text.
pub data Piece : Type 0 where
  one_of : List String → Piece
  maybe : List String → Piece
  many : (ℕ → Bool) → Piece
  at_end : Piece

-- The texts that are left behind each of the terms that fits.
rests : List String → Codes → List Codes
unfolding rest_after
rests [] s = []
rests (t ∷ ts) s = elim (rest_after (codes t) s) [ none ↦ rests ts s | some r ↦ r ∷ rests ts s ]

-- `pattern.match(text)`: some choice of the alternatives fits at the start.
unfoldable pub matches : List Piece → Codes → Bool
unfolding rests
matches [] s = true
matches (one_of ts ∷ ps) s = any (matches ps) (rests ts s)
matches (maybe ts ∷ ps) s = matches ps s || any (matches ps) (rests ts s)
matches (many f ∷ ps) [] = matches ps []
matches (many f ∷ ps) (c ∷ s) =
    let rest = matches (many f ∷ ps) s in matches ps (c ∷ s) || (if f c then rest else false)
matches (at_end ∷ ps) s = is_empty s && matches ps s

-- `pattern.search(text)`
unfoldable pub search_pattern : List Piece → Codes → Bool
unfolding matches
search_pattern ps [] = matches ps []
search_pattern ps (c ∷ s) = matches ps (c ∷ s) || search_pattern ps s

-- `term in text`
unfoldable pub has_term : Codes → String → Bool
unfolding search_pattern
has_term s t = search_pattern (one_of (t ∷ []) ∷ []) s

-- `any(term in text for term in terms)`
unfoldable pub has_any : List String → Codes → Bool
unfolding has_term
has_any ts s = any (has_term s) ts

-- The lines of a text, which `.` of a regular expression does not cross.
unfoldable pub lines : Codes → List Codes
lines [] = [] ∷ []
lines (c ∷ s) =
    let rest = lines s in
    if eqb c 10 then [] ∷ rest else elim rest [ [] ↦ (c ∷ []) ∷ [] | l ∷ ls ↦ (c ∷ l) ∷ ls ]

unfoldable pub lstrip : Codes → Codes
unfolding is_space
lstrip [] = []
lstrip (c ∷ s) = let rest = lstrip s in if is_space c then rest else c ∷ s

-- `text.strip()`
unfoldable pub strip : Codes → Codes
unfolding lstrip
strip s = reverse (lstrip (reverse (lstrip s)))
