-- ===== src/Agent/Terms.antt =====
-- The terms of a query and how many of them a body of evidence holds (`_terms` and `_term_coverage`
-- of semikb/agent_runtime/evidence_sufficiency.py), on code points. A coverage is a number of
-- ten-thousandths; a tie is rounded to the even one, as the float of the quotient is while a query
-- has fewer than 160 terms.
pub mod Rounded
use semiconductor_agent_know.Doubles.{nearest}
use semiconductor_agent_know.Base.{
  ℕ, zero, suc, ◌+◌, ◌-◌, ◌*◌, ◌/◌, ◌%◌, String, Bool, true, false, not, ◌&&◌, ◌||◌, Option, none,
  some, List, [], ◌∷◌, ◌++◌, ◌==◌, eqb, leb, ltb, any, map, filter, contains, is_empty, length,
  if◌then◌else◌, Key, ◌≡◌, ◌↔◌, arith,
}
use semiconductor_agent_know.Agent.Text.{Codes, codes, rest_after}

-- The maximal runs of a class of characters, empty ones between them included.
unfoldable pub split_runs : (ℕ → Bool) → Codes → List Codes
split_runs p [] = [] ∷ []
split_runs p (c ∷ s) =
    let rest = split_runs p s in
    if p c then elim rest [ [] ↦ (c ∷ []) ∷ [] | l ∷ ls ↦ (c ∷ l) ∷ ls ] else [] ∷ rest

-- `re.findall("[class]+", text)`
unfoldable pub runs : (ℕ → Bool) → Codes → List Codes
runs p s = filter (λ r. not (is_empty r)) (split_runs p s)

abbrev pub is_latin : ℕ → Bool
is_latin c = (leb 97 c && leb c 122) || (leb 48 c && leb c 57)

abbrev pub is_latin_part : ℕ → Bool
is_latin_part c = is_latin c || eqb c 46 || eqb c 95 || eqb c 45

abbrev pub is_chinese : ℕ → Bool
is_chinese c = leb 19968 c && leb c 40959

unfoldable pub from_latin : Codes → Codes
from_latin [] = []
from_latin (c ∷ s) = let rest = from_latin s in if is_latin c then c ∷ s else rest

-- `re.findall("[a-z0-9][a-z0-9._-]+", text)`: in each run of the second class what starts at its
-- first letter or digit, if that is not its end.
unfoldable pub latin_terms : Codes → List Codes
latin_terms s = filter (λ r. ltb 1 (length r)) (map from_latin (runs is_latin_part s))

-- `run.replace(filler, "")`; the number is how many characters of a filler are still to be left out.
unfoldable pub without : Codes → ℕ → Codes → Codes
without filler n [] = []
without filler (suc n) (c ∷ s) = without filler n s
without filler zero (c ∷ s) = elim (rest_after filler (c ∷ s)) [
  | some _ ↦ without filler (length filler - 1) s
  | none ↦ c ∷ without filler zero s
]

abbrev fillers : List String
fillers = "什么" ∷ "怎么" ∷ "怎样" ∷ "哪些" ∷ "如何" ∷ "一般" ∷ "通常" ∷ "请问" ∷ "分别" ∷ "这个" ∷ []

unfoldable pub without_all : List String → Codes → Codes
without_all [] run = run
without_all (f ∷ fs) run = without_all fs (without (codes f) zero run)

abbrev particles : String
particles = "的是有呢吗吧和与"

unfoldable pub normalized_run : Codes → Codes
normalized_run run = filter (λ c. not (any (eqb c) (codes particles))) (without_all fillers run)

-- `run[index : index + 2]` for each index but the last
unfoldable pub bigrams : Codes → List Codes
bigrams [] = []
bigrams (a ∷ []) = []
bigrams (a ∷ (b ∷ s)) = (a ∷ b ∷ []) ∷ bigrams (b ∷ s)

unfoldable pub concat_map : (Codes → List Codes) → List Codes → List Codes
concat_map f [] = []
concat_map f (x ∷ xs) = f x ++ concat_map f xs

abbrev codes_same : Codes → Codes → Bool
codes_same [] [] = true
codes_same (a ∷ s) (b ∷ t) = eqb a b && codes_same s t
codes_same _ _ = false

pub codes_same_iff : (s t : Codes) → (codes_same s t ≡ true) ↔ (s ≡ t)
codes_same_iff [] [] = ground arith
codes_same_iff [] (b ∷ t) = ground arith
codes_same_iff (a ∷ s) [] = ground arith
codes_same_iff (a ∷ s) (b ∷ t) = ground (arith, codes_same_iff s t)

instance abbrev pub codes_eq : Key Codes
codes_eq = record { is_same = codes_same; is_same_iff = codes_same_iff }

-- A set as the list of its elements, each once.
unfoldable pub set_of : List Codes → List Codes
set_of [] = []
set_of (x ∷ xs) = let rest = set_of xs in if contains rest x then rest else x ∷ rest

abbrev stop_terms : List Codes
stop_terms = codes "一下" ∷ codes "可以" ∷ []

-- The terms of a text after `casefold`.
unfoldable pub terms_of : Codes → List Codes
terms_of lowered =
    let latin = latin_terms lowered in
    let chinese = concat_map bigrams (map normalized_run (runs is_chinese lowered)) in
    filter (λ t. not (contains stop_terms t)) (set_of (latin ++ chinese))

-- `round(a / b, 4)` for a positive b, in ten-thousandths
unfoldable pub rounded_share : ℕ → ℕ → ℕ
rounded_share a b = nearest ((10000 * a) / b) ((10000 * a) % b) b

-- `" ".join(texts)`
unfoldable pub joined : List String → Codes
joined [] = []
joined (t ∷ []) = codes t
joined (t ∷ (u ∷ ts)) = codes t ++ 32 ∷ joined (u ∷ ts)

unfoldable pub term_coverage : (Codes → Codes) → String → List String → ℕ
term_coverage casefold query texts =
    let query_terms = terms_of (casefold (codes query)) in
    let evidence_terms = terms_of (casefold (joined texts)) in
    if is_empty query_terms
    then 0
    else rounded_share (length (filter (contains evidence_terms) query_terms)) (length query_terms)
