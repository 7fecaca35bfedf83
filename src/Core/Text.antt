-- ===== src/Core/Text.antt =====
-- The functions of Go's strings and path packages that internal/core/path.go and
-- baseclient/canonical.go call, on byte strings.
use convex_go.Prelude.{
  ℕ, Bool, true, false, not, ◌&&◌, ◌||◌, Option, none, some, List, [], ◌∷◌, ◌++◌, Str, str,
  if◌then◌else◌, ◌==◌, leb,
}
use convex_go.Prelude.Eq.{list_beq}

-- strings.HasPrefix
unfoldable pub has_prefix : Str → Str → Bool
has_prefix s [] = true
has_prefix [] (p ∷ ps) = false
has_prefix (c ∷ s) (p ∷ ps) = c == p && has_prefix s ps

-- strings.TrimSuffix
unfoldable pub trim_suffix : Str → Str → Str
trim_suffix [] suffix = []
trim_suffix (c ∷ s) suffix =
    let rest = c ∷ trim_suffix s suffix in if list_beq (c ∷ s) suffix then [] else rest

-- strings.Contains
unfoldable pub contains : Str → Str → Bool
unfolding has_prefix
contains [] sub = list_beq sub []
contains (c ∷ s) sub = has_prefix (c ∷ s) sub || contains s sub

-- strings.ReplaceAll of one byte by another.
unfoldable pub replace_byte : ℕ → ℕ → Str → Str
replace_byte old new [] = []
replace_byte old new (c ∷ s) = (if c == old then new else c) ∷ replace_byte old new s

abbrev cons_to_first : ℕ → List Str → List Str
cons_to_first c [] = (c ∷ []) ∷ []
cons_to_first c (p ∷ ps) = (c ∷ p) ∷ ps

-- strings.Split at one byte.
unfoldable pub split : ℕ → Str → List Str
split sep [] = [] ∷ []
split sep (c ∷ s) = let rest = split sep s in if c == sep then [] ∷ rest else cons_to_first c rest

-- strings.Join with one byte.
unfoldable pub join : ℕ → List Str → Str
join sep [] = []
join sep (p ∷ []) = p
join sep (p ∷ q ∷ ps) = p ++ (sep ∷ join sep (q ∷ ps))

-- strings.Cut at one byte: what stands before the first separator, and after it.
unfoldable pub cut : ℕ → Str → Str × Str
cut sep [] = ([], [])
cut sep (c ∷ s) =
    let (before, after) = cut sep s in if c == sep then ([], s) else (c ∷ before, after)

-- strings.LastIndex of one byte, as the text before it and the text after it.
unfoldable pub cut_last : ℕ → Str → Option (Str × Str)
cut_last sep [] = none
cut_last sep (c ∷ s) = elim (cut_last sep s) [
  | some (before, after) ↦ some (c ∷ before, after)
  | none ↦ if c == sep then some ([], s) else none
]

abbrev is_space : ℕ → Bool
is_space c = (leb 9 c && leb c 13) || c == 32

unfoldable pub trim_left_space : Str → Str
trim_left_space [] = []
trim_left_space (c ∷ s) = let rest = trim_left_space s in if is_space c then rest else c ∷ s

unfoldable pub trim_right_space : Str → Str
trim_right_space [] = []
trim_right_space (c ∷ s) = elim (trim_right_space s) [
  | [] ↦ if is_space c then [] else c ∷ []
  | d ∷ rest ↦ c ∷ d ∷ rest
]

-- strings.TrimSpace, for the ASCII spaces.
unfoldable pub trim_space : Str → Str
unfolding trim_left_space trim_right_space
trim_space s = trim_right_space (trim_left_space s)

-- path.Ext: from the last dot of the last element on.
unfoldable pub ext_of : Str → Option Str
ext_of [] = none
ext_of (c ∷ s) = elim (ext_of s) [
  | some e ↦ some e
  | none ↦ if c == b'.' then some (c ∷ s) else none
]

unfoldable pub ext : Str → Str
unfolding ext_of cut_last
ext s = elim (cut_last b'/' s) [
  | none ↦ (elim (ext_of s) [ none ↦ [] | some e ↦ e ])
  | some (before, after) ↦ (elim (ext_of after) [ none ↦ [] | some e ↦ e ])
]

-- path.Clean: the stack holds the elements kept, the last one first.
unfoldable pub clean_step : Bool → List Str → Str → List Str
clean_step rooted [] p =
    if list_beq p [] || list_beq p (str ".")
    then []
    else if list_beq p (str "..") && rooted
    then []
    else p ∷ []
clean_step rooted (q ∷ stack) p =
    if list_beq p [] || list_beq p (str ".")
    then q ∷ stack
    else if not (list_beq p (str ".."))
    then p ∷ q ∷ stack
    else if list_beq q (str "..")
    then p ∷ q ∷ stack
    else stack

unfoldable pub clean_parts : Bool → List Str → List Str → List Str
unfolding clean_step
clean_parts rooted stack [] = stack
clean_parts rooted stack (p ∷ ps) = clean_parts rooted (clean_step rooted stack p) ps

unfoldable pub reverse_onto : List Str → List Str → List Str
reverse_onto acc [] = acc
reverse_onto acc (p ∷ ps) = reverse_onto (p ∷ acc) ps

unfoldable pub clean : Str → Str
unfolding clean_parts has_prefix split join reverse_onto
clean s =
    let rooted = has_prefix s (str "/") in
    let body = join b'/' (reverse_onto [] (clean_parts rooted [] (split b'/' s))) in
    if rooted then b'/' ∷ body else if list_beq body [] then str "." else body
