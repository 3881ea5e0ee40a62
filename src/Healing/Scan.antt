-- ===== src/Healing/Scan.antt =====
-- healing.py, the scans of a response: the fences, the widest span of braces, and the regions that
-- are balanced.
pub mod Fuel
pub mod Regions
use durable_agent_engine.Base.{
  ℕ, zero, suc, ◌+◌, ◌-◌, Bool, true, false, ◌&&◌, Option, none, some, List, [], ◌∷◌, ◌++◌, ◌==◌,
  if◌then◌else◌, Text, codes, starts_with, lstrip, length, take, drop, not, ◌≡◌, refl,
}

-- what follows a prefix that `starts_with` found
drop_prefix : Text → Text → Text
drop_prefix [] t = t
drop_prefix (p ∷ ps) [] = []
drop_prefix (p ∷ ps) (c ∷ t) = drop_prefix ps t

abbrev fence : Text
fence = codes "```"

-- `(.*?)` and the fence that ends it: the text before the first fence
until_fence : Text → Option (Text × Text)
until_fence [] = none
until_fence (c ∷ t) =
    let rest = until_fence t in
    if starts_with fence (c ∷ t)
    then some ([], drop_prefix fence (c ∷ t))
    else elim rest [ none ↦ none | some (group, after) ↦ some (c ∷ group, after) ]

-- `(?:json)?\s*`
skip_tag : Text → Text
unfolding drop_prefix
skip_tag t = lstrip (if starts_with (codes "json") t then drop_prefix (codes "json") t else t)

-- one match of _FENCE at the head of a text: its group and what follows it
match_fence : Text → Option (Text × Text)
unfolding until_fence skip_tag drop_prefix
match_fence t = if starts_with fence t then until_fence (skip_tag (drop_prefix fence t)) else none

-- `_FENCE.finditer`; a match takes at least six characters, so the length is enough fuel
pub find_groups : ℕ → Text → List Text
find_groups zero t = []
find_groups (suc fuel) [] = []
find_groups (suc fuel) (c ∷ t) = elim (match_fence (c ∷ t)) [
  | none ↦ find_groups fuel t
  | some (group, after) ↦ group ∷ find_groups fuel after
]

unfoldable pub fenced_groups : Text → List Text
unfolding find_groups match_fence until_fence skip_tag drop_prefix
fenced_groups text = find_groups (length text) text

-- the text from its first `{`
from_open : Text → Option Text
from_open [] = none
from_open (c ∷ t) = let rest = from_open t in if c == b'{' then some (c ∷ t) else rest

-- the text up to its last `}`
to_close : Text → Option Text
to_close [] = none
to_close (c ∷ t) = elim (to_close t) [
  | some rest ↦ some (c ∷ rest)
  | none ↦ if c == b'}' then some (c ∷ []) else none
]

-- `text[text.find("{") : text.rfind("}") + 1]`, where there is a `}` behind a `{`
unfoldable pub brace_span : Text → Option Text
unfolding from_open to_close
brace_span text = elim (from_open text) [ none ↦ none | some t ↦ to_close t ]

-- The variables of the loop in _balanced_objects; `start` is `none` for -1.
pub record Scan : Type 0 where
  pub depth : ℕ
  pub start : Option ℕ
  pub in_string : Bool
  pub escaped : Bool
  pub out : List Text

-- `text[start : stop]`
abbrev pub slice : Text → ℕ → ℕ → Text
slice text start stop = take (stop - start) (drop start text)

unfoldable pub scan_string : ℕ → Scan → Scan
scan_string ch s =
    if s.escaped
    then record s { escaped = false }
    else if ch == b'\\'
    then record s { escaped = true }
    else if ch == b'"'
    then record s { in_string = false }
    else s

-- the region that ends at index i, if one was opened
close_region : Text → ℕ → Option ℕ → List Text → List Text
close_region text i none out = out
close_region text i (some start) out = out ++ (slice text start (i + 1) ∷ [])

unfoldable pub scan_code : Text → ℕ → ℕ → Scan → Scan
unfolding close_region
scan_code text i ch s =
    if ch == b'"'
    then record s { in_string = true }
    else if ch == b'{'
    then record s { depth = s.depth + 1; start = (if s.depth == 0 then some i else s.start) }
    else if ch == b'}' && not (s.depth == 0)
    then record s {
      depth = s.depth - 1;
      out = (if s.depth - 1 == 0 then close_region text i s.start s.out else s.out);
    }
    else s

unfoldable pub scan_char : Text → ℕ → ℕ → Scan → Scan
unfolding scan_string scan_code
scan_char text i ch s = if s.in_string then scan_string ch s else scan_code text i ch s

-- `for i, ch in enumerate(text)`, from index i on
unfoldable pub scan : Text → ℕ → Text → Scan → Scan
unfolding scan_char
scan text i [] s = s
scan text i (ch ∷ rest) s = scan text (i + 1) rest (scan_char text i ch s)

abbrev pub scan_start : Scan
scan_start = record { depth = 0; start = none; in_string = false; escaped = false; out = [] }

unfoldable pub balanced_objects : Text → List Text
unfolding scan
balanced_objects text = (scan text 0 text scan_start).out

balanced_two :
    balanced_objects (codes "a {\"x\": \"}\"} b {} c }") ≡ codes "{\"x\": \"}\"}" ∷ codes "{}" ∷ []
unfolding balanced_objects
balanced_two = refl

fenced_two : fenced_groups (codes "x ```json {} ``` y ```a```") ≡ codes "{} " ∷ codes "a" ∷ []
unfolding fenced_groups
fenced_two = refl
