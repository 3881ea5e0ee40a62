-- ===== src/Healing/Scan/Fuel.antt =====
-- healing.py, `_FENCE.finditer`: the length of the text is enough fuel.
use durable_agent_engine.Base.{
  ℕ, zero, suc, ◌≤◌, Option, none, some, [], ◌∷◌, Text, codes, starts_with, lstrip, is_space,
  length, ◌≡◌, refl, ap, subst, Bool-cases, Option-cases, inl, inr, arith,
}
use durable_agent_engine.Healing.Scan.{
  drop_prefix, fence, until_fence, skip_tag, match_fence, find_groups, fenced_groups,
}

drop_prefix-length : (p t : Text) → length (drop_prefix p t) ≤ length t
unfolding drop_prefix
drop_prefix-length [] t = omega arith
drop_prefix-length (p ∷ ps) [] = omega arith
drop_prefix-length (p ∷ ps) (c ∷ t) = omega (arith, drop_prefix-length ps t)

lstrip-length : (t : Text) → length (lstrip t) ≤ length t
lstrip-length [] = omega arith
lstrip-length (c ∷ t) = elim (Bool-cases (is_space c)) [
  | inl blank ↦ rw blank (omega (arith, lstrip-length t))
  | inr other ↦ rw other (omega arith)
]

-- What follows a match is shorter than a bound.
abbrev IsShort : ℕ → Option (Text × Text) → Type 0
IsShort n none = Unit
IsShort n (some (group, after)) = length after ≤ n

until_fence-IsShort : (t : Text) → IsShort (length t) (until_fence t)
unfolding until_fence drop_prefix
until_fence-IsShort [] = tt
until_fence-IsShort (c ∷ t) = elim (Bool-cases (starts_with fence (c ∷ t))) [
  | inl here ↦ rw (here, until_fence) (drop_prefix-length fence (c ∷ t))
  | inr further ↦
      rw (further, until_fence) (longer c (length t) (until_fence t) (until_fence-IsShort t))
]
  where
    longer :
        (c n : ℕ) (o : Option (Text × Text))
        → IsShort n o
        → IsShort (suc n) (elim o [ none ↦ none | some (group, after) ↦ some (c ∷ group, after) ])
    longer c n none h = tt
    longer c n (some (group, after)) h = omega (arith, h)

IsShort-weaken : (m n : ℕ) (o : Option (Text × Text)) → m ≤ n → IsShort m o → IsShort n o
IsShort-weaken m n none h k = tt
IsShort-weaken m n (some (group, after)) h k = omega (arith, h, k)

skip_tag-length : (t : Text) → length (skip_tag t) ≤ length t
unfolding skip_tag
skip_tag-length t = elim (Bool-cases (starts_with (codes "json") t)) [
  | inl tagged ↦ rw tagged (
      omega
        (arith, lstrip-length (drop_prefix (codes "json") t), drop_prefix-length (codes "json") t))
  | inr plain ↦ rw plain (lstrip-length t)
]

match_fence-IsShort : (c : ℕ) (t : Text) → IsShort (length t) (match_fence (c ∷ t))
unfolding match_fence drop_prefix
match_fence-IsShort c t = elim (Bool-cases (starts_with fence (c ∷ t))) [
  | inl here ↦
      rw (here, match_fence)
        (IsShort-weaken (length (skip_tag (drop_prefix (codes "``") t))) (length t) _
          (omega (
            arith,
            skip_tag-length (drop_prefix (codes "``") t),
            drop_prefix-length (codes "``") t,
          ))
          (until_fence-IsShort (skip_tag (drop_prefix (codes "``") t))))
  | inr other ↦ rw (other, match_fence) tt
]

same_groups :
    (more fuel : ℕ) (t : Text)
    → length t ≤ more
    → length t ≤ fuel
    → find_groups more t ≡ find_groups fuel t
unfolding find_groups
same_groups zero zero t h k = refl
same_groups zero (suc fuel) [] h k = refl
same_groups zero (suc fuel) (c ∷ t) h k = absurd (omega (arith, h))
same_groups (suc more) zero [] h k = refl
same_groups (suc more) zero (c ∷ t) h k = absurd (omega (arith, k))
same_groups (suc more) (suc fuel) [] h k = refl
same_groups (suc more) (suc fuel) (c ∷ t) h k = elim (Option-cases (match_fence (c ∷ t))) [
  | inl no_match ↦
      rw (no_match, find_groups) (same_groups more fuel t (omega (arith, h)) (omega (arith, k)))
  | inr ((group, after), found) ↦
      let short : length after ≤ length t =
        subst (IsShort (length t)) found (match_fence-IsShort c t) in
      rw (found, find_groups)
        (ap (λ gs. group ∷ gs)
          (same_groups more fuel after (omega (arith, h, short)) (omega (arith, k, short))))
]

-- The scan for fences ends by itself: with any fuel from the length of the text on, it finds the same
-- groups.
pub fenced_groups_lem :
    (fuel : ℕ) (text : Text) → length text ≤ fuel → find_groups fuel text ≡ fenced_groups text
unfolding fenced_groups
fenced_groups_lem fuel text h = same_groups fuel (length text) text h (omega arith)
