-- ===== src/Models/Validation.antt =====
-- models.py: the validators of Step, Plan and RunSpec. `str.isalnum` of one character is a parameter.
use durable_agent_engine.Base.{
  ℕ, ◌≤◌, ◌==◌, leb, String, ◌≡◌, refl, sym, subst, ◌∙◌, Bool, true, false, ◌&&◌, ◌||◌, List, [],
  ◌∷◌, map, length, codes, str_eq, Bool-cases, inl, inr, arith, eq_iff, ==_iff, if◌then◌else◌, Text,
}
use durable_agent_engine.Models.{Step, Plan}

-- `name in names`
unfoldable pub names_contain : String → List String → Bool
names_contain name [] = false
names_contain name (n ∷ ns) = str_eq n name || names_contain name ns

-- `set(names)`
unfoldable pub set_of : List String → List String
unfolding names_contain
set_of [] = []
set_of (n ∷ ns) = let rest = set_of ns in if names_contain n rest then rest else n ∷ rest

-- the validator `_unique_names` of a plan: false where it raises
unfoldable pub unique_names : List Step → Bool
unfolding set_of
unique_names steps =
    let names = map (λ (s : Step). s.name) steps in length (set_of names) == length names

-- `Field(min_length=low, max_length=high)` of a string
abbrev length_between : ℕ → ℕ → String → Bool
length_between low high s = leb low (length (codes s)) && leb (length (codes s)) high

module _ (isalnum : ℕ → Bool) where
  -- the validator `_slug` of a step: false where it raises
  unfoldable pub is_slug : Text → Bool
  is_slug [] = true
  is_slug (c ∷ t) = (isalnum c || (c == b'-' || c == b'_')) && is_slug t

  unfoldable pub step_accepted : Step → Bool
  unfolding is_slug
  step_accepted step =
      length_between 1 80 step.name
      && is_slug (codes step.name)
      && leb 1 step.max_attempts
      && leb step.max_attempts 10

  unfoldable pub steps_accepted : List Step → Bool
  unfolding step_accepted
  steps_accepted [] = true
  steps_accepted (s ∷ ss) = step_accepted s && steps_accepted ss

  unfoldable pub plan_accepted : Plan → Bool
  unfolding steps_accepted unique_names
  plan_accepted plan =
      length_between 1 80 plan.name
      && leb 1 (length plan.steps)
      && steps_accepted plan.steps
      && unique_names plan.steps

-- the constraint on the key of a RunSpec, whose plan is accepted already
unfoldable pub key_accepted : String → Bool
key_accepted key = length_between 8 200 key

-- No name occurs twice.
abbrev pub AreDistinct : List String → Type 0
AreDistinct [] = Unit
AreDistinct (n ∷ ns) = (names_contain n ns ≡ false) × AreDistinct ns

set_of-le : (ns : List String) → length (set_of ns) ≤ length ns
unfolding set_of
set_of-le [] = omega arith
set_of-le (n ∷ ns) = ground (arith, set_of-le ns)

kept_name :
    (m n : String) (rest : List String)
    → names_contain m (if names_contain n rest then rest else n ∷ rest)
      ≡ (str_eq n m || names_contain m rest)
unfolding names_contain
kept_name m n rest = elim (Bool-cases (names_contain n rest)) [
  | inl there ↦ elim (Bool-cases (str_eq n m)) [
    | inl same ↦
        rw (there, same) (subst (λ u. names_contain u rest ≡ true) ((eq_iff n m).0 same) there)
    | inr other ↦ rw (there, other) refl
  ]
  | inr new ↦ rw new refl
]

set_of-contains : (m : String) (ns : List String) → names_contain m (set_of ns) ≡ names_contain m ns
unfolding set_of names_contain
set_of-contains m [] = refl
set_of-contains m (n ∷ ns) = rw (kept_name m n (set_of ns), set_of-contains m ns) refl

same_length-AreDistinct : (ns : List String) → length (set_of ns) ≡ length ns → AreDistinct ns
unfolding set_of
same_length-AreDistinct [] h = tt
same_length-AreDistinct (n ∷ ns) h = elim (Bool-cases (names_contain n (set_of ns))) [
  | inl there ↦ absurd (omega (arith, set_of-le ns, rw there at h))
  | inr new ↦
      (sym (set_of-contains n ns) ∙ new, same_length-AreDistinct ns (omega (arith, rw new at h)))
]

fourth_true : (a b c d : Bool) → (a && b && c && d) ≡ true → d ≡ true
fourth_true a b c d h = ground arith

unique-AreDistinct :
    (steps : List Step) → unique_names steps ≡ true → AreDistinct (map (λ (s : Step). s.name) steps)
unfolding unique_names
unique-AreDistinct steps h =
    let names = map (λ (s : Step). s.name) steps in
    same_length-AreDistinct names ((==_iff (length (set_of names)) (length names)).0 h)

pub accepted_distinct :
    (isalnum : ℕ → Bool) (plan : Plan)
    → plan_accepted isalnum plan ≡ true
    → AreDistinct (map (λ (s : Step). s.name) plan.steps)
unfolding plan_accepted
accepted_distinct isalnum plan h = unique-AreDistinct plan.steps (
    fourth_true (length_between 1 80 plan.name) (leb 1 (length plan.steps))
      (steps_accepted isalnum plan.steps) (unique_names plan.steps) h)
