-- ===== src/Engine/Previous.antt =====
-- engine.py, `Engine.run`: what `previous` holds when a run is resumed.
use durable_agent_engine.Base.{
  ℕ, zero, suc, ◌==◌, String, ◌≡◌, refl, ap, sym, subst, ◌∙◌, Bool, true, false, ◌||◌, Option, none,
  some, some-injective, List, [], ◌∷◌, map, get_elem?, str_eq, str_eq-false, eq_iff, ==_iff,
  Bool-cases, inl, inr, and_true, or_false, or_false_intro, false≢true, arith, if◌then◌else◌,
  eq_refl,
}
use durable_agent_engine.Models.{Step, Plan, StepRecord}
use durable_agent_engine.Models.Validation.{
  names_contain, AreDistinct, plan_accepted, accepted_distinct,
}
use durable_agent_engine.Engine.{
  names_step, dict_put, outputs_from, previous_of, plan_matches_history,
}

named_contained :
    (steps : List Step) (i : ℕ) (name : String)
    → names_step (get_elem? steps i) name ≡ true
    → names_contain name (map (λ (s : Step). s.name) steps) ≡ true
unfolding names_step names_contain
named_contained [] i name h = absurd (false≢true h)
named_contained (s ∷ ss) zero name h = rw h refl
named_contained (s ∷ ss) (suc i) name h = ground (arith, named_contained ss i name h)

name_here :
    (s : Step) (ss : List Step) (j : ℕ) (name : String)
    → names_contain s.name (map (λ (s : Step). s.name) ss) ≡ false
    → names_step (some s) name ≡ true
    → names_step (get_elem? ss j) name ≡ true
    → ⊥
unfolding names_step
name_here s ss j name new h k = false≢true (
    sym new
    ∙ named_contained ss j s.name
        (subst (λ u. names_step (get_elem? ss j) u ≡ true) (sym ((eq_iff s.name name).0 h)) k))

-- Where the names are distinct, a name stands at one position.
position_unique :
    (steps : List Step) (i j : ℕ) (name : String)
    → AreDistinct (map (λ (s : Step). s.name) steps)
    → names_step (get_elem? steps i) name ≡ true
    → names_step (get_elem? steps j) name ≡ true
    → i ≡ j
unfolding names_step
position_unique [] i j name d h k = absurd (false≢true h)
position_unique (s ∷ ss) zero zero name d h k = refl
position_unique (s ∷ ss) zero (suc j) name d h k = absurd (name_here s ss j name d.0 h k)
position_unique (s ∷ ss) (suc i) zero name d h k = absurd (name_here s ss i name d.0 k h)
position_unique (s ∷ ss) (suc i) (suc j) name d h k =
    ap (λ n. suc n) (position_unique ss i j name d.1 h k)

module _ {J : Type 0} where
  -- `previous.get(name)`
  abbrev pub lookup : String → List (String × J) → Option J
  lookup name [] = none
  lookup name ((n, output) ∷ d) = if str_eq n name then some output else lookup name d

  abbrev pub has_index : ℕ → List (StepRecord J) → Bool
  has_index i [] = false
  has_index i (r ∷ rs) = r.index == i || has_index i rs

  abbrev has_name : String → List (StepRecord J) → Bool
  has_name name [] = false
  has_name name (r ∷ rs) = str_eq r.name name || has_name name rs

  -- No index occurs twice, as the primary key of step_records has it.
  abbrev pub AreKeyed : List (StepRecord J) → Type 0
  AreKeyed [] = Unit
  AreKeyed (r ∷ rs) = (has_index r.index rs ≡ false) × AreKeyed rs

  -- the checkpoint at an index
  abbrev pub record_at : ℕ → List (StepRecord J) → Option (StepRecord J)
  record_at i [] = none
  record_at i (r ∷ rs) = if r.index == i then some r else record_at i rs

  lookup_put :
      (name : String) (output : J) (d : List (String × J))
      → lookup name (dict_put name output d) ≡ some output
  unfolding dict_put
  lookup_put name output [] = rw (eq_refl name) refl
  lookup_put name output ((n, o) ∷ d) = elim (Bool-cases (str_eq n name)) [
    | inl same ↦ rw (same, same) refl
    | inr other ↦ rw (other, other) (lookup_put name output d)
  ]

  lookup_put_other :
      (name other : String) (output : J) (d : List (String × J))
      → str_eq other name ≡ false
      → lookup name (dict_put other output d) ≡ lookup name d
  unfolding dict_put
  lookup_put_other name other output [] h = rw h refl
  lookup_put_other name other output ((n, o) ∷ d) h = elim (Bool-cases (str_eq n other)) [
    | inl same ↦ rw (same, (eq_iff n other).0 same, h) refl
    | inr new ↦ rw (new, lookup_put_other name other output d h) refl
  ]

  outputs_without :
      (name : String) (rs : List (StepRecord J)) (d : List (String × J))
      → has_name name rs ≡ false
      → lookup name (outputs_from d rs) ≡ lookup name d
  unfolding outputs_from
  outputs_without name [] d h = refl
  outputs_without name (r ∷ rs) d h =
      outputs_without name rs (dict_put r.name r.output d) (or_false _ _ h).1
      ∙ lookup_put_other name r.name r.output d (or_false _ _ h).0

  name_differs :
      (steps : List Step) (i : ℕ) (name : String) (r : StepRecord J)
      → AreDistinct (map (λ (s : Step). s.name) steps)
      → names_step (get_elem? steps i) name ≡ true
      → names_step (get_elem? steps r.index) r.name ≡ true
      → (r.index == i) ≡ false
      → str_eq r.name name ≡ false
  name_differs steps i name r d h m k = str_eq-false r.name name (λ same. false≢true (
      sym k
      ∙ (==_iff r.index i).1 (
          position_unique steps r.index i name d
            (subst (λ u. names_step (get_elem? steps r.index) u ≡ true) same m) h)))

  name_absent :
      (steps : List Step) (i : ℕ) (name : String) (rs : List (StepRecord J))
      → AreDistinct (map (λ (s : Step). s.name) steps)
      → names_step (get_elem? steps i) name ≡ true
      → plan_matches_history steps rs ≡ true
      → has_index i rs ≡ false
      → has_name name rs ≡ false
  unfolding plan_matches_history
  name_absent steps i name [] d h m k = refl
  name_absent steps i name (r ∷ rs) d h m k =
      or_false_intro (str_eq r.name name) (has_name name rs)
        (name_differs steps i name r d h (and_true _ _ m).0 (or_false _ _ k).0)
        (name_absent steps i name rs d h (and_true _ _ m).1 (or_false _ _ k).1)

  outputs_hold :
      (steps : List Step) (i : ℕ) (rs : List (StepRecord J)) (r : StepRecord J)
      (d : List (String × J))
      → AreDistinct (map (λ (s : Step). s.name) steps)
      → plan_matches_history steps rs ≡ true
      → AreKeyed rs
      → record_at i rs ≡ some r
      → lookup r.name (outputs_from d rs) ≡ some r.output
  unfolding outputs_from plan_matches_history
  outputs_hold steps i [] r d n m k h = cc h
  outputs_hold steps i (q ∷ rs) r d n m k h = elim (Bool-cases (q.index == i)) [
    | inl here ↦
        let same = some-injective q r (rw here at h) in
        subst (λ p. lookup p.name (outputs_from (dict_put q.name q.output d) rs) ≡ some p.output)
          same
          (outputs_without q.name rs (dict_put q.name q.output d)
              (name_absent steps q.index q.name rs n (and_true _ _ m).0 (and_true _ _ m).1 k.0)
            ∙ lookup_put q.name q.output d)
    | inr later ↦
        outputs_hold steps i rs r (dict_put q.name q.output d) n (and_true _ _ m).1 k.1
          (rw later at h)
  ]

  -- For a plan that Plan accepts, and checkpoints that match it and are keyed by index: the outputs
  -- that a resumed step reads by name hold, under each checkpoint's name, that checkpoint's output.
  pub previous_holds_outputs :
      (isalnum : ℕ → Bool) (plan : Plan) (rs : List (StepRecord J)) (i : ℕ) (r : StepRecord J)
      → plan_accepted isalnum plan ≡ true
      → plan_matches_history plan.steps rs ≡ true
      → AreKeyed rs
      → record_at i rs ≡ some r
      → lookup r.name (previous_of rs) ≡ some r.output
  unfolding previous_of
  previous_holds_outputs isalnum plan rs i r accepted m k h =
      outputs_hold plan.steps i rs r [] (accepted_distinct isalnum plan accepted) m k h
