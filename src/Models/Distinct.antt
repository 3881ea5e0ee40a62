-- ===== src/Models/Distinct.antt =====
-- models.py, `effect_token`: which tokens can be equal.
use durable_agent_engine.Base.{
  ℕ, zero, suc, ◌+◌, ◌-◌, ◌*◌, ◌/◌, ◌%◌, ◌<◌, String, ◌≡◌, ◌≢◌, refl, sym, ap, subst, ◌∙◌, ◌⊎◌, inl,
  inr, false≢true, Bool-cases, List, [], ◌∷◌, ◌++◌, Text, codes, decimal, decimal_digits, ltb,
  str_eq, eq_iff, ==_iff, ◌==◌, arith,
}
use text.Mathlib.TextEquality.{Char-path}
use mathlib.Core.Path.{ap₂}
use durable_agent_engine.Externals.{Externals}
use durable_agent_engine.Models.Token.{hex_digit, hexdigest, token_text, effect_token}

-- The number that digits stand for, after those of `n`.
number_from : ℕ → Text → ℕ
number_from n [] = n
number_from n (c ∷ t) = number_from (n * 10 + (c - b'0')) t

number-digits :
    (fuel n : ℕ) (t : Text) → n < fuel → number_from 0 (decimal_digits fuel n t) ≡ number_from n t
unfolding decimal_digits number_from
number-digits zero n t h = absurd (omega arith)
number-digits (suc fuel) n t h = elim (Bool-cases (ltb n 10)) [
  | inl small ↦ rw small (ap (λ k. number_from k t) (omega arith))
  | inr large ↦ rw large (
      number-digits fuel (n / 10) ((b'0' + n % 10) ∷ t) (ground arith)
      ∙ ap (λ k. number_from k t) (omega arith))
]

-- The decimal digits of a number give the number back.
number-decimal : (n : ℕ) → number_from 0 (decimal n) ≡ n
unfolding decimal number_from
number-decimal n = number-digits (n + 1) n [] (omega arith)

decimal-injective : (m n : ℕ) → decimal m ≡ decimal n → m ≡ n
decimal-injective m n h = sym (number-decimal m) ∙ ap (number_from 0) h ∙ number-decimal n

-- No character is a colon.
abbrev HasNoColon : Text → Type 0
HasNoColon [] = Unit
HasNoColon (c ∷ t) = (c < b':') × HasNoColon t

digits-HasNoColon : (fuel n : ℕ) (t : Text) → HasNoColon t → HasNoColon (decimal_digits fuel n t)
unfolding decimal_digits
digits-HasNoColon zero n t h = h
digits-HasNoColon (suc fuel) n t h = elim (Bool-cases (ltb n 10)) [
  | inl small ↦ rw small (ground arith, h)
  | inr large ↦ rw large (digits-HasNoColon fuel (n / 10) ((b'0' + n % 10) ∷ t) (omega arith, h))
]

no_colon_inside : (t d : Text) → HasNoColon (t ++ (b':' ∷ d)) → ⊥
no_colon_inside [] d h = omega (arith, h.0)
no_colon_inside (c ∷ t) d h = no_colon_inside t d h.1

-- The last colon divides a text.
split_at_colon :
    (s t d e : Text)
    → HasNoColon d
    → HasNoColon e
    → s ++ (b':' ∷ d) ≡ t ++ (b':' ∷ e)
    → (s ≡ t) × (d ≡ e)
split_at_colon [] [] d e h k p = (refl, cc p)
split_at_colon [] (c ∷ t) d e h k p = absurd (no_colon_inside t e (subst HasNoColon (cc p) h))
split_at_colon (c ∷ s) [] d e h k p = absurd (no_colon_inside s d (subst HasNoColon (cc p) k))
split_at_colon (c ∷ s) (c' ∷ t) d e h k p =
    let (q, r) = split_at_colon s t d e h k (cc p) in (cc (p, q), r)

codes-injective : (s t : String) → codes s ≡ codes t → s ≡ t
codes-injective String.[] String.[] h = refl
codes-injective String.[] (String.◌∷◌ d t) h = cc h
codes-injective (String.◌∷◌ c s) String.[] h = cc h
codes-injective (String.◌∷◌ c s) (String.◌∷◌ d t) h =
    ap₂ String.◌∷◌ (Char-path c d (cc h)) (codes-injective s t (cc h))

-- Different steps give the hash different texts.
pub token_text-injective :
    (r s : String) (i j : ℕ) → token_text r i ≡ token_text s j → (r ≡ s) × (i ≡ j)
unfolding token_text decimal
token_text-injective r s i j h =
    let (p, q) =
      split_at_colon (codes r) (codes s) (decimal i) (decimal j) (digits-HasNoColon (i + 1) i [] tt)
        (digits-HasNoColon (j + 1) j [] tt) h in
    (codes-injective r s p, decimal-injective i j q)

-- Each entry is a byte.
abbrev pub AreBytes : List ℕ → Type 0
AreBytes [] = Unit
AreBytes (b ∷ bs) = (b < 256) × AreBytes bs

hex_digit-injective : (m n : ℕ) → m < 16 → n < 16 → hex_digit m ≡ hex_digit n → m ≡ n
unfolding hex_digit
hex_digit-injective m n h k e = ground arith

byte_digits :
    (b c : ℕ)
    → b < 256
    → c < 256
    → hex_digit (b / 16) ≡ hex_digit (c / 16)
    → hex_digit (b % 16) ≡ hex_digit (c % 16)
    → b ≡ c
byte_digits b c h k p q = omega (
  arith,
  hex_digit-injective (b / 16) (c / 16) (omega arith) (omega arith) p,
  hex_digit-injective (b % 16) (c % 16) (omega arith) (omega arith) q,
)

hexdigest-injective :
    (bs cs : List ℕ) → AreBytes bs → AreBytes cs → hexdigest bs ≡ hexdigest cs → bs ≡ cs
unfolding hexdigest
hexdigest-injective [] [] h k e = refl
hexdigest-injective [] (c ∷ cs) h k e = cc e
hexdigest-injective (b ∷ bs) [] h k e = cc e
hexdigest-injective (b ∷ bs) (c ∷ cs) h k e =
    ap₂ (λ x xs. x ∷ xs) (byte_digits b c h.0 k.0 (cc e) (cc e))
      (hexdigest-injective bs cs h.1 k.1 (cc e))

module _ {J : Type 0} (x : Externals J) where
  -- Two different texts that the hash does not tell apart.
  abbrev pub Collide : Text → Text → Type 0
  Collide t t' = (t ≢ t') × (x.blake2b 16 t ≡ x.blake2b 16 t')

  same_or_Collide :
      (r s : String) (i j : ℕ)
      → x.blake2b 16 (token_text r i) ≡ x.blake2b 16 (token_text s j)
      → ((r ≡ s) × (i ≡ j)) ⊎ Collide (token_text r i) (token_text s j)
  same_or_Collide r s i j e = elim (Bool-cases (str_eq r s)) [
    | inl same ↦ elim (Bool-cases (i == j)) [
      | inl equal ↦ inl ((eq_iff r s).0 same, (==_iff i j).0 equal)
      | inr other ↦
          inr (λ h. false≢true (sym other ∙ (==_iff i j).1 (token_text-injective r s i j h).1), e)
    ]
    | inr other ↦
        inr (λ h. false≢true (sym other ∙ (eq_iff r s).1 (token_text-injective r s i j h).0), e)
  ]

  -- The tokens of two steps are equal only if they are one step of one run, or the hash collides on
  -- the texts of these very tokens, which are then different. Supposed: the digests are lists of bytes.
  pub effect_token-injective :
      (r s : String) (i j : ℕ)
      → ((t : Text) → AreBytes (x.blake2b 16 t))
      → effect_token x r i ≡ effect_token x s j
      → ((r ≡ s) × (i ≡ j)) ⊎ Collide (token_text r i) (token_text s j)
  unfolding effect_token
  effect_token-injective r s i j bytes e =
      same_or_Collide r s i j
        (hexdigest-injective _ _ (bytes (token_text r i)) (bytes (token_text s j)) e)
