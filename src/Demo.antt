-- ===== src/Demo.antt =====
-- src/durable_agent/demo.py: the gateway that deduplicates on a token, and the handler that charges.
pub mod Story
pub mod Charges
pub mod Paid
pub mod Verdict
use durable_agent_engine.Base.{
  ℕ, ◌+◌, ◌==◌, ◌≡◌, refl, sym, subst, ◌∙◌, Bool, true, false, Option, none, some, List, [], ◌∷◌,
  ◌++◌, Text, codes, take, text_eq, ==_iff, and_true, Bool-cases, inl, inr, if◌then◌else◌, arith,
}
use durable_agent_engine.Externals.{Externals}
use durable_agent_engine.Providers.{MockProvider, ChaosProvider}
use durable_agent_engine.Engine.{Outcome, Handler}
use durable_agent_engine.Engine.Context.{StepContext, effect_token}

pub record Gateway : Type 0 where
  pub seen : List (Text × Text)
  pub attempts : ℕ

-- `self.seen.get(token)`
abbrev pub receipt_of : Text → List (Text × Text) → Option Text
receipt_of token [] = none
receipt_of token ((t, receipt) ∷ seen) =
    if text_eq t token then some receipt else receipt_of token seen

record_charge : Text → Gateway → Option Text → (Text × Bool) × Gateway
record_charge token g (some receipt) = ((receipt, true), g)
record_charge token g none =
    let receipt = codes "rcpt_" ++ take 10 token in
    ((receipt, false), record g { seen = (token, receipt) ∷ g.seen })

-- Gateway.charge: the receipt, and whether it was replayed
unfoldable pub charge : Text → ℕ → Gateway → (Text × Bool) × Gateway
unfolding record_charge
charge token amount g =
    record_charge token (record g { attempts = g.attempts + 1 }) (receipt_of token g.seen)

-- charges in their order
unfoldable pub charge_all : List (Text × ℕ) → Gateway → Gateway
charge_all [] g = g
charge_all ((token, amount) ∷ calls) g = charge_all calls (charge token amount g).1

-- `MockProvider()` or `ChaosProvider(...)`
pub data ModelProvider : Type 0 where
  mock : MockProvider → ModelProvider
  chaos : ChaosProvider → ModelProvider

-- What a run of the demo acts on beside the store; `outside` is the clock and the source of uuids.
pub record World (V : Type 0) : Type 0 where
  pub gateway : Gateway
  pub model : ModelProvider
  pub outside : V

module _ {J V : Type 0} (x : Externals J) (amount_of : J → Option ℕ) (receipt_json : Text → J) where
  charge_found :
      Option ℕ → StepContext J (World V) → World V → Outcome J × StepContext J (World V) × World V
  charge_found none ctx w = (Outcome.raised (codes "KeyError: 'amount'"), ctx, w)
  charge_found (some amount) ctx w =
      let ((receipt, replayed), g) = charge (effect_token x ctx) amount w.gateway in
      (Outcome.returned (receipt_json receipt), ctx, record w { gateway = g })

  -- the handler `charge` of `build`; `ctx.payload["amount"]` and the dictionary of a receipt are
  -- parameters
  unfoldable pub charge_handler : Handler J (World V)
  unfolding charge_found
  charge_handler ctx = charge_found (amount_of ctx.payload) ctx

text_eq_refl : (t : Text) → text_eq t t ≡ true
text_eq_refl [] = refl
text_eq_refl (c ∷ t) = ground (arith, text_eq_refl t)

text_eq-path : (s t : Text) → text_eq s t ≡ true → s ≡ t
text_eq-path [] [] h = refl
text_eq-path [] (d ∷ t) h = cc h
text_eq-path (c ∷ s) [] h = cc h
text_eq-path (c ∷ s) (d ∷ t) h =
    rw
      (
        (==_iff c d).0 (and_true (c == d) (text_eq s t) h).0,
        text_eq-path s t (and_true (c == d) (text_eq s t) h).1,
      )
      refl

charged_receipt :
    (token : Text) (g : Gateway) (found : Option Text)
    → receipt_of token g.seen ≡ found
    → receipt_of token (record_charge token g found).1.seen ≡ some (record_charge token g found).0.0
unfolding record_charge
charged_receipt token g (some receipt) h = h
charged_receipt token g none h = rw (text_eq_refl token) refl

none-some : (receipt : Text) → ◌≡◌ {A = Option Text} none (some receipt) → ⊥
none-some receipt h = cc h

-- a receipt that is there stays
kept_receipt :
    (token receipt other : Text) (g : Gateway) (found : Option Text)
    → receipt_of other g.seen ≡ found
    → receipt_of token g.seen ≡ some receipt
    → receipt_of token (record_charge other g found).1.seen ≡ some receipt
unfolding record_charge
kept_receipt token receipt other g (some r) h k = k
kept_receipt token receipt other g none h k = elim (Bool-cases (text_eq other token)) [
  | inl same ↦ absurd (
      none-some receipt
        (sym (subst (λ u. receipt_of u g.seen ≡ none) (text_eq-path other token same) h) ∙ k))
  | inr new ↦ rw new k
]

kept_by_all :
    (token receipt : Text) (calls : List (Text × ℕ)) (g : Gateway)
    → receipt_of token g.seen ≡ some receipt
    → receipt_of token (charge_all calls g).seen ≡ some receipt
unfolding charge_all charge
kept_by_all token receipt [] g h = h
kept_by_all token receipt ((other, amount) ∷ calls) g h =
    kept_by_all token receipt calls _ (kept_receipt token receipt other _ _ refl h)

replayed :
    (token receipt : Text) (amount : ℕ) (g : Gateway)
    → receipt_of token g.seen ≡ some receipt
    → charge token amount g ≡ ((receipt, true), record g { attempts = g.attempts + 1 })
unfolding charge record_charge
replayed token receipt amount g h = rw h refl

-- A token that has been charged is not charged again, whatever was charged in between: the receipt
-- is the first one, and the gateway only counts the attempt.
pub charge_once :
    (token : Text) (amount amount' : ℕ) (calls : List (Text × ℕ)) (g : Gateway)
    → let g' = charge_all calls (charge token amount g).1 in
      charge token amount' g'
      ≡ (((charge token amount g).0.0, true), record g' { attempts = g'.attempts + 1 })
unfolding charge
charge_once token amount amount' calls g = replayed token _ amount' _ (
    kept_by_all token _ calls _ (
      charged_receipt token (record g { attempts = g.attempts + 1 }) (receipt_of token g.seen)
        refl))

module _ {J V : Type 0} (x : Externals J) (amount_of : J → Option ℕ) (receipt_json : Text → J) where
  -- The handler that charges, called again for the same run and step index: it answers the same
  -- output and charges nothing, whatever the gateway was asked in between. Both payloads name an
  -- amount, and the amounts may differ.
  pub resumed_charge :
      (ctx ctx' : StepContext J (World V)) (w : World V) (calls : List (Text × ℕ))
      (amount amount' : ℕ)
      → ctx'.run_id ≡ ctx.run_id
      → ctx'.index ≡ ctx.index
      → amount_of ctx.payload ≡ some amount
      → amount_of ctx'.payload ≡ some amount'
      → let first = charge_handler x amount_of receipt_json ctx w in
        let g = charge_all calls first.2.gateway in
        let second =
          charge_handler x amount_of receipt_json ctx' (record first.2 { gateway = g }) in
        (second.0 ≡ first.0) × (second.2.gateway.seen ≡ g.seen)
  unfolding charge_handler charge_found effect_token
  resumed_charge ctx ctx' w calls amount amount' r i a a' =
      rw (a, a', r, i, charge_once (effect_token x ctx) amount amount' calls w.gateway) (refl, refl)
