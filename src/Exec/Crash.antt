-- ===== src/Exec/Crash.antt =====
-- How a call ends: it returns, it raises SimulatedCrash, or it raises something else.
use durable_agent_engine.Base.{◌≡◌}
use durable_agent_engine.Exec.{simulated_crash, Result, ok, err, Exec, continue, ◌>>=◌}

-- `P` of what a call returns and of the state it leaves, `C` of the state in which it crashes; of any
-- other exception nothing.
abbrev pub After : {S A : Type 0} → (A → S → Type 0) → (S → Type 0) → Result A → S → Type 0
After P C (ok a) s = P a s
After P C (err error) s = error ≡ simulated_crash → C s

module _ {S : Type 0} (C : S → Type 0) where
  continue-After :
      {A B : Type 0} (P : A → S → Type 0) (Q : B → S → Type 0) (r : Result A) (f : A → Exec S B)
      (s : S)
      → After P C r s
      → ((a : A) (s : S) → P a s → After Q C (f a s).0 (f a s).1)
      → After Q C (continue r f s).0 (continue r f s).1
  continue-After P Q (ok a) f s h k = k a s h
  continue-After P Q (err error) f s h k = h

  pub bind-After :
      {A B : Type 0} (P : A → S → Type 0) (Q : B → S → Type 0) (m : Exec S A) (f : A → Exec S B)
      (s : S)
      → After P C (m s).0 (m s).1
      → ((a : A) (s : S) → P a s → After Q C (f a s).0 (f a s).1)
      → After Q C ((m >>= f) s).0 ((m >>= f) s).1
  bind-After P Q m f s h k = continue-After P Q (m s).0 f (m s).1 h k
