-- ===== src/Exec/Keeps.antt =====
-- What a call keeps of the state, whether it returns or raises.
use durable_agent_engine.Base.{Option, none, some}
use durable_agent_engine.Exec.{Error, Result, ok, err, Exec, continue, ◌>>=◌, or_raise}

abbrev pub Keeps : {S A : Type 0} → (S → Type 0) → Exec S A → Type 0
Keeps {S} P m = (s : S) → P s → P (m s).1

module _ {S A B : Type 0} (P : S → Type 0) where
  continue_keeps :
      (r : Result A) (f : A → Exec S B) (s : S)
      → ((a : A) → Keeps P (f a))
      → P s
      → P (continue r f s).1
  continue_keeps (ok a) f s k h = k a s h
  continue_keeps (err e) f s k h = h

  pub bind-Keeps :
      (m : Exec S A) (f : A → Exec S B) → Keeps P m → ((a : A) → Keeps P (f a)) → Keeps P (m >>= f)
  bind-Keeps m f km kf s h = continue_keeps (m s).0 f (m s).1 kf (km s h)

module _ {S A B : Type 0} (P Q : S → Type 0) where
  continue_leads :
      (r : Result A) (f : A → Exec S B) (s : S)
      → ((s : S) → P s → Q s)
      → ((a : A) (s : S) → P s → Q (f a s).1)
      → P s
      → Q (continue r f s).1
  continue_leads (ok a) f s e k h = k a s h
  continue_leads (err error) f s e k h = e s h

  -- What the first call keeps, and what follows makes of it.
  pub bind-Leads :
      (m : Exec S A) (f : A → Exec S B)
      → Keeps P m
      → ((s : S) → P s → Q s)
      → ((a : A) (s : S) → P s → Q (f a s).1)
      → (s : S) → P s
      → Q ((m >>= f) s).1
  bind-Leads m f km e kf s h = continue_leads (m s).0 f (m s).1 e kf (km s h)

pub or_raise-Keeps :
    {S A : Type 0} (P : S → Type 0) (o : Option A) (e : Error) → Keeps P (or_raise {S = S} o e)
or_raise-Keeps P none e s h = h
or_raise-Keeps P (some a) e s h = h

-- `P` of what a call returns and of the state it leaves, or `E` of the state in which it raises.
abbrev pub Leaves : {S A : Type 0} → (A → S → Type 0) → (S → Type 0) → Result A → S → Type 0
Leaves P E (ok a) s = P a s
Leaves P E (err error) s = E s

module _ {S A B : Type 0} (P : A → S → Type 0) (E Q : S → Type 0) where
  continue_leaves :
      (r : Result A) (f : A → Exec S B) (s : S)
      → Leaves P E r s
      → ((s : S) → E s → Q s)
      → ((a : A) (s : S) → P a s → Q (f a s).1)
      → Q (continue r f s).1
  continue_leaves (ok a) f s h e k = k a s h
  continue_leaves (err error) f s h e k = e s h

  -- What follows goes on from what the first call leaves.
  pub bind-Leaves :
      (m : Exec S A) (f : A → Exec S B) (s : S)
      → Leaves P E (m s).0 (m s).1
      → ((s : S) → E s → Q s)
      → ((a : A) (s : S) → P a s → Q (f a s).1)
      → Q ((m >>= f) s).1
  bind-Leaves m f s h e k = continue_leaves (m s).0 f (m s).1 h e k
