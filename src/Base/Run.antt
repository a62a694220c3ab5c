-- ===== src/Base/Run.antt =====
-- Commands over a state: a C function as a function of the state that it finds.
use mathlib.Core.Option.{Option, none, some}

-- A call returns, goes wrong (a null pointer, memory outside an array, a failed assertion, a
-- division by zero), or never returns.
pub data Run (S A : Type 0) : Type 0 where
  ok : A → S → Run S A
  fault : Run S A
  diverge : Run S A

abbrev pub pure : {S A : Type 0} → A → S → Run S A
pure = ok

module _ {S A B : Type 0} where
  abbrev pub and_then : Run S A → (A → S → Run S B) → Run S B
  and_then (ok a s) f = f a s
  and_then fault f = fault
  and_then diverge f = diverge

  infixl 5 ◌>>=◌ ◌>>◌
  abbrev pub ◌>>=◌ : (S → Run S A) → (A → S → Run S B) → S → Run S B
  m >>= f = λ s. and_then (m s) f

  abbrev pub ◌>>◌ : (S → Run S A) → (S → Run S B) → S → Run S B
  m >> n = m >>= λ _. n

abbrev pub get : {S : Type 0} → S → Run S S
get s = ok s s

abbrev pub put : {S : Type 0} → S → S → Run S (Unit {0})
put s' s = ok tt s'

-- `*p`.
abbrev pub deref : {S A : Type 0} → Option A → S → Run S A
deref none s = fault
deref (some a) s = ok a s
