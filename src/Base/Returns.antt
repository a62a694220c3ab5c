-- ===== src/Base/Returns.antt =====
-- Total correctness of a command: it returns, and a postcondition holds.
use pennos.Base.Run.{Run, ok, fault, diverge, and_then, deref}
use mathlib.Core.Path.{◌≡◌, refl}
use mathlib.Core.Option.{Option, none, some}
use native.Mathlib.Omega.{arith}

pub data Returns {S A : Type 0} (P : A → S → Type 0) : Run S A → Type 0 where
  returns : {a : A} {s : S} → P a s → Returns P (ok a s)

-- What a run's result has to satisfy; nothing that does not return satisfies it.
abbrev Post : {S A : Type 0} → (A → S → Type 0) → Run S A → Type 0
Post P (ok a s) = P a s
Post P fault = ⊥
Post P diverge = ⊥

post : {S A : Type 0} {P : A → S → Type 0} (r : Run S A) → Returns P r → Post P r
post _ (returns p) = p

module _ {S A : Type 0} {P : A → S → Type 0} where
  pub bind :
      {B : Type 0} {Q : B → S → Type 0} {r : Run S A} {f : A → S → Run S B}
      → Returns P r
      → ((a : A) (s : S) → P a s → Returns Q (f a s))
      → Returns Q (and_then r f)
  bind (returns p) next = next _ _ p

  pub mono :
      {Q : A → S → Type 0} {r : Run S A}
      → Returns P r
      → ((a : A) (s : S) → P a s → Q a s)
      → Returns Q r
  mono (returns p) weaken = returns (weaken _ _ p)

  pub both :
      {Q : A → S → Type 0} {r : Run S A}
      → Returns P r
      → Returns Q r
      → Returns (λ a s. P a s × Q a s) r
  both (returns p) q = returns (p, post _ q)

pub deref-Returns :
    {S A : Type 0} (o : Option A) (s : S) (a : A)
    → o ≡ some a
    → Returns (λ b t. (b ≡ a) × (t ≡ s)) (deref o s)
deref-Returns none s a h = cc
deref-Returns (some b) s a h = returns (ground arith, refl)

-- What a command returned, with the state that it left.
pub outcome :
    {S A : Type 0} {P : A → S → Type 0} {r : Run S A}
    → Returns P r
    → (a : A) × (s : S) × (r ≡ ok a s) × P a s
outcome (returns {a} {s} p) = (a, s, refl, p)
