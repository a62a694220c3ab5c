-- ===== src/Shell/Parser/Passes.antt =====
-- src/shell/parser.c: both passes over a line, round by round.
use pennos.Base.{ℕ, zero, suc, ◌≡◌, refl, ap, sym, subst, ◌∙◌, Bool, List, [], ◌∷◌, Option, some}
use pennos.Shell.Lexer.{skip_space}
use pennos.Shell.Parser.{
  Tokens, kind_of, error, checked, check_tokens, Filled, Placing, placed, fill,
}
use pennos.Shell.Parser.Loops.{IsCode, Always-both, behind-Always}
use pennos.Shell.Parser.Fill.{Counted, Plain, Final, check_kind-Flags, check_kind-Round}

checked-injective : {x y : Tokens} → checked x ≡ checked y → x ≡ y
checked-injective h = cc

check_tokens-Final :
    (rounds : ℕ) (s : List ℕ) (st end : Tokens)
    → Plain st
    → check_tokens rounds s st ≡ checked end
    → Final st end.is_file_append
unfolding check_tokens
check_tokens-Final rounds [] st end plain h =
    λ _. ap (λ x. x.is_file_append) (sym (checked-injective h))
check_tokens-Final zero (c ∷ s) st end plain h = absurd cc
check_tokens-Final (suc rounds) (c ∷ s) st end plain h =
    behind-Always (λ q. q ≡ checked end → Final st end.is_file_append)
      (λ r st'. check_tokens rounds (skip_space r) st') (check_kind-Flags (kind_of c) c s st plain)
      (λ e _ h'. absurd cc)
      (λ r st' (plain', final) h'.
        final end.is_file_append (check_tokens-Final rounds (skip_space r) st' end plain' h'))
      h

-- The rest of the second pass behind a round.
fill_behind : ℕ → Bool → Placing → Option Filled
fill_behind rounds append (placed r b) = fill rounds append (skip_space r) b

-- The second pass takes as many rounds as the first, and keeps to what was counted.
pub check_tokens-Counted :
    (rounds : ℕ) (s : List ℕ) (st end : Tokens) (b : Filled)
    → Plain st
    → Counted st b
    → check_tokens rounds s st ≡ checked end
    → (b' : Filled) × (fill rounds end.is_file_append s b ≡ some b') × Counted end b'
unfolding check_tokens fill fill_behind
check_tokens-Counted rounds [] st end b plain counted h =
    (b, refl, subst (λ x. Counted x b) (checked-injective h) counted)
check_tokens-Counted zero (c ∷ s) st end b plain counted h = absurd cc
check_tokens-Counted (suc rounds) (c ∷ s) st end b plain counted h =
    behind-Always
      (λ q.
        q ≡ checked end
        → (b' : Filled) × (fill (suc rounds) end.is_file_append (c ∷ s) b ≡ some b')
          × Counted end b')
      (λ r st'. check_tokens rounds (skip_space r) st')
      (Always-both (check_kind-Flags (kind_of c) c s st plain)
        (check_kind-Round c s st b plain counted (kind_of c) refl))
      (λ e _ h'. absurd cc)
      (λ r st' ((plain', _), round) h'.
        let final = check_tokens-Final rounds (skip_space r) st' end plain' h' in
        let (b1, same, counted') = round.placing end.is_file_append final in
        let (b', filled, done) =
          check_tokens-Counted rounds (skip_space r) st' end b1 plain' counted' h' in
        (b', ap (fill_behind rounds end.is_file_append) same ∙ filled, done))
      h

-- The error codes of the first pass.
error-injective : {x y : ℕ} → error x ≡ error y → x ≡ y
error-injective h = cc

pub check_tokens-IsCode :
    (rounds : ℕ) (s : List ℕ) (st : Tokens) (e : ℕ)
    → Plain st
    → check_tokens rounds s st ≡ error e
    → IsCode e
unfolding check_tokens
check_tokens-IsCode rounds [] st e plain h = absurd cc
check_tokens-IsCode zero (c ∷ s) st e plain h = absurd cc
check_tokens-IsCode (suc rounds) (c ∷ s) st e plain h =
    behind-Always (λ q. q ≡ error e → IsCode e) (λ r st'. check_tokens rounds (skip_space r) st')
      (check_kind-Flags (kind_of c) c s st plain)
      (λ e' code h'. subst IsCode (error-injective h') code)
      (λ r st' (plain', _) h'. check_tokens-IsCode rounds (skip_space r) st' e plain' h') h
