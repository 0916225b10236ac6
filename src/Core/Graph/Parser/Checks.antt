-- ===== src/Core/Graph/Parser/Checks.antt =====
-- The parsers of `accept` and `on_fail`, and what a ladder is that they let pass.
use cuttlefish_vm.Base.{
  ◌==◌, length, Text, codes, text_eq, ℕ, zero, suc, ◌^◌, ◌≤◌, ◌<◌, ◌≡◌, refl, false, Option, none,
  some, List, [], ◌∷◌, ◌++◌, arith,
}
use cuttlefish_vm.Core.Lex.{
  Token, open_brace, close_brace, open_bracket, close_bracket, comma, equals,
}
use cuttlefish_vm.Core.Parse.{Parse, ◌>>=◌, is_tok}
use cuttlefish_vm.Core.Parse.Meets.{
  Meets, Meets-weaken, Meets-ahead, Meets-exhausted, Meets-return, Meets-fail, Meets-ok_or,
  Meets-if, Meets-bind,
}
use cuttlefish_vm.Core.Graph.{ModelRef, AcceptCheck, Rung, retry, reroute, escalate}
use cuttlefish_vm.Core.Graph.Parser.{is_inside}
use cuttlefish_vm.Core.Graph.Parser.Bodies.{
  model_ref, judge_fields, judge_check, accept_check, checks_loop, accept_checks, rung, rungs_loop,
  ladder, ends_in_escalate,
}
use cuttlefish_vm.Core.Graph.Parser.Tokens.{
  Any, seen, look-bind-Meets, look-any-Meets, advance-same-Meets, expect-Meets, name-Meets,
  string-Meets, number-Meets, skip-Meets, skip_semi-bind-Meets, is_some-is_tok,
}
use cuttlefish_vm.Core.Graph.Parser.Expr.{close-Meets}

abbrev pub IsRung : Rung → Type 0
IsRung (retry n) = (1 ≤ n) × (n < 2 ^ 32)
IsRung _ = Unit

-- Retries are counted and at least one, and nothing stands behind an `escalate`.
abbrev pub IsLadder : List Rung → Type 0
IsLadder [] = Unit
IsLadder (escalate ∷ rest) = rest ≡ []
IsLadder (r ∷ rest) = IsRung r × IsLadder rest

append-IsLadder :
    (rungs : List Rung) (r : Rung)
    → IsLadder rungs
    → ends_in_escalate rungs ≡ false
    → IsRung r
    → IsLadder (rungs ++ r ∷ [])
unfolding ends_in_escalate
append-IsLadder [] escalate l e h = refl
append-IsLadder [] (retry n) l e h = (h, tt)
append-IsLadder [] (reroute m) l e h = (tt, tt)
append-IsLadder (escalate ∷ []) r l e h = cc
append-IsLadder (escalate ∷ s ∷ rest) r l e h = cc
append-IsLadder (retry n ∷ []) r l e h = (l.0, append-IsLadder [] r tt refl h)
append-IsLadder (retry n ∷ s ∷ rest) r l e h = (l.0, append-IsLadder (s ∷ rest) r l.1 e h)
append-IsLadder (reroute m ∷ []) r l e h = (tt, append-IsLadder [] r tt refl h)
append-IsLadder (reroute m ∷ s ∷ rest) r l e h = (tt, append-IsLadder (s ∷ rest) r l.1 e h)

module _ (to_lowercase : Text → Text) (tokens : List Token) where
  -- Two steps, the first of which moves on.
  pub then-Meets :
      {A B : Type 0} {P : A → Type 0} {Q : B → Type 0} (n k l : ℕ) {p : Parse A}
      {rest : A → Parse B}
      → Meets (length tokens) 0 n k p P
      → ((a : A) → P a → Meets (length tokens) 0 n l (rest a) Q)
      → Meets (length tokens) 0 n k (p >>= rest) Q
  then-Meets n k l m w = Meets-bind 0 n k n l k (omega arith) (omega arith) m w

  pub model_ref-Meets : (n : ℕ) → Meets (length tokens) 0 n 1 (model_ref to_lowercase tokens) Any
  unfolding model_ref
  model_ref-Meets n =
      then-Meets n 1 1 (name-Meets tokens n)
        (λ provider u. then-Meets n 1 0 (string-Meets tokens n) (λ target v. Meets-return n _ tt))

  judge_fields-Meets :
      (fuel : ℕ) (model : Option ModelRef) (prompt : Option Text)
      → Meets (length tokens) 0 fuel 0 (judge_fields to_lowercase tokens fuel model prompt) Any
  unfolding judge_fields
  judge_fields-Meets zero model prompt = Meets-exhausted 0
  judge_fields-Meets (suc fuel) model prompt = look-any-Meets tokens 0 (suc fuel) 0 (λ got.
      Meets-if 0 (suc fuel) 0 (is_inside close_brace got)
        (λ h.
          Meets-bind 0 (suc fuel) 1 fuel 0 0 (omega arith) (omega arith)
            (name-Meets tokens (suc fuel))
            (λ key u.
              Meets-bind 0 fuel 1 fuel 0 0 (omega arith) (omega arith)
                (expect-Meets tokens fuel equals)
                (λ a v.
                  Meets-if 0 fuel 0 (text_eq key (codes "model"))
                    (λ g.
                      Meets-bind 0 fuel 1 fuel 0 0 (omega arith) (omega arith)
                        (model_ref-Meets fuel)
                        (λ m w.
                          skip_semi-bind-Meets tokens fuel 0
                            (judge_fields-Meets fuel (some m) prompt)))
                    (λ g.
                      Meets-if 0 fuel 0 (text_eq key (codes "prompt"))
                        (λ f.
                          Meets-bind 0 fuel 1 fuel 0 0 (omega arith) (omega arith)
                            (string-Meets tokens fuel)
                            (λ s w.
                              skip_semi-bind-Meets tokens fuel 0
                                (judge_fields-Meets fuel model (some s))))
                        (λ f. Meets-fail 0 fuel 0 _)))))
        (λ h.
          Meets-bind 0 (suc fuel) 1 (suc fuel) 0 0 (omega arith) (omega arith)
            (expect-Meets tokens (suc fuel) close_brace)
            (λ a u.
              Meets-bind 0 (suc fuel) 0 (suc fuel) 0 0 (omega arith) (omega arith)
                (Meets-ok_or (suc fuel) _ prompt (λ p v. tt))
                (λ p v. Meets-return (suc fuel) _ tt))))

  judge_check-Meets :
      (fuel : ℕ) → Meets (length tokens) 0 fuel 1 (judge_check to_lowercase tokens fuel) Any
  unfolding judge_check
  judge_check-Meets fuel = look-bind-Meets tokens 0 fuel 1 (λ got.
      Meets-if (seen got) fuel 1 (is_tok open_brace got)
        (λ h.
          advance-same-Meets tokens fuel 0 got (is_some-is_tok tokens open_brace got h)
            (judge_fields-Meets fuel none none))
        (λ h.
          Meets-ahead (seen got) fuel 1
            (then-Meets fuel 1 0 (string-Meets tokens fuel) (λ prompt u. Meets-return fuel _ tt))))

  accept_check-Meets :
      (fuel : ℕ) (kind : Text)
      → Meets (length tokens) 0 fuel 1 (accept_check to_lowercase tokens fuel kind) Any
  unfolding accept_check
  accept_check-Meets fuel kind =
      Meets-if 0 fuel 1 (text_eq kind (codes "Schema"))
        (λ h. then-Meets fuel 1 0 (string-Meets tokens fuel) (λ path u. Meets-return fuel _ tt))
        (λ h.
          Meets-if 0 fuel 1 (text_eq kind (codes "Judge")) (λ g. judge_check-Meets fuel)
            (λ g. Meets-fail 0 fuel 1 _))

  checks_loop-Meets :
      (fuel : ℕ) (checks : List AcceptCheck)
      → Meets (length tokens) 0 fuel 0 (checks_loop to_lowercase tokens fuel checks) Any
  unfolding checks_loop
  checks_loop-Meets zero checks = Meets-exhausted 0
  checks_loop-Meets (suc fuel) checks = look-any-Meets tokens 0 (suc fuel) 0 (λ got.
      Meets-if 0 (suc fuel) 0 (is_tok close_bracket got)
        (λ h.
          Meets-weaken 0 0 (suc fuel) 1 0 (close-Meets tokens (suc fuel) close_bracket _ tt)
            (omega arith) (omega arith) (λ a u. u))
        (λ h.
          Meets-bind 0 (suc fuel) 1 fuel 0 0 (omega arith) (omega arith)
            (name-Meets tokens (suc fuel))
            (λ kind u.
              Meets-bind 0 fuel 1 fuel 0 0 (omega arith) (omega arith)
                (accept_check-Meets fuel kind)
                (λ check v. then-Meets fuel 0 0 (skip-Meets tokens fuel comma) (λ more w.
                  Meets-if 0 fuel 0 more (λ g. checks_loop-Meets fuel _)
                    (λ g.
                      Meets-weaken 0 0 fuel 1 0 (close-Meets tokens fuel close_bracket _ tt)
                        (omega arith) (omega arith) (λ a x. x)))))))

  pub accept_checks-Meets :
      (fuel : ℕ) → Meets (length tokens) 0 fuel 1 (accept_checks to_lowercase tokens fuel) Any
  unfolding accept_checks
  accept_checks-Meets fuel =
      then-Meets fuel 1 0 (expect-Meets tokens fuel open_bracket) (λ a u. checks_loop-Meets fuel [])

  rung-Meets :
      (n : ℕ) (kind : Text) → Meets (length tokens) 0 n 0 (rung to_lowercase tokens kind) IsRung
  unfolding rung
  rung-Meets n kind =
      Meets-if 0 n 0 (text_eq kind (codes "retry"))
        (λ h. Meets-bind 0 n 1 n 0 0 (omega arith) (omega arith) (number-Meets tokens n) (λ k small.
          Meets-if 0 n 0 (k == 0) (λ g. Meets-fail 0 n 0 _)
            (λ g. Meets-return n (retry k) (ground arith, small))))
        (λ h.
          Meets-if 0 n 0 (text_eq kind (codes "reroute"))
            (λ g.
              Meets-bind 0 n 1 n 0 0 (omega arith) (omega arith) (model_ref-Meets n)
                (λ m u. Meets-return n (reroute m) tt))
            (λ g.
              Meets-if 0 n 0 (text_eq kind (codes "escalate")) (λ f. Meets-return n escalate tt)
                (λ f. Meets-fail 0 n 0 _)))

  rungs_loop-Meets :
      (fuel : ℕ) (rungs : List Rung)
      → IsLadder rungs
      → Meets (length tokens) 0 fuel 0 (rungs_loop to_lowercase tokens fuel rungs) IsLadder
  unfolding rungs_loop
  rungs_loop-Meets zero rungs l = Meets-exhausted 0
  rungs_loop-Meets (suc fuel) rungs l = look-any-Meets tokens 0 (suc fuel) 0 (λ got.
      Meets-if 0 (suc fuel) 0 (is_tok close_bracket got)
        (λ h.
          Meets-weaken 0 0 (suc fuel) 1 0 (close-Meets tokens (suc fuel) close_bracket rungs l)
            (omega arith) (omega arith) (λ a u. u))
        (λ h.
          Meets-if 0 (suc fuel) 0 (ends_in_escalate rungs) (λ g. Meets-fail 0 (suc fuel) 0 _)
            (λ open_end.
              Meets-bind 0 (suc fuel) 1 fuel 0 0 (omega arith) (omega arith)
                (name-Meets tokens (suc fuel))
                (λ kind u. then-Meets fuel 0 0 (rung-Meets fuel kind) (λ r good.
                  then-Meets fuel 0 0 (skip-Meets tokens fuel comma) (λ more w.
                    let longer = append-IsLadder rungs r l open_end good in
                    Meets-if 0 fuel 0 more (λ g. rungs_loop-Meets fuel _ longer)
                      (λ g.
                        Meets-weaken 0 0 fuel 1 0 (close-Meets tokens fuel close_bracket _ longer)
                          (omega arith) (omega arith) (λ a x. x))))))))

  pub ladder-Meets :
      (fuel : ℕ) → Meets (length tokens) 0 fuel 1 (ladder to_lowercase tokens fuel) IsLadder
  unfolding ladder
  ladder-Meets fuel =
      then-Meets fuel 1 0 (expect-Meets tokens fuel open_bracket)
        (λ a u. rungs_loop-Meets fuel [] tt)
