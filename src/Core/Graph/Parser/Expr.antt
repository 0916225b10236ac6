-- ===== src/Core/Graph/Parser/Expr.antt =====
-- The parser of inputs ends within its fuel and moves on.
use cuttlefish_vm.Base.{length, codes, strip_suffix, ℕ, zero, suc, ◌-◌, Option, List, arith}
use cuttlefish_vm.Core.Lex.{
  Tok, Token, open_brace, close_brace, open_bracket, close_bracket, comma, equals,
}
use cuttlefish_vm.Core.Parse.{◌>>◌, return, is_tok}
use cuttlefish_vm.Core.Parse.Meets.{
  Meets, Meets-weaken, Meets-exhausted, Meets-return, Meets-fail, Meets-ok_or, Meets-if, Meets-bind,
  Meets-option, Meets-fuel,
}
use cuttlefish_vm.Core.Graph.{Inputs}
use cuttlefish_vm.Core.Graph.Parser.{
  expect, name_of, reference, input_expr, input_fields, input_items,
}
use cuttlefish_vm.Core.Graph.Parser.Tokens.{
  Any, seen, look-bind-Meets, look-any-Meets, advance-bind-Meets, advance-same-Meets, expect-Meets,
  name-Meets, skip-Meets, skip_semi-bind-Meets, is_some-is_tok, is_some-name_of, advance-Meets,
}

module _ (tokens : List Token) where
  reference-Meets :
      (n : ℕ) (got : Option Token) → Meets (length tokens) (seen got) n 1 (reference tokens got) Any
  unfolding reference
  reference-Meets n got =
      Meets-option (seen got) n 1 (name_of tokens got) (Meets-fail (seen got) n 1 _) (λ s h.
        advance-same-Meets tokens n 0 got (is_some-name_of tokens got s h) (
          Meets-bind 0 n 0 n 0 0 (omega arith) (omega arith)
            (Meets-ok_or n _ (strip_suffix (codes ".out") s) (λ a u. tt))
            (λ a u. Meets-return n _ tt)))

  -- The bracket that ends a loop, and a value.
  pub close-Meets :
      {A : Type 0} {P : A → Type 0} (n : ℕ) (close : Tok) (a : A)
      → P a
      → Meets (length tokens) 0 n 1 (expect tokens close >> return a) P
  close-Meets n close a h =
      Meets-bind 0 n 1 n 0 1 (omega arith) (omega arith) (expect-Meets tokens n close)
        (λ u v. Meets-return n a h)

  mutual
    unfolding input_expr

    input_expr_meets : (fuel : ℕ) → Meets (length tokens) 0 fuel 1 (input_expr tokens fuel) Any
    input_expr_meets zero = Meets-exhausted 1
    input_expr_meets (suc fuel) = look-bind-Meets tokens 0 (suc fuel) 1 (λ got.
        Meets-if (seen got) (suc fuel) 1 (is_tok open_brace got)
          (λ h. advance-bind-Meets tokens fuel 0 got (is_some-is_tok tokens open_brace got h) (
            Meets-bind 0 fuel 1 fuel 0 0 (omega arith) (omega arith) (input_fields_meet fuel _)
              (λ a u. Meets-return fuel _ tt)))
          (λ h.
            Meets-if (seen got) (suc fuel) 1 (is_tok open_bracket got)
              (λ g.
                Meets-bind (seen got) (suc fuel) 1 (fuel - 1) 0 1 (omega arith) (omega arith)
                  (advance-Meets tokens (suc fuel) got (is_some-is_tok tokens open_bracket got g))
                  (λ u v.
                    Meets-bind 0 (fuel - 1) 0 (fuel - 1) 0 0 (omega arith) (omega arith)
                      (input_items_meet fuel) (λ a w. Meets-return (fuel - 1) _ tt)))
              (λ g. reference-Meets (suc fuel) got)))

    input_fields_meet :
        (fuel : ℕ) (fields : Inputs)
        → Meets (length tokens) 0 fuel 1 (input_fields tokens fuel fields) Any
    input_fields_meet zero fields = Meets-exhausted 1
    input_fields_meet (suc fuel) fields = look-any-Meets tokens 0 (suc fuel) 1 (λ got.
        Meets-if 0 (suc fuel) 1 (is_tok close_brace got)
          (λ h. close-Meets (suc fuel) close_brace fields tt)
          (λ h.
            Meets-bind 0 (suc fuel) 1 fuel 1 1 (omega arith) (omega arith)
              (name-Meets tokens (suc fuel))
              (λ key u.
                Meets-bind 0 fuel 1 fuel 1 1 (omega arith) (omega arith)
                  (expect-Meets tokens fuel equals)
                  (λ a v.
                    Meets-bind 0 fuel 1 fuel 1 1 (omega arith) (omega arith) (input_expr_meets fuel)
                      (λ e w. skip_semi-bind-Meets tokens fuel 1 (input_fields_meet fuel _))))))

    -- A round of the list takes fuel and no token, so the loop needs one fuel more.
    input_items_meet :
        (fuel : ℕ) → Meets (length tokens) 0 (fuel - 1) 0 (input_items tokens fuel) Any
    input_items_meet zero = Meets-exhausted 0
    input_items_meet (suc fuel) = look-any-Meets tokens 0 (suc fuel - 1) 0 (λ got.
        Meets-if 0 (suc fuel - 1) 0 (is_tok close_bracket got)
          (λ h.
            Meets-weaken 0 0 (suc fuel - 1) 1 0 (close-Meets (suc fuel - 1) close_bracket _ tt)
              (omega arith) (omega arith) (λ a w. w))
          (λ h.
            Meets-bind 0 (suc fuel - 1) 1 (fuel - 1) 0 0 (omega arith) (omega arith)
              (Meets-fuel fuel (suc fuel - 1) (omega arith) (input_expr_meets fuel))
              (λ e u.
                Meets-bind 0 (fuel - 1) 0 (fuel - 1) 0 0 (omega arith) (omega arith)
                  (skip-Meets tokens (fuel - 1) comma)
                  (λ more v.
                    Meets-if 0 (fuel - 1) 0 more
                      (λ g.
                        Meets-bind 0 (fuel - 1) 0 (fuel - 1) 0 0 (omega arith) (omega arith)
                          (input_items_meet fuel) (λ rest w. Meets-return (fuel - 1) _ tt))
                      (λ g.
                        Meets-weaken 0 0 (fuel - 1) 1 0 (close-Meets (fuel - 1) close_bracket _ tt)
                          (omega arith) (omega arith) (λ a w. w))))))

  pub input_expr-Meets : (fuel : ℕ) → Meets (length tokens) 0 fuel 1 (input_expr tokens fuel) Any
  input_expr-Meets = input_expr_meets
