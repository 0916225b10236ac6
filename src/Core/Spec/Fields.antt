-- ===== src/Core/Spec/Fields.antt =====
-- The parsers of a spec's fields end and move on, and what they let pass.
use cuttlefish_vm.Base.{
  ◌==◌, and_true, or_true, length, All, All-append, Text, codes, text_eq, starts_with, ℕ, zero, suc,
  ◌≡◌, refl, ◌⊎◌, inl, inr, true, Option, none, some, List, [], ◌∷◌, ◌++◌, arith,
}
use cuttlefish_vm.Core.Lex.{Token, Chars, close_bracket, open_bracket, comma}
use cuttlefish_vm.Core.Parse.{Complaint, is_tok}
use cuttlefish_vm.Core.Parse.Meets.{
  Meets, Meets-weaken, Meets-exhausted, Meets-return, Meets-fail, Meets-if, Meets-bind,
  Meets-option,
}
use cuttlefish_vm.Core.Graph.{ModelRef}
use cuttlefish_vm.Core.Graph.Parser.{name_of, string_of}
use cuttlefish_vm.Core.Graph.Parser.Tokens.{
  Any, seen, look-bind-Meets, look-any-Meets, advance-same-Meets, expect-Meets, skip-Meets,
  is_some-name_of, is_some-string_of,
}
use cuttlefish_vm.Core.Graph.Parser.Expr.{close-Meets}
use cuttlefish_vm.Core.Graph.Parser.Checks.{then-Meets}
use cuttlefish_vm.Core.Spec.{
  fail_back, name, string, is_provider, model, is_url_prefix, capability, capabilities_loop,
  capabilities, policy,
}

abbrev IsUrl : Text → Type 0
IsUrl s =
    ((rest : Text) × (s ≡ codes "http://" ++ rest))
    ⊎ ((rest : Text) × (s ≡ codes "https://" ++ rest))

-- Every grant is of `http` or `https`.
abbrev pub AreUrls : List Text → Type 0
AreUrls prefixes = All IsUrl prefixes

starts_with-true :
    (prefix s : Text) → starts_with prefix s ≡ true → (rest : Text) × (s ≡ prefix ++ rest)
unfolding starts_with
starts_with-true [] s h = (s, refl)
starts_with-true (p ∷ ps) [] h = cc
starts_with-true (p ∷ ps) (c ∷ s) h =
    let (same, later) = and_true (p == c) (starts_with ps s) h in
    let (rest, e) = starts_with-true ps s later in
    let head : c ≡ p = ground arith in (rest, rw (head, e) refl)

IsUrl-is_url_prefix : (s : Text) → is_url_prefix s ≡ true → IsUrl s
IsUrl-is_url_prefix s h = elim (or_true _ _ h) [
  | inl a ↦ inl (starts_with-true (codes "http://") s a)
  | inr b ↦ inr (starts_with-true (codes "https://") s b)
]

-- The provider is a word of letters, digits and underscores in lower case.
abbrev pub IsModel : Chars → (Text → Text) → ModelRef → Type 0
IsModel u to_lowercase m =
    (word : Text) × (is_provider u word ≡ true) × (m.provider ≡ to_lowercase word)

module _ (u : Chars) (to_lowercase : Text → Text) (tokens : List Token) where
  fail_back-Meets :
      {A : Type 0} {P : A → Type 0} (h n k : ℕ) (complaint : Option Token → Complaint)
      (got : Option Token)
      → Meets (length tokens) h n k (fail_back u to_lowercase tokens {A = A} complaint got) P
  unfolding fail_back
  fail_back-Meets h n k complaint none = record { fits = λ at inside covered. tt }
  fail_back-Meets h n k complaint (some t) = record { fits = λ at inside covered. tt }

  pub spec_name-Meets : (n : ℕ) → Meets (length tokens) 0 n 1 (name u to_lowercase tokens) Any
  unfolding name
  spec_name-Meets n = look-bind-Meets tokens 0 n 1 (λ got.
      Meets-option (seen got) n 1 (name_of tokens got) (fail_back-Meets (seen got) n 1 _ got)
        (λ s h.
          advance-same-Meets tokens n 0 got (is_some-name_of tokens got s h) (Meets-return n s tt)))

  pub spec_string-Meets :
      (n : ℕ) (key : Text) → Meets (length tokens) 0 n 1 (string u to_lowercase tokens key) Any
  unfolding string
  spec_string-Meets n key = look-bind-Meets tokens 0 n 1 (λ got.
      Meets-option (seen got) n 1 (string_of tokens got) (fail_back-Meets (seen got) n 1 _ got)
        (λ s h.
          advance-same-Meets tokens n 0 got (is_some-string_of tokens got s h)
            (Meets-return n s tt)))

  pub model-Meets :
      (n : ℕ) → Meets (length tokens) 0 n 1 (model u to_lowercase tokens) (IsModel u to_lowercase)
  unfolding model
  model-Meets n = then-Meets to_lowercase tokens n 1 0 (spec_name-Meets n) (λ provider v.
      Meets-if 0 n 0 (is_provider u provider)
        (λ h.
          Meets-bind 0 n 1 n 0 0 (omega arith) (omega arith) (spec_string-Meets n _)
            (λ target w. Meets-return n _ (provider, h, refl)))
        (λ h. Meets-fail 0 n 0 _))

  capability-Meets :
      (n : ℕ) (kind : Text) (lists : List Text × List Text)
      → AreUrls lists.1
      → Meets (length tokens) 0 n 1 (capability u to_lowercase tokens kind lists) (λ l. AreUrls l.1)
  unfolding capability
  capability-Meets n kind (roots, fetch) good =
      Meets-if 0 n 1 (text_eq kind (codes "Read"))
        (λ h.
          then-Meets to_lowercase tokens n 1 0 (spec_string-Meets n _)
            (λ s v. Meets-return n _ good))
        (λ h.
          Meets-if 0 n 1 (text_eq kind (codes "Fetch"))
            (λ g. then-Meets to_lowercase tokens n 1 0 (spec_string-Meets n _) (λ prefix v.
              Meets-if 0 n 0 (is_url_prefix prefix)
                (λ f.
                  Meets-return n _
                    (All-append _ fetch (prefix ∷ []) good (IsUrl-is_url_prefix prefix f, tt)))
                (λ f. Meets-fail 0 n 0 _)))
            (λ g. Meets-fail 0 n 1 _))

  capabilities_loop-Meets :
      (fuel : ℕ) (lists : List Text × List Text)
      → AreUrls lists.1
      → Meets
          (length tokens)
          0
          fuel
          0
          (capabilities_loop u to_lowercase tokens fuel lists)
          (λ l. AreUrls l.1)
  unfolding capabilities_loop
  capabilities_loop-Meets zero lists good = Meets-exhausted 0
  capabilities_loop-Meets (suc fuel) lists good = look-any-Meets tokens 0 (suc fuel) 0 (λ got.
      Meets-if 0 (suc fuel) 0 (is_tok close_bracket got)
        (λ h.
          Meets-weaken 0 0 (suc fuel) 1 0 (close-Meets tokens (suc fuel) close_bracket lists good)
            (omega arith) (omega arith) (λ a v. v))
        (λ h.
          Meets-bind 0 (suc fuel) 1 fuel 0 0 (omega arith) (omega arith)
            (spec_name-Meets (suc fuel))
            (λ kind v.
              Meets-bind 0 fuel 1 fuel 0 0 (omega arith) (omega arith)
                (capability-Meets fuel kind lists good)
                (λ longer better.
                  then-Meets to_lowercase tokens fuel 0 0 (skip-Meets tokens fuel comma) (λ more w.
                    Meets-if 0 fuel 0 more (λ g. capabilities_loop-Meets fuel longer better)
                      (λ g.
                        Meets-weaken 0 0 fuel 1 0
                          (close-Meets tokens fuel close_bracket longer better) (omega arith)
                          (omega arith) (λ a x. x)))))))

  pub capabilities-Meets :
      (fuel : ℕ)
      → Meets (length tokens) 0 fuel 1 (capabilities u to_lowercase tokens fuel) (λ l. AreUrls l.1)
  unfolding capabilities
  capabilities-Meets fuel =
      then-Meets to_lowercase tokens fuel 1 0 (expect-Meets tokens fuel open_bracket)
        (λ a v. capabilities_loop-Meets fuel ([], []) tt)

  pub policy-Meets : (n : ℕ) → Meets (length tokens) 0 n 1 (policy u to_lowercase tokens) Any
  unfolding policy
  policy-Meets n = then-Meets to_lowercase tokens n 1 0 (spec_name-Meets n) (λ s v.
      Meets-if 0 n 0 (text_eq s (codes "Local_only")) (λ h. Meets-return n _ tt)
        (λ h.
          Meets-if 0 n 0 (text_eq s (codes "Any")) (λ g. Meets-return n _ tt)
            (λ g. Meets-fail 0 n 0 _)))
