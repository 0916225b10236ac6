-- ===== src/Core/Spec/Parsing.antt =====
-- The parser of a spec ends and moves on, and what it lets pass.
use cuttlefish_vm.Base.{
  length, Text, codes, text_eq, ℕ, zero, suc, ◌≡◌, refl, subst, Option, none, some, List, arith,
}
use cuttlefish_vm.Core.Lex.{Token, Chars, open_brace, close_brace, equals}
use cuttlefish_vm.Core.Parse.Meets.{
  Meets, Meets-exhausted, Meets-return, Meets-fail, Meets-ok_or, Meets-if, Meets-bind,
}
use cuttlefish_vm.Core.Graph.{single}
use cuttlefish_vm.Core.Graph.Parser.{is_inside}
use cuttlefish_vm.Core.Graph.Parser.Tokens.{Any, look-any-Meets, expect-Meets, skip_semi-bind-Meets}
use cuttlefish_vm.Core.Graph.Parser.Checks.{then-Meets}
use cuttlefish_vm.Core.Graph.Parser.Graphs.{
  IsCheckedGraph, node_graph-Meets, branches-Meets, into-Meets,
}
use cuttlefish_vm.Core.Spec.{
  Spec, SpecDraft, empty_spec, finish_spec, spec_field, spec_fields, spec,
}
use cuttlefish_vm.Core.Spec.Fields.{
  AreUrls, IsModel, spec_name-Meets, spec_string-Meets, model-Meets, capabilities-Meets,
  policy-Meets,
}

abbrev pub IfGiven : {A : Type 0} → (A → Type 0) → Option A → Type 0
IfGiven P none = Unit
IfGiven P (some a) = P a

-- What the parser makes sure of in a spec.
pub record IsCheckedSpec (u : Chars) (to_lowercase : Text → Text) (s : Spec) : Type 0 where
  pub graph : IsCheckedGraph s.nodes
  pub urls : AreUrls s.fetch_prefixes
  pub model : IsModel u to_lowercase s.model
  pub embedding : IfGiven (IsModel u to_lowercase) s.embedding_model

given : {A : Type 0} (P : A → Type 0) (o : Option A) (a : A) → IfGiven P o → o ≡ some a → P a
given P o a h e = subst (IfGiven P) e h

single-IsCheckedGraph : (block : Text) → IsCheckedGraph (single block)
unfolding single
single-IsCheckedGraph block =
    (refl, (record { repeat_bounded = refl; one_iteration = refl; limit = tt; rungs = tt }, tt))

module _ (u : Chars) (to_lowercase : Text → Text) where
  record IsSpecDraft (d : SpecDraft) : Type 0 where
    graph : IfGiven IsCheckedGraph d.nodes
    urls : AreUrls d.fetch_prefixes
    model : IfGiven (IsModel u to_lowercase) d.model
    embedding : IfGiven (IsModel u to_lowercase) d.embedding_model

  finish_spec-Meets :
      {size : ℕ} (n : ℕ) (title : Text) (d : SpecDraft)
      → IsSpecDraft d
      → Meets size 0 n 0 (finish_spec title d) (IsCheckedSpec u to_lowercase)
  unfolding finish_spec
  finish_spec-Meets n title d good =
      Meets-bind 0 n 0 n 0 0 (omega arith) (omega arith)
        (Meets-ok_or {P = Any} n _ d.read_roots (λ a v. tt))
        (λ roots v.
          Meets-bind 0 n 0 n 0 0 (omega arith) (omega arith)
            (Meets-ok_or n _ d.nodes (λ g e. given _ d.nodes g good.graph e))
            (λ nodes checked.
              Meets-bind 0 n 0 n 0 0 (omega arith) (omega arith)
                (Meets-ok_or {P = Any} n _ d.description (λ a w. tt))
                (λ description w.
                  Meets-bind 0 n 0 n 0 0 (omega arith) (omega arith)
                    (Meets-ok_or n _ d.model (λ m e. given _ d.model m good.model e))
                    (λ m word.
                      Meets-bind 0 n 0 n 0 0 (omega arith) (omega arith)
                        (Meets-ok_or {P = Any} n _ d.data_policy (λ a x. tt))
                        (λ p x. Meets-return n _ (record {
                          graph = checked;
                          urls = good.urls;
                          model = word;
                          embedding = good.embedding;
                        }))))))

  spec_field-Meets :
      (tokens : List Token) (fuel : ℕ) (key : Text) (d : SpecDraft)
      → IsSpecDraft d
      → Meets (length tokens) 0 fuel 1 (spec_field u to_lowercase tokens fuel key d) IsSpecDraft
  unfolding spec_field
  spec_field-Meets tokens fuel key d good =
      Meets-if 0 fuel 1 (text_eq key (codes "description"))
        (λ h.
          into-Meets to_lowercase tokens fuel _ (spec_string-Meets u to_lowercase tokens fuel _)
            (λ s v. record {
              graph = good.graph;
              urls = good.urls;
              model = good.model;
              embedding = good.embedding;
            }))
        (λ h.
          Meets-if 0 fuel 1 (text_eq key (codes "block"))
            (λ h.
              into-Meets to_lowercase tokens fuel _ (spec_string-Meets u to_lowercase tokens fuel _)
                (λ s v. record {
                  graph = single-IsCheckedGraph s;
                  urls = good.urls;
                  model = good.model;
                  embedding = good.embedding;
                }))
            (λ h.
              Meets-if 0 fuel 1 (text_eq key (codes "nodes"))
                (λ h.
                  into-Meets to_lowercase tokens fuel _ (node_graph-Meets to_lowercase tokens fuel)
                    (λ g c. record {
                      graph = c;
                      urls = good.urls;
                      model = good.model;
                      embedding = good.embedding;
                    }))
                (λ h.
                  Meets-if 0 fuel 1 (text_eq key (codes "branches"))
                    (λ h.
                      into-Meets to_lowercase tokens fuel _
                        (branches-Meets to_lowercase tokens fuel)
                        (λ b v. record {
                          graph = good.graph;
                          urls = good.urls;
                          model = good.model;
                          embedding = good.embedding;
                        }))
                    (λ h.
                      Meets-if 0 fuel 1 (text_eq key (codes "embedding_model"))
                        (λ h.
                          into-Meets to_lowercase tokens fuel _
                            (model-Meets u to_lowercase tokens fuel)
                            (λ m c. record {
                              graph = good.graph;
                              urls = good.urls;
                              model = good.model;
                              embedding = c;
                            }))
                        (λ h.
                          Meets-if 0 fuel 1 (text_eq key (codes "warehouse"))
                            (λ h.
                              into-Meets to_lowercase tokens fuel _
                                (spec_string-Meets u to_lowercase tokens fuel _)
                                (λ s v. record {
                                  graph = good.graph;
                                  urls = good.urls;
                                  model = good.model;
                                  embedding = good.embedding;
                                }))
                            (λ h.
                              Meets-if 0 fuel 1 (text_eq key (codes "capabilities"))
                                (λ h.
                                  into-Meets to_lowercase tokens fuel _
                                    (capabilities-Meets u to_lowercase tokens fuel)
                                    (λ l c. record {
                                      graph = good.graph;
                                      urls = c;
                                      model = good.model;
                                      embedding = good.embedding;
                                    }))
                                (λ h.
                                  Meets-if 0 fuel 1 (text_eq key (codes "model"))
                                    (λ h.
                                      into-Meets to_lowercase tokens fuel _
                                        (model-Meets u to_lowercase tokens fuel)
                                        (λ m c. record {
                                          graph = good.graph;
                                          urls = good.urls;
                                          model = c;
                                          embedding = good.embedding;
                                        }))
                                    (λ h.
                                      Meets-if 0 fuel 1 (text_eq key (codes "data_policy"))
                                        (λ h.
                                          into-Meets to_lowercase tokens fuel _
                                            (policy-Meets u to_lowercase tokens fuel)
                                            (λ p v. record {
                                              graph = good.graph;
                                              urls = good.urls;
                                              model = good.model;
                                              embedding = good.embedding;
                                            }))
                                        (λ h. Meets-fail 0 fuel 1 _)))))))))

  spec_fields-Meets :
      (tokens : List Token) (fuel : ℕ) (title : Text) (d : SpecDraft)
      → IsSpecDraft d
      → Meets
          (length tokens)
          0
          fuel
          0
          (spec_fields u to_lowercase tokens fuel title d)
          (IsCheckedSpec u to_lowercase)
  unfolding spec_fields
  spec_fields-Meets tokens zero title d good = Meets-exhausted 0
  spec_fields-Meets tokens (suc fuel) title d good = look-any-Meets tokens 0 (suc fuel) 0 (λ got.
      Meets-if 0 (suc fuel) 0 (is_inside close_brace got)
        (λ h.
          Meets-bind 0 (suc fuel) 1 fuel 0 0 (omega arith) (omega arith)
            (spec_name-Meets u to_lowercase tokens (suc fuel))
            (λ key v.
              Meets-bind 0 fuel 1 fuel 0 0 (omega arith) (omega arith)
                (expect-Meets tokens fuel equals)
                (λ a w.
                  Meets-bind 0 fuel 1 fuel 0 0 (omega arith) (omega arith)
                    (spec_field-Meets tokens fuel key d good)
                    (λ d' better.
                      skip_semi-bind-Meets tokens fuel 0
                        (spec_fields-Meets tokens fuel title d' better)))))
        (λ h.
          Meets-bind 0 (suc fuel) 1 (suc fuel) 0 0 (omega arith) (omega arith)
            (expect-Meets tokens (suc fuel) close_brace)
            (λ a v. finish_spec-Meets (suc fuel) title d good)))

  pub spec-Meets :
      (tokens : List Token) (fuel : ℕ)
      → Meets
          (length tokens)
          0
          fuel
          1
          (spec u to_lowercase tokens fuel)
          (IsCheckedSpec u to_lowercase)
  unfolding spec
  spec-Meets tokens fuel =
      then-Meets to_lowercase tokens fuel 1 0 (spec_name-Meets u to_lowercase tokens fuel)
        (λ first v.
          Meets-if 0 fuel 0 (text_eq first (codes "spec"))
            (λ h.
              Meets-bind 0 fuel 1 fuel 0 0 (omega arith) (omega arith)
                (spec_name-Meets u to_lowercase tokens fuel)
                (λ title w.
                  Meets-bind 0 fuel 0 fuel 0 0 (omega arith) (omega arith)
                    (Meets-bind 0 fuel 1 fuel 1 0 (omega arith) (omega arith)
                      (expect-Meets tokens fuel equals)
                      (λ a x. expect-Meets tokens fuel open_brace))
                    (λ a x.
                      spec_fields-Meets tokens fuel title empty_spec
                        (record { graph = tt; urls = tt; model = tt; embedding = tt }))))
            (λ h. Meets-fail 0 fuel 0 _))
