-- ===== src/Core/Graph/Parser/Graphs.antt =====
-- The parsers of nodes, of the whole graph and of its branches.
use cuttlefish_vm.Base.{
  is_some, length, All, All-append, is_empty, Text, codes, text_eq, ℕ, zero, suc, ◌^◌, ◌<◌, ◌≡◌,
  false, not, ◌&&◌, Option, none, some, List, [], ◌∷◌, arith,
}
use cuttlefish_vm.Core.Lex.{Token, open_brace, close_brace, equals, arrow}
use cuttlefish_vm.Core.Parse.{Parse, ◌>>=◌, return, is_tok}
use cuttlefish_vm.Core.Parse.Meets.{
  Meets, Meets-weaken, Meets-exhausted, Meets-return, Meets-fail, Meets-ok_or, Meets-if, Meets-bind,
}
use cuttlefish_vm.Core.Graph.{Node, Nodes, NodeGraph}
use cuttlefish_vm.Core.Graph.Parser.{is_inside, string_or_field}
use cuttlefish_vm.Core.Graph.Parser.Bodies.{
  Draft, empty_draft, finish_node, node_field, node_fields, node_body, nodes_loop, node_graph,
  labels_loop, decisions_loop, branches,
}
use cuttlefish_vm.Core.Graph.Parser.Tokens.{
  Any, look-any-Meets, expect-Meets, name-Meets, string-Meets, number-Meets, skip_semi-bind-Meets,
}
use cuttlefish_vm.Core.Graph.Parser.Expr.{close-Meets, input_expr-Meets}
use cuttlefish_vm.Core.Graph.Parser.Checks.{IsLadder, then-Meets, accept_checks-Meets, ladder-Meets}

-- An iteration limit is a `u32`.
abbrev pub IsLimit : Option ℕ → Type 0
IsLimit none = Unit
IsLimit (some n) = n < 2 ^ 32

abbrev IsDraft : Draft → Type 0
IsDraft d = IsLadder d.on_fail × IsLimit d.max_iterations

-- What the parser makes sure of in a node: a `repeat_until` has its limit and stands beside no
-- `over`, and the ladder is one.
pub record IsChecked (node : Node) : Type 0 where
  pub repeat_bounded : (is_some node.repeat_until && not (is_some node.max_iterations)) ≡ false
  pub one_iteration : (is_some node.over && is_some node.repeat_until) ≡ false
  pub limit : IsLimit node.max_iterations
  pub rungs : IsLadder node.on_fail

abbrev pub AreChecked : Nodes → Type 0
AreChecked nodes = All (λ n. IsChecked n.1) nodes

-- What it makes sure of in a graph.
abbrev pub IsCheckedGraph : NodeGraph → Type 0
IsCheckedGraph graph = (is_empty graph.nodes ≡ false) × AreChecked graph.nodes

finish_node-Meets :
    {size : ℕ} (n : ℕ) (d : Draft) → IsDraft d → Meets size 0 n 0 (finish_node d) IsChecked
unfolding finish_node
finish_node-Meets n d good =
    Meets-if 0 n 0 (is_some d.repeat_until && not (is_some d.max_iterations))
      (λ h. Meets-fail 0 n 0 _)
      (λ h.
        Meets-if 0 n 0 (is_some d.over && is_some d.repeat_until) (λ g. Meets-fail 0 n 0 _)
          (λ g.
            Meets-bind 0 n 0 n 0 0 (omega arith) (omega arith)
              (Meets-ok_or {P = λ a. Unit} n _ d.block (λ b u. tt))
              (λ block u. Meets-return n _ (record {
                repeat_bounded = h;
                one_iteration = g;
                limit = good.1;
                rungs = good.0;
              }))))

module _ (to_lowercase : Text → Text) (tokens : List Token) where
  -- A value that is read into a draft.
  pub into-Meets :
      {A B : Type 0} {P : A → Type 0} {Q : B → Type 0} (n : ℕ) {p : Parse A} (f : A → B)
      → Meets (length tokens) 0 n 1 p P
      → ((a : A) → P a → Q (f a))
      → Meets (length tokens) 0 n 1 (p >>= λ a. return (f a)) Q
  into-Meets n f m w =
      Meets-bind 0 n 1 n 0 1 (omega arith) (omega arith) m (λ a h. Meets-return n (f a) (w a h))

  node_field-Meets :
      (fuel : ℕ) (key : Text) (d : Draft)
      → IsDraft d
      → Meets (length tokens) 0 fuel 1 (node_field to_lowercase tokens fuel key d) IsDraft
  unfolding node_field string_or_field
  node_field-Meets fuel key d good =
      Meets-if 0 fuel 1 (text_eq key (codes "block"))
        (λ h. into-Meets fuel _ (string-Meets tokens fuel) (λ s u. good))
        (λ h.
          Meets-if 0 fuel 1 (text_eq key (codes "in"))
            (λ h. into-Meets fuel _ (input_expr-Meets tokens fuel) (λ s u. good))
            (λ h.
              Meets-if 0 fuel 1 (text_eq key (codes "over"))
                (λ h. into-Meets fuel _ (string-Meets tokens fuel) (λ s u. good))
                (λ h.
                  Meets-if 0 fuel 1 (text_eq key (codes "accept"))
                    (λ h.
                      into-Meets fuel _ (accept_checks-Meets to_lowercase tokens fuel)
                        (λ s u. good))
                    (λ h.
                      Meets-if 0 fuel 1 (text_eq key (codes "on_fail"))
                        (λ h.
                          into-Meets fuel _ (ladder-Meets to_lowercase tokens fuel)
                            (λ rungs l. (l, good.1)))
                        (λ h.
                          Meets-if 0 fuel 1 (text_eq key (codes "repeat_until"))
                            (λ h. into-Meets fuel _ (string-Meets tokens fuel) (λ s u. good))
                            (λ h.
                              Meets-if 0 fuel 1 (text_eq key (codes "max_iterations"))
                                (λ h.
                                  into-Meets fuel _ (number-Meets tokens fuel) (λ k u. (good.0, u)))
                                (λ h. Meets-fail 0 fuel 1 _)))))))

  node_fields-Meets :
      (fuel : ℕ) (d : Draft)
      → IsDraft d
      → Meets (length tokens) 0 fuel 0 (node_fields to_lowercase tokens fuel d) IsChecked
  unfolding node_fields
  node_fields-Meets zero d good = Meets-exhausted 0
  node_fields-Meets (suc fuel) d good = look-any-Meets tokens 0 (suc fuel) 0 (λ got.
      Meets-if 0 (suc fuel) 0 (is_inside close_brace got)
        (λ h.
          Meets-bind 0 (suc fuel) 1 fuel 0 0 (omega arith) (omega arith)
            (name-Meets tokens (suc fuel))
            (λ key u.
              Meets-bind 0 fuel 1 fuel 0 0 (omega arith) (omega arith)
                (expect-Meets tokens fuel equals)
                (λ a v.
                  Meets-bind 0 fuel 1 fuel 0 0 (omega arith) (omega arith)
                    (node_field-Meets fuel key d good)
                    (λ d' good'.
                      skip_semi-bind-Meets tokens fuel 0 (node_fields-Meets fuel d' good')))))
        (λ h.
          Meets-bind 0 (suc fuel) 1 (suc fuel) 0 0 (omega arith) (omega arith)
            (expect-Meets tokens (suc fuel) close_brace)
            (λ a u. finish_node-Meets (suc fuel) d good)))

  node_body-Meets :
      (fuel : ℕ) → Meets (length tokens) 0 fuel 1 (node_body to_lowercase tokens fuel) IsChecked
  unfolding node_body
  node_body-Meets fuel =
      then-Meets to_lowercase tokens fuel 1 0 (expect-Meets tokens fuel open_brace)
        (λ a u. node_fields-Meets fuel empty_draft (tt, tt))

  nodes_loop-Meets :
      (fuel : ℕ) (nodes : Nodes)
      → AreChecked nodes
      → Meets (length tokens) 0 fuel 0 (nodes_loop to_lowercase tokens fuel nodes) IsCheckedGraph
  unfolding nodes_loop
  nodes_loop-Meets zero nodes good = Meets-exhausted 0
  nodes_loop-Meets (suc fuel) nodes good = look-any-Meets tokens 0 (suc fuel) 0 (λ got.
      Meets-if 0 (suc fuel) 0 (is_inside close_brace got)
        (λ h.
          Meets-bind 0 (suc fuel) 1 fuel 0 0 (omega arith) (omega arith)
            (name-Meets tokens (suc fuel))
            (λ key u.
              Meets-bind 0 fuel 1 fuel 0 0 (omega arith) (omega arith)
                (expect-Meets tokens fuel equals)
                (λ a v.
                  Meets-bind 0 fuel 1 fuel 0 0 (omega arith) (omega arith) (node_body-Meets fuel)
                    (λ node c. skip_semi-bind-Meets tokens fuel 0 (
                      nodes_loop-Meets fuel _
                        (All-append _ nodes ((key, node) ∷ []) good (c, tt)))))))
        (λ h.
          Meets-bind 0 (suc fuel) 1 (suc fuel) 0 0 (omega arith) (omega arith)
            (expect-Meets tokens (suc fuel) close_brace)
            (λ a u.
              Meets-if 0 (suc fuel) 0 (is_empty nodes) (λ g. Meets-fail 0 (suc fuel) 0 _)
                (λ g. Meets-return (suc fuel) _ (g, good)))))

  pub node_graph-Meets :
      (fuel : ℕ)
      → Meets (length tokens) 0 fuel 1 (node_graph to_lowercase tokens fuel) IsCheckedGraph
  unfolding node_graph
  node_graph-Meets fuel =
      then-Meets to_lowercase tokens fuel 1 0 (expect-Meets tokens fuel open_brace)
        (λ a u. nodes_loop-Meets fuel [] tt)

  labels_loop-Meets :
      (fuel : ℕ) (labels : List (Text × Text))
      → Meets (length tokens) 0 fuel 0 (labels_loop to_lowercase tokens fuel labels) Any
  unfolding labels_loop
  labels_loop-Meets zero labels = Meets-exhausted 0
  labels_loop-Meets (suc fuel) labels = look-any-Meets tokens 0 (suc fuel) 0 (λ got.
      Meets-if 0 (suc fuel) 0 (is_tok close_brace got)
        (λ h.
          Meets-weaken 0 0 (suc fuel) 1 0 (close-Meets tokens (suc fuel) close_brace labels tt)
            (omega arith) (omega arith) (λ a u. u))
        (λ h.
          Meets-bind 0 (suc fuel) 1 fuel 0 0 (omega arith) (omega arith)
            (string-Meets tokens (suc fuel))
            (λ label u.
              Meets-bind 0 fuel 1 fuel 0 0 (omega arith) (omega arith)
                (expect-Meets tokens fuel arrow)
                (λ a v.
                  Meets-bind 0 fuel 1 fuel 0 0 (omega arith) (omega arith) (name-Meets tokens fuel)
                    (λ target w. skip_semi-bind-Meets tokens fuel 0 (labels_loop-Meets fuel _))))))

  decisions_loop-Meets :
      (fuel : ℕ) (decisions : List (Text × List (Text × Text)))
      → Meets (length tokens) 0 fuel 0 (decisions_loop to_lowercase tokens fuel decisions) Any
  unfolding decisions_loop
  decisions_loop-Meets zero decisions = Meets-exhausted 0
  decisions_loop-Meets (suc fuel) decisions = look-any-Meets tokens 0 (suc fuel) 0 (λ got.
      Meets-if 0 (suc fuel) 0 (is_inside close_brace got)
        (λ h.
          Meets-bind 0 (suc fuel) 1 fuel 0 0 (omega arith) (omega arith)
            (name-Meets tokens (suc fuel))
            (λ node_name u.
              Meets-bind 0 fuel 0 fuel 0 0 (omega arith) (omega arith)
                (Meets-bind 0 fuel 1 fuel 1 0 (omega arith) (omega arith)
                  (expect-Meets tokens fuel equals) (λ a v. expect-Meets tokens fuel open_brace))
                (λ a v.
                  then-Meets to_lowercase tokens fuel 0 0 (labels_loop-Meets fuel []) (λ labels w.
                    skip_semi-bind-Meets tokens fuel 0 (decisions_loop-Meets fuel _)))))
        (λ h.
          Meets-weaken 0 0 (suc fuel) 1 0 (close-Meets tokens (suc fuel) close_brace _ tt)
            (omega arith) (omega arith) (λ a u. u)))

  pub branches-Meets :
      (fuel : ℕ) → Meets (length tokens) 0 fuel 1 (branches to_lowercase tokens fuel) Any
  unfolding branches
  branches-Meets fuel =
      then-Meets to_lowercase tokens fuel 1 0 (expect-Meets tokens fuel open_brace)
        (λ a u. decisions_loop-Meets fuel [])
