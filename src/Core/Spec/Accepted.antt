-- ===== src/Core/Spec/Accepted.antt =====
-- What an accepted spec is, and that the parser ends on every text.
use cuttlefish_vm.Base.{length, Text, ℕ, ◌+◌, ◌*◌, ◌≡◌, refl, subst, ◌≢◌, arith}
use cuttlefish_vm.Core.Lex.{Chars, Lexed, done, failed, lex}
use cuttlefish_vm.Core.Lex.Loop.{lex_total}
use cuttlefish_vm.Core.Parse.{Parsed, parsed, out_of_fuel}
use cuttlefish_vm.Core.Parse.Meets.{Fits}
use cuttlefish_vm.Core.Spec.{Spec, spec, parse_lexed, parse_spec}
use cuttlefish_vm.Core.Spec.Parsing.{IsCheckedSpec, spec-Meets}

-- A result that the fuel was enough for, whose spec is checked.
abbrev IsGood : Chars → (Text → Text) → Parsed Spec → Type 0
IsGood u low (parsed s next) = IsCheckedSpec u low s
IsGood u low (Parsed.failed e) = Unit
IsGood u low out_of_fuel = ⊥

IsGood-Fits :
    (u : Chars) (low : Text → Text) (size from : ℕ) (r : Parsed Spec)
    → Fits size from (IsCheckedSpec u low) r
    → IsGood u low r
IsGood-Fits u low size from (parsed s next) f = f.2
IsGood-Fits u low size from (Parsed.failed e) f = tt
IsGood-Fits u low size from out_of_fuel f = f

parse_lexed-IsGood :
    (u : Chars) (low : Text → Text) (l : Lexed)
    → l ≢ Lexed.out_of_fuel
    → IsGood u low (parse_lexed u low l)
parse_lexed-IsGood u low (done tokens) ends =
    IsGood-Fits u low (length tokens) 1 (spec u low tokens (length tokens * 2 + 1) 0)
      ((spec-Meets u low tokens (length tokens * 2 + 1)).fits 0 (omega arith) (omega arith))
parse_lexed-IsGood u low (failed e) ends = tt
parse_lexed-IsGood u low Lexed.out_of_fuel ends = ends refl

parse_spec-IsGood :
    (u : Chars) (low : Text → Text) (src : Text) → IsGood u low (parse_spec u low src)
unfolding parse_spec
parse_spec-IsGood u low src = parse_lexed-IsGood u low (lex u src) (lex_total u src)

-- In a spec that is accepted, the graph has a node and all nodes are checked (a bounded repeat, one
-- kind of iteration, a proper ladder), every fetch grant begins with `http://` or `https://`, and
-- the models have providers that are non-empty names in lower case.
pub parse_spec-IsCheckedSpec :
    (u : Chars) (low : Text → Text) (src : Text) (s : Spec) (next : ℕ)
    → parse_spec u low src ≡ parsed s next
    → IsCheckedSpec u low s
parse_spec-IsCheckedSpec u low src s next runs =
    subst (IsGood u low) runs (parse_spec-IsGood u low src)

-- `parse_spec` ends on every text, within the fuel that it is given.
pub parse_spec_total :
    (u : Chars) (low : Text → Text) (src : Text) → parse_spec u low src ≢ out_of_fuel
parse_spec_total u low src runs = subst (IsGood u low) runs (parse_spec-IsGood u low src)
