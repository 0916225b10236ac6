-- ===== src/Core/Spec/Tests.antt =====
-- A small spec parsed, and the theorems about the parser at it.
use cuttlefish_vm.Base.{
  leb, if◌then◌else◌, All, Text, codes, text_eq, starts_with, ◌+◌, ◌≡◌, refl, ◌≢◌, ◌↔◌, ◌&&◌, none,
  some, [], ◌∷◌, map,
}
use cuttlefish_vm.Core.Lex.{
  lex, step, bump, skip_to_end_of_line, read_string, read_word, read_punctuation, punctuation,
  unescape, lex_loop, read_arrow,
}
use cuttlefish_vm.Core.Lex.Tests.{ascii}
use cuttlefish_vm.Core.Parse.{parsed, out_of_fuel, ◌>>=◌, return, fail, ok_or, tok_eq}
use cuttlefish_vm.Core.Graph.{single, plain_node, schema}
use cuttlefish_vm.Core.Graph.Parser.{look, advance, expect, skip, skip_semi}
use cuttlefish_vm.Core.Spec.{
  Spec, any_policy, finish_spec, fail_back, name, string, model, capability, capabilities_loop,
  capabilities, policy, spec_field, spec_fields, spec, parse_spec,
}
use cuttlefish_vm.Core.Spec.Parsing.{IsCheckedSpec}
use cuttlefish_vm.Core.Spec.Accepted.{parse_spec-IsCheckedSpec, parse_spec_total}
use cuttlefish_vm.Core.Spec.Paths.{
  split_at_slashes, significant, parts_eq, candidate_starts_with, path_covers, manifest_error,
  schema_error, nodes_error, validate_host_read_paths,
}
use cuttlefish_vm.Core.Spec.Granted.{IsNodeIn, validate_host_read_paths_iff}

abbrev lower : Text → Text
lower s = map (λ c. if leb b'A' c && leb c b'Z' then c + 32 else c) s

abbrev source : Text
source =
    codes
      "spec s = { description = \"d\"; block = \"b\"; model = Stub \"m\"; data_policy = Any; capabilities = [ Read \"c\", Fetch \"http://h\" ]; }"

abbrev result : Spec
result = record {
  name = codes "s";
  description = codes "d";
  model = record { provider = codes "stub"; target = codes "m" };
  data_policy = any_policy;
  read_roots = codes "c" ∷ [];
  fetch_prefixes = codes "http://h" ∷ [];
  embedding_model = none;
  warehouse = none;
  nodes = single (codes "b");
  branches = record { decisions = [] };
}

source_parses : parse_spec ascii lower source ≡ parsed result 32
unfolding parse_spec lex lex_loop step bump skip_to_end_of_line read_string read_word
    read_punctuation punctuation unescape read_arrow ◌>>=◌ return fail ok_or tok_eq look advance
    expect skip skip_semi finish_spec fail_back name string model capability capabilities_loop
    capabilities policy spec_field spec_fields spec text_eq starts_with
source_parses = refl

parse_spec-IsCheckedSpec_example : IsCheckedSpec ascii lower result
parse_spec-IsCheckedSpec_example =
    parse_spec-IsCheckedSpec ascii lower source result 32 source_parses

parse_spec_total_example : parse_spec ascii lower source ≢ out_of_fuel
parse_spec_total_example = parse_spec_total ascii lower source

-- The grant spells its directory without the leading `./` of the manifest and the schema.
abbrev fanned : Spec
fanned = record result {
  nodes = record {
    nodes =
        (
          codes "n",
          record (plain_node (codes "b") none) {
            over = some (codes "./c/m.jsonl");
            accept = schema (codes "./c//s.json") ∷ [];
          },
        )
        ∷ [];
  };
}

validate_host_read_paths_iff_example :
    (validate_host_read_paths fanned ≡ none) ↔ All (IsNodeIn fanned.read_roots) fanned.nodes.nodes
validate_host_read_paths_iff_example = validate_host_read_paths_iff fanned

fanned_passes : validate_host_read_paths fanned ≡ none
unfolding validate_host_read_paths nodes_error schema_error manifest_error path_covers
    candidate_starts_with parts_eq significant split_at_slashes text_eq
fanned_passes = refl
