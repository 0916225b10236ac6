-- ===== src/Host/Platform.antt =====
-- What the runner and its checks ask of code that is not the repository's: the files, the schema
-- validator, the inference backends. `World` is what a call of them may change.
use cuttlefish_vm.Base.{Text, ℕ, Bool, Option, List}
use cuttlefish_vm.Core.Lex.{Chars}
use cuttlefish_vm.Host.Serde.{SerdeJson}

-- A `Result` whose error is its text.
pub data Tried {ℓ} (A : Type ℓ) : Type ℓ where
  ok : A → Tried A
  err : Text → Tried A

pub record Platform (s : SerdeJson) : Type 1 where
  pub World : Type 0
  pub Backend : Type 0
  pub Validator : Type 0
  pub chars : Chars
  -- `{text:?}`
  pub debug : Text → Text
  pub read_to_string : Text → Tried Text
  -- `from_str(..)`'s error, `validator_for`, and `iter_errors` with each error's path before it.
  pub json_error : Text → Text
  pub validator_for : s.json.Value → Tried Validator
  pub iter_errors : Validator → s.json.Value → List Text
  -- `value.get(key).and_then(|v| v.as_bool())`
  pub get_bool : s.json.Value → Text → Option Bool
  pub infer : Backend → Text → ℕ → World → Tried Text × World
  -- The wall clock, as `now_rfc3339` prints it.
  pub now_marker : World → Text
  -- `fs::read`, `String::from_utf8` and `Sha256::digest`; bytes are a list of numbers.
  pub read : Text → World → Tried (List ℕ)
  pub from_utf8 : List ℕ → Tried Text
  pub sha256 : List ℕ → List ℕ
  -- `fs::create_dir_all` and `fs::write`: the error, if any.
  pub create_dir_all : Text → World → Option Text × World
  pub write : Text → Text → World → Option Text × World
  -- `cancel.is_cancelled()`, at the moment of the call.
  pub is_cancelled : World → Bool
  -- `Path::join`
  pub join_path : Text → Text → Text
