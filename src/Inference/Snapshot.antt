-- ===== src/Inference/Snapshot.antt =====
-- services/triton/repository_snapshot.py: the models of a repository as they are stored, but for a blank
-- name. `str.lower`, and `str` of what is no text, are parameters.
pub mod Stored
use triton_control.Prelude.{
  ℕ, suc, String, Bool, Option, none, some, strip, is_blank, or_empty, upper, List, [], ◌∷◌, ◌==◌,
  if◌then◌else◌,
}
use triton_control.Prelude.Sort.{pair_le, sorted}
use triton_control.Json.{Json, null, str, Fields, value}
use triton_control.Inference.Generate.{text_of}

pub record RepositoryModel : Type 0 where
  pub name : String
  pub version : Option String
  pub state : Option String
  pub reason : Option String

-- a name that is a text and not blank, stripped
unfoldable pub model_name : Json → Option String
unfolding is_blank strip
model_name (str s) = if is_blank s then none else some (strip s)
model_name _ = none

module _ (lowered : String → String) (shown : Json → String) where
  -- (item["name"].lower(), item.get("version", ""))
  abbrev pub key_of : RepositoryModel → String × String
  key_of m = (lowered m.name, or_empty m.version)

  abbrev pub model_le : (m n : RepositoryModel) → Bool
  model_le m n = pair_le (key_of m) (key_of n)

  -- str(value), where it is not `None`
  unfoldable pub shown_value : Json → Option String
  shown_value null = none
  shown_value v = some (text_of shown v)

  -- one round of the loop: the row is skipped without a name
  unfoldable pub normalize_row : Fields → Option RepositoryModel
  unfolding model_name shown_value
  normalize_row row = elim (model_name (value "name" row)) [
    | none ↦ none
    | some name ↦ some record {
      name = name;
      version = shown_value (value "version" row);
      state = shown_value (value "state" row);
      reason = shown_value (value "reason" row);
    }
  ]

  -- what the loop collects
  unfoldable pub normalized : List Fields → List RepositoryModel
  unfolding normalize_row
  normalized [] = []
  normalized (row ∷ rows) = elim (normalize_row row) [
    | none ↦ normalized rows
    | some m ↦ m ∷ normalized rows
  ]

  unfoldable pub normalize_repository_models : List Fields → List RepositoryModel
  unfolding normalized sorted
  normalize_repository_models rows = sorted model_le (normalized rows)

  unfoldable pub count_unavailable : List RepositoryModel → ℕ
  unfolding strip upper
  count_unavailable [] = 0
  count_unavailable (m ∷ models) =
      let rest = count_unavailable models in
      if upper (strip (or_empty m.state)) == "UNAVAILABLE" then suc rest else rest

  unfoldable pub unavailable_repository_model_count : List Fields → ℕ
  unfolding count_unavailable normalize_repository_models
  unavailable_repository_model_count rows = count_unavailable (normalize_repository_models rows)
