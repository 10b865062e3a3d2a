-- ===== src/Inference/Snapshot/Stored.antt =====
-- What a stored snapshot of a repository holds, and in which order.
use triton_control.Prelude.{
  ◌≡◌, ◌≢◌, ◌⊎◌, inl, inr, refl, sym, ap, ◌∙◌, String, true, Option, none, some, strip, is_blank,
  or_empty, List, [], ◌∷◌, ◌==◌, eq_iff, Bool-cases,
}
use triton_control.Prelude.Sort.{text_le, pair_le-total, Ascending, sorted-Ascending, sorted-Perm}
use triton_control.Json.{Json, null, bool, num, str, arr, obj, Fields, value}
use triton_control.Inference.Snapshot.{
  RepositoryModel, model_name, key_of, model_le, shown_value, normalize_row, normalized,
  normalize_repository_models,
}
use mathlib.Core.List.{Perm}

module _ (lowered : String → String) (shown : Json → String) where
  -- m may stand before n: by the name in lower case, and by the version for the same name
  abbrev pub Before : (m n : RepositoryModel) → Type 0
  Before m n =
      ((lowered m.name ≡ lowered n.name)
        × (text_le (or_empty m.version) (or_empty n.version) ≡ true))
      ⊎ ((lowered m.name ≢ lowered n.name) × (text_le (lowered m.name) (lowered n.name) ≡ true))

  abbrev pub InOrder : List RepositoryModel → Type 0
  InOrder [] = Unit
  InOrder (m ∷ []) = Unit
  InOrder (m ∷ n ∷ models) = Before m n × InOrder (n ∷ models)

  -- the text that is stored for a value
  abbrev pub Shows : Json → Option String → Type 0
  Shows null o = o ≡ none
  Shows (str s) o = o ≡ some s
  Shows (bool b) o = o ≡ some (shown (bool b))
  Shows (num n) o = o ≡ some (shown (num n))
  Shows (arr vs) o = o ≡ some (shown (arr vs))
  Shows (obj fs) o = o ≡ some (shown (obj fs))

  -- the name of a row is no text, or blank
  abbrev pub Nameless : Fields → Type 0
  Nameless row = (s : String) → value "name" row ≡ str s → strip s ≡ ""

  -- the model that a row stands for
  pub record Stored (row : Fields) (m : RepositoryModel) : Type 0 where
    pub text : String
    pub has_text : value "name" row ≡ str text
    pub not_blank : strip text ≢ ""
    pub name : m.name ≡ strip text
    pub version : Shows (value "version" row) m.version
    pub state : Shows (value "state" row) m.state
    pub reason : Shows (value "reason" row) m.reason

  -- one model for each row that has a name, in the order of the rows
  pub data Collected : List Fields → List RepositoryModel → Type 0 where
    nothing : Collected [] []
    skipped :
        {row : Fields} {rows : List Fields} {models : List RepositoryModel}
        → Nameless row
        → Collected rows models
        → Collected (row ∷ rows) models
    kept :
        {row : Fields} {m : RepositoryModel} {rows : List Fields} {models : List RepositoryModel}
        → Stored row m
        → Collected rows models
        → Collected (row ∷ rows) (m ∷ models)

  Shows-shown_value : (v : Json) → Shows v (shown_value lowered shown v)
  unfolding shown_value
  Shows-shown_value null = refl
  Shows-shown_value (str s) = refl
  Shows-shown_value (bool b) = refl
  Shows-shown_value (num n) = refl
  Shows-shown_value (arr vs) = refl
  Shows-shown_value (obj fs) = refl

  str-injective : (s t : String) → str s ≡ str t → s ≡ t
  str-injective s t p = ap text_in p
    where
      text_in : Json → String
      text_in (str u) = u
      text_in _ = s

  pair_le-Before : (m n : RepositoryModel) → model_le lowered shown m n ≡ true → Before m n
  pair_le-Before m n p = elim (Bool-cases (lowered m.name == lowered n.name)) [
    | inl q ↦ inl ((eq_iff _ _).0 q, rw (q) at p)
    | inr q ↦ inr (
      λ e. (let clash = sym ((eq_iff (lowered m.name) (lowered n.name)).1 e) ∙ q in cc),
      rw (q) at p,
    )
  ]

  Ascending-InOrder :
      (models : List RepositoryModel) → Ascending (model_le lowered shown) models → InOrder models
  unfolding Ascending
  Ascending-InOrder [] h = tt
  Ascending-InOrder (m ∷ []) h = tt
  Ascending-InOrder (m ∷ n ∷ models) h =
      (pair_le-Before m n h.0, Ascending-InOrder (n ∷ models) h.1)

  -- the name of a row, with what it says of the row
  abbrev Named : Json → Option String → Type 0
  Named v none = (s : String) → v ≡ str s → strip s ≡ ""
  Named v (some name) = (text : String) × (v ≡ str text) × (strip text ≢ "") × (name ≡ strip text)

  model_name-Named : (v : Json) → Named v (model_name v)
  unfolding model_name is_blank
  model_name-Named (str s) = elim (Bool-cases (strip s == "")) [
    | inl p ↦ rw (p) (λ t q. ap strip (sym (str-injective s t q)) ∙ (eq_iff (strip s) "").0 p)
    | inr p ↦ rw (p) (s, refl, (λ e. (let clash = sym ((eq_iff (strip s) "").1 e) ∙ p in cc)), refl)
  ]
  model_name-Named null = λ s p. cc
  model_name-Named (bool b) = λ s p. cc
  model_name-Named (num n) = λ s p. cc
  model_name-Named (arr vs) = λ s p. cc
  model_name-Named (obj fs) = λ s p. cc

  -- a row is skipped without a name, or stands for a model
  abbrev Row : Fields → Option RepositoryModel → Type 0
  Row row none = Nameless row
  Row row (some m) = Stored row m

  normalize_row-Row : (row : Fields) → Row row (normalize_row lowered shown row)
  unfolding normalize_row
  normalize_row-Row row =
      by_name (model_name (value "name" row)) (model_name-Named (value "name" row))
    where
      by_name :
          (o : Option String)
          → Named (value "name" row) o
          → Row row (elim o [
            | none ↦ none
            | some name ↦ some record {
              name = name;
              version = shown_value lowered shown (value "version" row);
              state = shown_value lowered shown (value "state" row);
              reason = shown_value lowered shown (value "reason" row);
            }
          ])
      by_name none h = h
      by_name (some name) h = record {
        text = h.0;
        has_text = h.1;
        not_blank = h.2;
        name = h.3;
        version = Shows-shown_value (value "version" row);
        state = Shows-shown_value (value "state" row);
        reason = Shows-shown_value (value "reason" row);
      }

  normalized-Collected : (rows : List Fields) → Collected rows (normalized lowered shown rows)
  unfolding normalized
  normalized-Collected [] = nothing
  normalized-Collected (row ∷ rows) =
      step (normalize_row lowered shown row) (normalize_row-Row row) (normalized-Collected rows)
    where
      step :
          (o : Option RepositoryModel)
          → Row row o
          → Collected rows (normalized lowered shown rows)
          → Collected (row ∷ rows) (elim o [
            | none ↦ normalized lowered shown rows
            | some m ↦ m ∷ normalized lowered shown rows
          ])
      step none h c = skipped h c
      step (some m) h c = kept h c

  -- The stored models are a rearrangement of one model for each row whose name is a text that is not
  -- blank, with the stripped name and the texts of the other values, in the order of the names in lower
  -- case and then of the versions.
  pub normalize_repository_models-Stored :
      (rows : List Fields)
      → (models : List RepositoryModel) × Collected rows models
        × Perm (normalize_repository_models lowered shown rows) models
        × InOrder (normalize_repository_models lowered shown rows)
  unfolding normalize_repository_models
  normalize_repository_models-Stored rows = (
    normalized lowered shown rows,
    normalized-Collected rows,
    sorted-Perm (model_le lowered shown) (normalized lowered shown rows),
    Ascending-InOrder _ (
        sorted-Ascending (model_le lowered shown)
          (λ m n. pair_le-total (key_of lowered shown m) (key_of lowered shown n))
          (normalized lowered shown rows)),
  )
