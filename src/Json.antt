-- ===== src/Json.antt =====
-- JSON documents as Python holds them: what `json.loads` and `yaml.safe_load` answer for documents
-- whose keys are texts and whose numbers are integers.
pub mod Entries
use triton_control.Prelude.{
  String, Bool, true, false, not, ◌||◌, Option, none, some, ◌==◌, if◌then◌else◌,
}
use triton_control.Prelude.Int.{ℤ, pos, negsuc}
use Prim.Native.Nat.{zero, suc}

mutual
  pub data Json : Type 0 where
    null : Json
    bool : Bool → Json
    num : ℤ → Json
    str : String → Json
    arr : Items → Json
    obj : Fields → Json

  pub data Items : Type 0 where
    nil : Items
    cons : Json → Items → Items

  pub data Fields : Type 0 where
    end : Fields
    field : String → Json → Fields → Fields

-- d.get(key)
unfoldable pub get : String → Fields → Option Json
get key end = none
get key (field k v rest) = if k == key then some v else get key rest

-- key in d
abbrev pub has_key : String → Fields → Bool
has_key key fs = elim (get key fs) [ none ↦ false | some v ↦ true ]

-- d.get(key), where a missing key is `None`
abbrev pub value : String → Fields → Json
value key fs = elim (get key fs) [ none ↦ null | some v ↦ v ]

-- bool(v)
abbrev pub is_truthy : Json → Bool
is_truthy null = false
is_truthy (bool b) = b
is_truthy (num (pos zero)) = false
is_truthy (num (pos (suc n))) = true
is_truthy (num (negsuc n)) = true
is_truthy (str s) = not (s == "")
is_truthy (arr nil) = false
is_truthy (arr (cons v vs)) = true
is_truthy (obj end) = false
is_truthy (obj (field k v fs)) = true

-- v == text
abbrev pub is_text : String → Json → Bool
is_text s (str t) = t == s
is_text s _ = false

-- text in list
unfoldable pub has_text : String → Items → Bool
has_text s nil = false
has_text s (cons v vs) = is_text s v || has_text s vs
