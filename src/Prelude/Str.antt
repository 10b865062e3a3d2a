-- ===== src/Prelude/Str.antt =====
-- What the program uses of Python's `str`, on native strings. `lower` changes ASCII letters only;
-- white space is Unicode's.
use Prim.Native.Nat.{ℕ, zero, suc, ◌-◌}
use Prim.Native.Char.{Char, code}
use Prim.Native.String
use Prim.Native.String.{String, [], ◌∷◌}
use mathlib.Core.Path.{◌≡◌, refl}
use mathlib.Core.Bool.{Bool, true, false, ◌&&◌, ◌||◌, not}
use mathlib.Core.Option.{Option, none, some}
use mathlib.Core.List.{List}
use text.Mathlib.Text.{◌==◌}
use triton_control.Prelude.Tests.{leb, beq, if◌then◌else◌}

-- f-strings
infixr 65 ◌^^◌
abbrev pub ◌^^◌ : String → String → String
s ^^ t = String.◌++◌ s t

-- the letter of `tos` at the place where `c` stands in `froms`
translate : String → String → Char → Char
translate (f ∷ froms) (t ∷ tos) c = if beq (code f) (code c) then t else translate froms tos c
translate _ _ c = c

unfoldable pub lower_char : Char → Char
unfolding translate
lower_char = translate "ABCDEFGHIJKLMNOPQRSTUVWXYZ" "abcdefghijklmnopqrstuvwxyz"

unfoldable pub lower : String → String
unfolding lower_char
lower [] = []
lower (c ∷ s) = lower_char c ∷ lower s

unfoldable pub upper_char : Char → Char
unfolding translate
upper_char = translate "abcdefghijklmnopqrstuvwxyz" "ABCDEFGHIJKLMNOPQRSTUVWXYZ"

-- s.upper(), on ASCII letters
unfoldable pub upper : String → String
unfolding upper_char
upper [] = []
upper (c ∷ s) = upper_char c ∷ upper s

unfoldable pub is_space : ℕ → Bool
is_space n =
    (leb 9 n && leb n 13)
    || (leb 28 n && leb n 32)
    || beq n 133
    || beq n 160
    || beq n 5760
    || (leb 8192 n && leb n 8202)
    || beq n 8232
    || beq n 8233
    || beq n 8239
    || beq n 8287
    || beq n 12288

-- leading characters that pass the test are dropped
unfoldable pub lstrip_by : (ℕ → Bool) → String → String
lstrip_by p [] = []
lstrip_by p (c ∷ s) = let rest = lstrip_by p s in if p (code c) then rest else c ∷ s

-- trailing characters that pass the test are dropped
unfoldable pub rstrip_by : (ℕ → Bool) → String → String
rstrip_by p [] = []
rstrip_by p (c ∷ s) = let rest = rstrip_by p s in if p (code c) && rest == "" then [] else c ∷ rest

-- s.strip()
unfoldable pub strip : String → String
unfolding is_space lstrip_by rstrip_by
strip s = rstrip_by is_space (lstrip_by is_space s)

-- s.strip().lower()
unfoldable pub normal : String → String
unfolding strip lower
normal s = lower (strip s)

-- s.strip() is not ""
unfoldable pub is_blank : String → Bool
unfolding strip
is_blank s = strip s == ""

-- (s or "")
abbrev pub or_empty : Option String → String
or_empty none = ""
or_empty (some s) = s

-- bool(s), for a text that may be None
abbrev pub truthy : Option String → Bool
truthy none = false
truthy (some s) = not (s == "")

-- (s or None): an empty text is None
abbrev pub or_none : String → Option String
or_none s = if s == "" then none else some s

-- s.split(sep, 1)[0]
unfoldable pub before : ℕ → String → String
before sep [] = []
before sep (c ∷ s) = let rest = before sep s in if beq (code c) sep then [] else c ∷ rest

-- chr(sep) in s
unfoldable pub has_char : ℕ → String → Bool
has_char sep [] = false
has_char sep (c ∷ s) = beq (code c) sep || has_char sep s

-- len(s)
unfoldable pub size : String → ℕ
size [] = 0
size (c ∷ s) = suc (size s)

-- s[:n]
unfoldable pub take_chars : ℕ → String → String
take_chars n [] = []
take_chars zero (c ∷ s) = []
take_chars (suc n) (c ∷ s) = c ∷ take_chars n s

-- s.startswith(prefix)
unfoldable pub starts_with : (prefix s : String) → Bool
starts_with [] s = true
starts_with (p ∷ prefix) [] = false
starts_with (p ∷ prefix) (c ∷ s) = beq (code p) (code c) && starts_with prefix s

-- s.endswith(suffix)
unfoldable pub ends_with : (suffix s : String) → Bool
ends_with suffix [] = suffix == ""
ends_with suffix (c ∷ s) = (c ∷ s) == suffix || ends_with suffix s

-- part in s
unfoldable pub has_part : (part s : String) → Bool
unfolding starts_with
has_part part [] = part == ""
has_part part (c ∷ s) = starts_with part (c ∷ s) || has_part part s

-- `skip` characters of the text belong to an occurrence that was replaced
unfoldable pub replace_from : (part new : String) (skip : ℕ) → String → String
unfolding starts_with size
replace_from part new skip [] = []
replace_from part new (suc skip) (c ∷ s) = replace_from part new skip s
replace_from part new zero (c ∷ s) =
    let behind = replace_from part new (size part - 1) s in
    let rest = replace_from part new zero s in
    if starts_with part (c ∷ s) then new ^^ behind else c ∷ rest

-- s.replace(part, new), for a part that is not empty
abbrev pub replace : (part new s : String) → String
replace part new s = replace_from part new zero s

unfoldable pub push : Char → List String → List String
push c List.[] = List.◌∷◌ (c ∷ []) List.[]
push c (List.◌∷◌ t ts) = List.◌∷◌ (c ∷ t) ts

-- s.split(sep)
unfoldable pub split : ℕ → String → List String
unfolding push
split sep [] = List.◌∷◌ [] List.[]
split sep (c ∷ s) =
    let rest = split sep s in if beq (code c) sep then List.◌∷◌ [] rest else push c rest

-- value in {...}
unfoldable pub one_of : String → List String → Bool
one_of s List.[] = false
one_of s (List.◌∷◌ t ts) = s == t || one_of s ts

-- the words that the program reads as true
abbrev pub is_on : String → Bool
is_on s = let v = normal s in v == "1" || v == "true" || v == "yes" || v == "on"

normal-test : normal "  Admin " ≡ "admin"
unfolding normal
normal-test = refl

split-test : split b',' "a,,bc" ≡ List.◌∷◌ "a" (List.◌∷◌ "" (List.◌∷◌ "bc" List.[]))
unfolding split
split-test = refl

rstrip-test : rstrip_by (beq b'/') "http://x//" ≡ "http://x"
unfolding rstrip_by
rstrip-test = refl

replace-test : replace ":18000" ":18002/metrics" "http://a.b:18000" ≡ "http://a.b:18002/metrics"
unfolding replace_from
replace-test = refl
