-- ===== src/Workflows/Credentials.antt =====
-- services/workflows/credentials.py: the name of the Secret of a workflow's S3 credential. The suffix
-- is a draw of `secrets.token_hex(3)`.
pub mod Names
use triton_control.Prelude.{
  ℕ, String, Bool, true, false, lower, take_chars, lstrip_by, rstrip_by, beq, ◌^^◌, ◌==◌, code,
  if◌then◌else◌,
}
use Prim.Native.String.{[], ◌∷◌}
use triton_control.Workflows.Policy.{is_slug_char}

-- re.sub(r"[^a-z0-9-]+", "-", text); `skipping` is inside of a run that was replaced
unfoldable pub replace_runs : (skipping : Bool) → String → String
replace_runs skipping [] = []
replace_runs skipping (c ∷ s) =
    let inside = replace_runs true s in
    let outside = replace_runs false s in
    if is_slug_char (code c) then c ∷ outside else if skipping then inside else "-" ∷ inside

-- re.sub(r"-{2,}", "-", text); `skipping` is behind a dash
unfoldable pub collapse_dashes : (skipping : Bool) → String → String
collapse_dashes skipping [] = []
collapse_dashes skipping (c ∷ s) =
    let inside = collapse_dashes true s in
    let outside = collapse_dashes false s in
    if beq (code c) b'-' then (if skipping then inside else c ∷ inside) else c ∷ outside

-- text.strip("-")
abbrev pub strip_dashes : String → String
strip_dashes s = rstrip_by (beq b'-') (lstrip_by (beq b'-') s)

-- the slug of a name
unfoldable pub slug_of : String → String
unfolding replace_runs collapse_dashes take_chars lower lstrip_by rstrip_by
slug_of name =
    let slug =
      strip_dashes
        (take_chars 40 (collapse_dashes false (strip_dashes (replace_runs false (lower name))))) in
    if slug == "" then "credential" else slug

-- `_secret_name`
unfoldable pub secret_name : (suffix name : String) → String
unfolding slug_of
secret_name suffix name =
    rstrip_by (beq b'-') (take_chars 63 ("workflow-s3-" ^^ (slug_of name ^^ ("-" ^^ suffix))))
