-- ===== src/Auth/Password/Hashes.antt =====
-- A password is verified against its own hash, and against another's if the hashes agree.
use triton_control.Prelude.{
  ℕ, ◌≡◌, refl, ap, ◌∙◌, String, Bool, true, false, ◌||◌, List, has_char, split, push, beq, ◌^^◌,
  ◌==◌,
}
use triton_control.Prelude.Int.{int}
use Prim.Native.Char.{Char, code}
use Prim.Native.String.{[], ◌∷◌}
use text.Mathlib.TextLemmas.{nil-append, cons-append}
use triton_control.Env.{Env}
use triton_control.Auth.Password.{encode_hash, verify_password, verify_fields}

or_first : (a b : Bool) → (a || b) ≡ false → a ≡ false
or_first true b p = p
or_first false b p = refl

or_second : (a b : Bool) → (a || b) ≡ false → b ≡ false
or_second true b p = cc
or_second false b p = p

split-at :
    (sep : ℕ) (c : Char) (s : String)
    → beq (code c) sep ≡ true
    → split sep (c ∷ s) ≡ List.◌∷◌ [] (split sep s)
unfolding split
split-at sep c s p = rw (p) refl

split-within :
    (sep : ℕ) (c : Char) (s : String)
    → beq (code c) sep ≡ false
    → split sep (c ∷ s) ≡ push c (split sep s)
unfolding split
split-within sep c s p = rw (p) refl

split-none : (sep : ℕ) (s : String) → has_char sep s ≡ false → split sep s ≡ List.◌∷◌ s List.[]
unfolding split has_char push
split-none sep [] p = refl
split-none sep (c ∷ s) p =
    split-within sep c s (or_first _ (has_char sep s) p)
    ∙ ap (push c) (split-none sep s (or_second (beq (code c) sep) _ p))

split-joined :
    (sep : ℕ) (c : Char) (a s : String)
    → beq (code c) sep ≡ true
    → has_char sep a ≡ false
    → split sep (a ^^ (c ∷ s)) ≡ List.◌∷◌ a (split sep s)
unfolding has_char push
split-joined sep c [] s q p = ap (split sep) (nil-append (c ∷ s)) ∙ split-at sep c s q
split-joined sep c (d ∷ a) s q p =
    ap (split sep) (cons-append d a (c ∷ s))
    ∙ (split-within sep d (a ^^ (c ∷ s)) (or_first _ (has_char sep a) p)
        ∙ ap (push d) (split-joined sep c a s q (or_second (beq (code d) sep) _ p)))

-- a dollar separates
split-dollar :
    (a s : String)
    → has_char b'$' a ≡ false
    → split b'$' (a ^^ ("$" ^^ s)) ≡ List.◌∷◌ a (split b'$' s)
split-dollar a s p =
    ap (λ t. split b'$' (a ^^ t)) (cons-append _ "" s ∙ ap (λ t. "$" ∷ t) (nil-append s))
    ∙ split-joined b'$' "$" a s refl p

module _ ⦃env : Env⦄ where
  -- A password is verified against the encoded hash of another exactly if PBKDF2 makes the same hash
  -- of both, so that it is verified against its own, provided that neither the salt nor the hash
  -- has a dollar in it.
  pub verify_password-encode_hash :
      (password other salt : String)
      → has_char b'$' salt ≡ false
      → has_char b'$' (env.pbkdf2_sha256 other salt 120000) ≡ false
      → verify_password password (encode_hash other salt)
        ≡ (env.pbkdf2_sha256 password salt 120000 == env.pbkdf2_sha256 other salt 120000)
  unfolding verify_password encode_hash verify_fields has_char int
  verify_password-encode_hash password other salt p q =
      let hash = env.pbkdf2_sha256 other salt 120000 in
      ap (verify_fields password) (
        split-dollar "pbkdf2_sha256" ("120000" ^^ "$" ^^ salt ^^ "$" ^^ hash) refl
        ∙ ap (λ fs. List.◌∷◌ "pbkdf2_sha256" fs)
            (split-dollar "120000" (salt ^^ "$" ^^ hash) refl
              ∙ ap (λ fs. List.◌∷◌ "120000" fs)
                  (split-dollar salt hash p
                    ∙ ap (λ fs. List.◌∷◌ salt fs) (split-none b'$' hash q))))
