-- ===== src/Requests/Stable.antt =====
-- A property of the token table that four kinds of writes keep is kept by every single step of a
-- request.
use triton_control.Prelude.{ℕ, ◌≤◌, ◌≡◌, refl, String, Bool, false, Option, List, [], ◌∷◌, arith}
use triton_control.Env.{Env}
use triton_control.Store.Data.{World, UserEntity, AccountLifecycleTokenEntity, EmailConfigEntity}
use triton_control.Store.Users
use triton_control.Store.Tokens
use triton_control.Store.Tokens.{is_open}
use triton_control.Store.Session.{modify}
use triton_control.Store.Keeps.{Keeps, Keeps-modify, Keeps-bind, Keeps-maybe, keeps_rules}
use triton_control.Access.{Claims, require_admin}
use triton_control.Auth.Settings.{get_runtime_config, record_delivery_status}
use triton_control.Auth.Delivery.{RenderedMessage, exchange, send_smtp}
use triton_control.Auth.Password.{validate_password, hash_password}
use triton_control.Auth.Lifecycle.Core

-- The two worlds agree on tokens, and no random value was given back.
pub record IsSilent (w w' : World) : Type 0 where
  pub tokens : w'.tokens ≡ w.tokens
  pub next_token_id : w'.next_token_id ≡ w.next_token_id
  pub drawn : w.drawn ≤ w'.drawn

module _ ⦃env : Env⦄ where
  pub record IsStable (P : World → Type 0) : Type 0 where
    pub silent : (w w' : World) → IsSilent w w' → P w → P w'
    pub creates :
        (user_id : ℕ) (purpose : String) (m : ℕ) (by : Option ℕ)
        → Keeps P (Core.create_fresh user_id purpose m by)
    pub closes :
        (t : AccountLifecycleTokenEntity) → is_open t ≡ false → Keeps P (Tokens.save_token t)
    pub deletes : (u : UserEntity) → Keeps P (Users.delete u)

  module _ {P : World → Type 0} (stable : IsStable P) where
    Keeps-quiet : (f : World → World) → ((w : World) → IsSilent w (f w)) → Keeps P (modify f)
    Keeps-quiet f quiet = Keeps-modify f (λ w h. stable.silent w (f w) (quiet w) h)

    pub add_security_event-Keeps : (e : _) → Keeps P (Tokens.add_security_event e)
    unfolding Tokens.add_security_event
    add_security_event-Keeps e =
        Keeps-quiet _ (λ w. record { tokens = refl; next_token_id = refl; drawn = omega arith })

    pub audit-Keeps : (a b c d e : String) → Keeps P (Core.audit a b c d e)
    unfolding Core.audit
    audit-Keeps a b c d e = search (keeps_rules, add_security_event-Keeps)

    pub save-Keeps : (u : UserEntity) → Keeps P (Users.save u)
    unfolding Users.save
    save-Keeps u = record {
      at = λ w h.
          stable.silent w _ (record { tokens = refl; next_token_id = refl; drawn = omega arith }) h;
    }

    pub create-Keeps :
        (email name role provider : String) (hash subject : Option String) (names : List String)
        (active : Bool)
        → Keeps P (Users.create email name role provider hash subject names active)
    unfolding Users.create
    create-Keeps email name role provider hash subject names active =
        Keeps-bind _ _ (search keeps_rules) λ used. Keeps-bind _ _ (search keeps_rules) λ _.
          Keeps-bind _ _ (search keeps_rules) λ i. Keeps-bind _ _ (search keeps_rules) λ t.
            Keeps-bind _ _
              (Keeps-quiet _
                λ w. record { tokens = refl; next_token_id = refl; drawn = omega arith })
              λ _. search keeps_rules

    pub hash_password-Keeps : (s : String) → Keeps P (hash_password s)
    unfolding hash_password
    hash_password-Keeps s = Keeps-bind _ _ (search keeps_rules) λ n.
        Keeps-bind _ _
          (Keeps-quiet _ λ w. record { tokens = refl; next_token_id = refl; drawn = omega arith })
          λ _. search keeps_rules

    pub validate_password-Keeps : (s : String) → Keeps P (validate_password s)
    unfolding validate_password
    validate_password-Keeps s = search keeps_rules

    pub require_admin-Keeps : (claims : Claims) → Keeps P (require_admin claims)
    unfolding require_admin
    require_admin-Keeps claims = search keeps_rules

    pub increment_rate_bucket-Keeps :
        (key : String) (t : ℕ) → Keeps P (Tokens.increment_rate_bucket key t)
    unfolding Tokens.increment_rate_bucket
    increment_rate_bucket-Keeps key t = Keeps-bind _ _ (search keeps_rules) λ found.
        Keeps-maybe found _ _
          (Keeps-bind _ _
            (Keeps-quiet _ λ w. record { tokens = refl; next_token_id = refl; drawn = omega arith })
            λ _. search keeps_rules)
          λ b.
            Keeps-bind _ _
              (Keeps-quiet _
                λ w. record { tokens = refl; next_token_id = refl; drawn = omega arith })
              λ _. search keeps_rules

    pub get_runtime_config-Keeps : Keeps P get_runtime_config
    unfolding get_runtime_config Tokens.get_email_config
    get_runtime_config-Keeps = search keeps_rules

    pub save_email_config-Keeps : (c : EmailConfigEntity) → Keeps P (Tokens.save_email_config c)
    unfolding Tokens.save_email_config
    save_email_config-Keeps c =
        Keeps-quiet _ λ w. record { tokens = refl; next_token_id = refl; drawn = omega arith }

    pub record_delivery_status-Keeps : (a b : String) → Keeps P (record_delivery_status a b)
    unfolding record_delivery_status Tokens.get_email_config
    record_delivery_status-Keeps a b = search (keeps_rules, save_email_config-Keeps)

    pub exchange-Keeps : (to : String) (m : RenderedMessage) → Keeps P (exchange to m)
    unfolding exchange
    exchange-Keeps to m = Keeps-bind _ _ (search keeps_rules) λ n.
        Keeps-bind _ _
          (Keeps-quiet _ λ w. record { tokens = refl; next_token_id = refl; drawn = omega arith })
          λ _.
            Keeps-maybe (env.smtp_exchange n to) _ _
              (Keeps-quiet _
                λ w. record { tokens = refl; next_token_id = refl; drawn = omega arith })
              λ failure. search keeps_rules

    pub send_smtp-Keeps :
        (c : EmailConfigEntity) (to : String) (m : RenderedMessage) → Keeps P (send_smtp c to m)
    unfolding send_smtp
    send_smtp-Keeps c to m = search (keeps_rules, exchange-Keeps) depth 8

    pub revoke_each-Keeps :
        (now : ℕ) (ts : List AccountLifecycleTokenEntity) → Keeps P (Core.revoke_each now ts)
    unfolding Core.revoke_each
    revoke_each-Keeps now [] = search keeps_rules
    revoke_each-Keeps now (t ∷ ts) =
        Keeps-bind _ _ (stable.closes _ (ground arith)) λ _. revoke_each-Keeps now ts

    pub revoke-Keeps : (i : ℕ) (purpose : Option String) → Keeps P (Core.revoke i purpose)
    unfolding Core.revoke Tokens.list_active_tokens
    revoke-Keeps i purpose = search (keeps_rules, revoke_each-Keeps)
