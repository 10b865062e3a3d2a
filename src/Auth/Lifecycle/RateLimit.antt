-- ===== src/Auth/Lifecycle/RateLimit.antt =====
-- How many requests for recovery pass within one hour.
use triton_control.Prelude.{
  ℕ, ◌+◌, ◌*◌, ◌≤◌, ◌≡◌, ◌⊎◌, refl, ap, subst, String, Bool, true, false, ◌&&◌, ◌||◌, Option, none,
  some, List, [], ◌∷◌, ◌++◌, find, update_where, ltb, arith, Bool-cases, inl, inr, ◌^^◌, eq_refl,
  beq_iff, if◌then◌else◌,
}
use triton_control.Errors.{Result, ok, err}
use triton_control.Env.{Env}
use triton_control.Store.Data.{World, RecoveryRateLimitEntity}
use triton_control.Store.Tokens.{is_bucket, bump, increment_rate_bucket}
use triton_control.Store.Session.{◌>>=◌, pure, modify, maybe, ◌>>◌}
use triton_control.Auth.Lifecycle.Core.{hour_of}
use triton_control.Auth.Lifecycle.Recovery.{rate_limit, rate_limited}

abbrev pub count_of : Option RecoveryRateLimitEntity → ℕ
count_of none = 0
count_of (some b) = b.request_count

-- the count of the first bucket for the key and the window
abbrev pub count_in : String → ℕ → List RecoveryRateLimitEntity → ℕ
count_in key window rows = count_of (find (is_bucket key window) rows)

abbrev fresh : String → ℕ → RecoveryRateLimitEntity
fresh key window = record { bucket_key = key; window_started_at = window; request_count = 1 }

-- the buckets after a request, with the bucket that was found
abbrev counted_in :
    String
    → ℕ
    → Option RecoveryRateLimitEntity
    → List RecoveryRateLimitEntity
    → List RecoveryRateLimitEntity
counted_in key window none rows = rows ++ fresh key window ∷ []
counted_in key window (some b) rows = update_where (is_bucket key window) bump rows

abbrev incremented : String → ℕ → List RecoveryRateLimitEntity → List RecoveryRateLimitEntity
incremented key window rows = counted_in key window (find (is_bucket key window) rows) rows

found-eq :
    (key : String) (window : ℕ) (w : World) (o : Option RecoveryRateLimitEntity)
    → maybe o
        (modify (λ v. record v { buckets = v.buckets ++ fresh key window ∷ [] }) >> pure 1)
        (λ b.
          modify (λ v. record v { buckets = update_where (is_bucket key window) bump v.buckets })
          >> pure (b.request_count + 1))
        w
      ≡ (ok (count_of o + 1), record w { buckets = counted_in key window o w.buckets })
unfolding ◌>>=◌
found-eq key window w none = refl
found-eq key window w (some b) = refl

increment-eq :
    (key : String) (window : ℕ) (w : World)
    → increment_rate_bucket key window w ≡ (
      ok (count_in key window w.buckets + 1),
      record w { buckets = incremented key window w.buckets },
    )
unfolding increment_rate_bucket ◌>>=◌
increment-eq key window w = found-eq key window w (find (is_bucket key window) w.buckets)

-- the first row that passes a test, in a table whose rows are bumped
find-bumped :
    (p q : RecoveryRateLimitEntity → Bool) (rows : List RecoveryRateLimitEntity)
    → ((b : RecoveryRateLimitEntity) → q (bump b) ≡ q b)
    → count_of (find q rows) ≤ count_of (find q (update_where p bump rows))
find-bumped p q [] h = omega arith
find-bumped p q (b ∷ rows) h = elim (Bool-cases (p b)) [
  | inl e ↦ elim (Bool-cases (q b)) [
    | inl f ↦ rw (e, h b, f) (omega arith)
    | inr f ↦ rw (e, h b, f) (find-bumped p q rows h)
  ]
  | inr e ↦ elim (Bool-cases (q b)) [
    | inl f ↦ rw (e, f) (omega arith)
    | inr f ↦ rw (e, f) (find-bumped p q rows h)
  ]
]

find-appended :
    (q : RecoveryRateLimitEntity → Bool) (rows : List RecoveryRateLimitEntity)
    (r : RecoveryRateLimitEntity)
    → count_of (find q rows) ≤ count_of (find q (rows ++ r ∷ []))
find-appended q [] r = omega arith
find-appended q (b ∷ rows) r = elim (Bool-cases (q b)) [
  | inl f ↦ rw (f) (omega arith)
  | inr f ↦ rw (f) (find-appended q rows r)
]

-- a request does not make a count smaller
increment-grows :
    (key other : String) (window : ℕ) (rows : List RecoveryRateLimitEntity)
    → count_in other window rows ≤ count_in other window (incremented key window rows)
increment-grows key other window rows = grown (find (is_bucket key window) rows)
  where
    grown :
        (o : Option RecoveryRateLimitEntity)
        → count_in other window rows ≤ count_in other window (counted_in key window o rows)
    grown none = find-appended (is_bucket other window) rows (fresh key window)
    grown (some b) = find-bumped (is_bucket key window) (is_bucket other window) rows (λ c. refl)

abbrev bumped : Option RecoveryRateLimitEntity → Option RecoveryRateLimitEntity
bumped none = none
bumped (some b) = some (bump b)

both : {a b : Bool} → a ≡ true → b ≡ true → (a && b) ≡ true
both p q = rw (p, q) refl

-- the bucket that was found, bumped
find-bump :
    (q : RecoveryRateLimitEntity → Bool) (rows : List RecoveryRateLimitEntity)
    (b : RecoveryRateLimitEntity)
    → ((c : RecoveryRateLimitEntity) → q (bump c) ≡ q c)
    → find q rows ≡ some b
    → find q (update_where q bump rows) ≡ some (bump b)
find-bump q [] b h p = cc
find-bump q (c ∷ rows) b h p = elim (Bool-cases (q c)) [
  | inl f ↦ let same = rw (f) at p in rw (f, h c, f) (ap (λ o. bumped o) same)
  | inr f ↦ let later = rw (f) at p in rw (f, f) (find-bump q rows b h later)
]

find-last :
    (q : RecoveryRateLimitEntity → Bool) (rows : List RecoveryRateLimitEntity)
    (r : RecoveryRateLimitEntity)
    → find q rows ≡ none
    → q r ≡ true
    → find q (rows ++ r ∷ []) ≡ some r
find-last q [] r p t = rw (t) refl
find-last q (c ∷ rows) r p t = elim (Bool-cases (q c)) [
  | inl f ↦ let absurd = rw (f) at p in cc
  | inr f ↦ let later = rw (f) at p in rw (f) (find-last q rows r later t)
]

-- and makes that of its own key greater by one
increment-counts :
    (key : String) (window : ℕ) (rows : List RecoveryRateLimitEntity)
    → count_in key window (incremented key window rows) ≡ count_in key window rows + 1
increment-counts key window rows = grown (find (is_bucket key window) rows) refl
  where
    grown :
        (o : Option RecoveryRateLimitEntity)
        → find (is_bucket key window) rows ≡ o
        → count_in key window (counted_in key window o rows) ≡ count_of o + 1
    grown none p = ap count_of (
        find-last (is_bucket key window) rows (fresh key window) p
          (both (eq_refl key) ((beq_iff window window).1 refl)))
    grown (some b) p = ap count_of (find-bump (is_bucket key window) rows b (λ c. refl) p)

not_over : (limit n : ℕ) (x : Bool) → (ltb limit n || x) ≡ false → n ≤ limit
not_over limit n x p = ground arith

-- one request before others whose number fits
one_more :
    (limit count grown next rest : ℕ) (x : Bool)
    → grown ≡ count + 1
    → grown ≤ next
    → (rest ≡ 0) ⊎ (rest + next ≤ limit)
    → ((if ltb limit (count + 1) || x then 0 else 1) + rest ≡ 0)
      ⊎ ((if ltb limit (count + 1) || x then 0 else 1) + rest + count ≤ limit)
one_more limit count grown next rest x p q h = elim (Bool-cases (ltb limit (count + 1) || x)) [
  | inl t ↦ rw (t) (elim h [ inl e ↦ inl (omega arith) | inr e ↦ inr (omega arith) ])
  | inr f ↦
      let fits = not_over limit (count + 1) x f in
      rw (f) (elim h [ inl e ↦ inr (omega arith) | inr e ↦ inr (omega arith) ])
]

within : (n m limit : ℕ) → (n ≡ 0) ⊎ (n + m ≤ limit) → n ≤ limit
within n m limit (inl p) = omega arith
within n m limit (inr p) = omega arith

module _ ⦃env : Env⦄ where
  abbrev pub email_key : String → String
  email_key email = "email:" ^^ env.sha256 email

  -- whether a request passed, and the world after it
  abbrev passes : Result Bool × World → ℕ
  passes (ok throttled, w) = if throttled then 0 else 1
  passes (err e, w) = 0

  -- how many of the requests for an e-mail address are not throttled, each from a client at a time
  unfoldable pub passed : (email : String) → List (String × ℕ) → World → ℕ
  passed email [] w = 0
  passed email ((client, now) ∷ requests) w =
      let answer = rate_limited email client (record w { now = now }) in
      passes answer + passed email requests answer.1

  -- the requests are of the hour
  abbrev pub AllIn : ℕ → List (String × ℕ) → Type 0
  AllIn window [] = Unit
  AllIn window ((client, now) ∷ requests) = (hour_of now ≡ window) × AllIn window requests

  -- the answer of `_rate_limited` in a window
  abbrev answer_at :
      (email client : String) (limit : ℕ) → World → (now window : ℕ) → Result Bool × World
  answer_at email client limit w now window = (
    ok (
        ltb limit (count_in (email_key email) window w.buckets + 1)
        || ltb (limit * 5) (
            count_in ("client:" ^^ env.sha256 client) window
              (incremented (email_key email) window w.buckets)
            + 1)),
    record w {
      now = now;
      buckets =
          incremented ("client:" ^^ env.sha256 client) window
            (incremented (email_key email) window w.buckets);
    },
  )

  rate_limited-eq :
      (email client : String) (limit : ℕ) (w : World)
      → rate_limit ≡ ok limit
      → rate_limited email client w ≡ (
        ok (
            ltb limit (count_in (email_key email) (hour_of w.now) w.buckets + 1)
            || ltb (limit * 5) (
                count_in
                  ("client:" ^^ env.sha256 client)
                  (hour_of w.now)
                  (incremented (email_key email) (hour_of w.now) w.buckets)
                + 1)),
        record w {
          buckets =
              incremented
                ("client:" ^^ env.sha256 client)
                (hour_of w.now)
                (incremented (email_key email) (hour_of w.now) w.buckets);
        },
      )
  unfolding rate_limited ◌>>=◌
  rate_limited-eq email client limit w p =
      rw
        (
          p,
          increment-eq (email_key email) (hour_of w.now) w,
          increment-eq ("client:" ^^ env.sha256 client) (hour_of w.now)
              (record w { buckets = incremented (email_key email) (hour_of w.now) w.buckets }),
        )
        refl

  -- the requests that pass fit into what is left of the limit
  quota :
      (email : String) (window limit : ℕ) (requests : List (String × ℕ)) (w : World)
      → rate_limit ≡ ok limit
      → AllIn window requests
      → (passed email requests w ≡ 0)
        ⊎ (passed email requests w + count_in (email_key email) window w.buckets ≤ limit)
  unfolding passed
  quota email window limit [] w p h = inl refl
  quota email window limit ((client, now) ∷ requests) w p h =
      let counts = increment-counts (email_key email) window w.buckets in
      let grows =
        increment-grows ("client:" ^^ env.sha256 client) (email_key email) window
          (incremented (email_key email) window w.buckets) in
      let step =
        subst
          (λ t.
            rate_limited email client (record w { now = now })
            ≡ answer_at email client limit w now t)
          h.0 (rate_limited-eq email client limit (record w { now = now }) p) in
      rw (step) (
        one_more limit (count_in (email_key email) window w.buckets) _ _ _ _ counts grows
          (quota email window limit requests _ p h.1))

  -- In one hour no more requests for an e-mail address pass than the limit says, from whatever
  -- clients.
  pub passed-Bounded :
      (email : String) (window limit : ℕ) (requests : List (String × ℕ)) (w : World)
      → rate_limit ≡ ok limit
      → AllIn window requests
      → passed email requests w ≤ limit
  passed-Bounded email window limit requests w p h =
      within _ _ _ (quota email window limit requests w p h)
