-- ===== src/Api/Rate/Isolation.antt =====
-- What one address sees of internal/api/ratelimit.go: a bucket of its own, which is never cleaned up.
use text.Mathlib.TextEquality.{eq_iff}
use vrclog_companion.Prelude.{
  ℕ, ◌+◌, ◌*◌, ◌≡◌, ◌≤◌, ◌<◌, refl, sym, ap, ◌∙◌, String, Bool, true, false, not, none, some, List,
  [], ◌∷◌, inl, inr, keep, find, find-put, IsKeyed, find-keep, keep-IsKeyed, put-IsKeyed, keep_if,
  ltb→lt, ltb, str_eq, arith, if◌then◌else◌, map, Bool-cases,
}
use vrclog_companion.Event.{Time}
use vrclog_companion.Api.Rate.{
  Bucket, VisitorLimiter, RateLimiter, Action, requests, ticks, stops, new_rate_limiter, limiter_of,
  allow, cleanup_old, step, run,
}

-- What is documented of a bucket: one that has not been asked for longer than it takes to fill answers
-- as a new one does, and goes on as it would.
pub record IsRefilling {ℓ} {B : Type ℓ} (bucket : Bucket B) (fill : ℕ) : Type ℓ where
  pub refills :
      (b : B) (t later : Time)
      → t + fill < later
      → bucket.allow later (bucket.allow t b).1 ≡ bucket.allow later bucket.new

abbrev pub time_of : Action → Time → Time
time_of (requests ip now) before = now
time_of (ticks now) before = now
time_of stops before = before

-- The clock does not go back.
abbrev pub IsOrdered : Time → List Action → Type 0
IsOrdered t [] = Unit
IsOrdered t (a ∷ actions) = (t ≤ time_of a t) × IsOrdered (time_of a t) actions

-- The times of the requests of one address, and its answers.
abbrev pub times_of : String → List Action → List Time
times_of ip [] = []
times_of ip (requests j now ∷ actions) =
    let rest = times_of ip actions in if str_eq j ip then now ∷ rest else rest
times_of ip (ticks now ∷ actions) = times_of ip actions
times_of ip (stops ∷ actions) = times_of ip actions

abbrev pub answers_of : String → List (String × Bool) → List Bool
answers_of ip l = map (λ p. p.1) (keep (λ p. str_eq p.0 ip) l)

-- One bucket, asked at each time.
abbrev pub bucket_answers {ℓ} : {B : Type ℓ} → Bucket B → B → List Time → List Bool
bucket_answers bucket b [] = []
bucket_answers bucket b (t ∷ times) =
    (bucket.allow t b).0 ∷ bucket_answers bucket (bucket.allow t b).1 times

module _ {ℓ} {B : Type ℓ} (bucket : Bucket B) (ip : String) where
  -- The bucket of the address would answer from now on as a new one.
  abbrev IsFresh : Time → B → Type ℓ
  IsFresh now b =
      (later : Time) → now ≤ later → bucket.allow later b ≡ bucket.allow later bucket.new

  -- The limiter has the bucket of the address, asked last when it was last seen, or has forgotten a
  -- fresh one.
  data IsTracked (now : Time) (b : B) (rl : RateLimiter B) : Type ℓ where
    kept :
        (v : VisitorLimiter B) (before : B)
        → find ip rl.limiters ≡ some v
        → v.limiter ≡ b
        → b ≡ (bucket.allow v.last_seen before).1
        → IsTracked now b rl
    forgotten : find ip rl.limiters ≡ none → IsFresh now b → IsTracked now b rl

  tracked_answer :
      (now : Time) (b : B) (rl : RateLimiter B)
      → IsTracked now b rl
      → bucket.allow now (limiter_of bucket (find ip rl.limiters)) ≡ bucket.allow now b
  tracked_answer now b rl (kept v before e l u) =
      ap (λ o. bucket.allow now (limiter_of bucket o)) e ∙ ap (bucket.allow now) l
  tracked_answer now b rl (forgotten e fresh) =
      ap (λ o. bucket.allow now (limiter_of bucket o)) e ∙ sym (fresh now (omega arith))

  -- What `Allow` writes for an address.
  abbrev seen : String → Time → RateLimiter B → VisitorLimiter B
  seen j now rl = record {
    limiter = (bucket.allow now (limiter_of bucket (find j rl.limiters))).1;
    last_seen = now;
  }

  -- A request of the address is answered by its bucket, and one of another leaves it alone.
  allow-own :
      (j : String) (now : Time) (b : B) (rl : RateLimiter B)
      → str_eq j ip ≡ true
      → IsTracked now b rl
      → ((allow bucket j now rl).0 ≡ (bucket.allow now b).0)
        × IsTracked now (bucket.allow now b).1 (allow bucket j now rl).1
  unfolding allow
  allow-own j now b rl own t =
      let here : find j rl.limiters ≡ find ip rl.limiters =
        ap (λ k. find k rl.limiters) ((eq_iff j ip).0 own) in
      let same : bucket.allow now (limiter_of bucket (find j rl.limiters)) ≡ bucket.allow now b =
        ap (λ o. bucket.allow now (limiter_of bucket o)) here ∙ tracked_answer now b rl t in
      (
        ap (λ p. p.0) same,
        kept (seen j now rl) b (find-put j ip (seen j now rl) rl.limiters ∙ ground (arith, own))
            (ap (λ p. p.1) same) refl,
      )

  allow-other :
      (j : String) (now later : Time) (b : B) (rl : RateLimiter B)
      → str_eq j ip ≡ false
      → now ≤ later
      → IsTracked now b rl
      → IsTracked later b (allow bucket j later rl).1
  unfolding allow
  allow-other j now later b rl n o (kept v before e l u) =
      kept v before (ground (arith, find-put j ip (seen j later rl) rl.limiters, n, e)) l u
  allow-other j now later b rl n o (forgotten e fresh) =
      forgotten (ground (arith, find-put j ip (seen j later rl) rl.limiters, n, e))
        (λ t h. fresh t (omega (arith, o, h)))

  cleanup_old-IsTracked :
      (now later fill : Time) (b : B) (rl : RateLimiter B)
      → IsRefilling bucket fill
      → fill ≤ rl.cleanup * 2
      → IsKeyed rl.limiters
      → now ≤ later
      → IsTracked now b rl
      → IsTracked later b (cleanup_old bucket later rl)
  unfolding cleanup_old
  cleanup_old-IsTracked now later fill b rl w c k o (kept v before e l u) =
      let test = λ (x : VisitorLimiter B). not (ltb (x.last_seen + rl.cleanup * 2) later) in
      let after = find-keep ip test rl.limiters k ∙ ap (keep_if test) e in
      elim (Bool-cases (ltb (v.last_seen + rl.cleanup * 2) later)) [
        | inr fresh ↦ kept v before (after ∙ ground (arith, fresh)) l u
        | inl old ↦ forgotten (after ∙ ground (arith, old)) (λ t h.
            ap (bucket.allow t) u
            ∙ w.refills before v.last_seen t
                (omega (arith, ltb→lt (v.last_seen + rl.cleanup * 2) later old, c, h)))
      ]
  cleanup_old-IsTracked now later fill b rl w c k o (forgotten e fresh) =
      let test = λ (x : VisitorLimiter B). not (ltb (x.last_seen + rl.cleanup * 2) later) in
      forgotten (find-keep ip test rl.limiters k ∙ ap (keep_if test) e)
        (λ t h. fresh t (omega (arith, o, h)))

  -- Time goes by, and the map is the same.
  waits-IsTracked :
      (now later : Time) (b : B) (rl rl' : RateLimiter B)
      → rl'.limiters ≡ rl.limiters
      → now ≤ later
      → IsTracked now b rl
      → IsTracked later b rl'
  waits-IsTracked now later b rl rl' q o (kept v before e l u) =
      kept v before (ap (find ip) q ∙ e) l u
  waits-IsTracked now later b rl rl' q o (forgotten e fresh) =
      forgotten (ap (find ip) q ∙ e) (λ t h. fresh t (omega (arith, o, h)))

  allow-IsKeyed :
      (j : String) (now : Time) (rl : RateLimiter B)
      → IsKeyed rl.limiters
      → IsKeyed (allow bucket j now rl).1.limiters
        × ((allow bucket j now rl).1.cleanup ≡ rl.cleanup)
  unfolding allow
  allow-IsKeyed j now rl k = (put-IsKeyed j (seen j now rl) rl.limiters k, refl)

  cleanup_old-IsKeyed :
      (now : Time) (rl : RateLimiter B)
      → IsKeyed rl.limiters
      → IsKeyed (cleanup_old bucket now rl).limiters
        × ((cleanup_old bucket now rl).cleanup ≡ rl.cleanup)
  unfolding cleanup_old
  cleanup_old-IsKeyed now rl k = (keep-IsKeyed _ rl.limiters k, refl)

  run-answers :
      (actions : List Action) (now fill : Time) (b : B) (rl : RateLimiter B)
      → IsRefilling bucket fill
      → fill ≤ rl.cleanup * 2
      → IsKeyed rl.limiters
      → IsOrdered now actions
      → IsTracked now b rl
      → answers_of ip (run bucket rl actions) ≡ bucket_answers bucket b (times_of ip actions)
  unfolding run step
  run-answers [] now fill b rl w c k o t = refl
  run-answers (requests j later ∷ actions) now fill b rl w c k o t =
      let (k', same) = allow-IsKeyed j later rl k in
      let c' : fill ≤ (allow bucket j later rl).1.cleanup * 2 = omega (arith, c, same) in
      elim (Bool-cases (str_eq j ip)) [
        | inl own ↦
            let t2 = waits-IsTracked now later b rl rl refl o.0 t in
            let (answer, t') = allow-own j later b rl own t2 in
            let rest =
              run-answers actions later fill (bucket.allow later b).1 (allow bucket j later rl).1 w
                c' k' o.1 t' in
            rw (own, answer) (ap (λ l. (bucket.allow later b).0 ∷ l) rest)
        | inr other ↦
            let rest =
              run-answers actions later fill b (allow bucket j later rl).1 w c' k' o.1
                (allow-other j now later b rl other o.0 t) in
            rw other rest
      ]
  run-answers (ticks later ∷ actions) now fill b rl w c k o t = elim (Bool-cases rl.is_done) [
    | inl done ↦ simp done (
        run-answers actions later fill b rl w c k o.1
          (waits-IsTracked now later b rl rl refl o.0 t))
    | inr live ↦
        let (k', same) = cleanup_old-IsKeyed later rl k in
        let c' : fill ≤ (cleanup_old bucket later rl).cleanup * 2 = omega (arith, c, same) in
        simp live (
          run-answers actions later fill b (cleanup_old bucket later rl) w c' k' o.1
            (cleanup_old-IsTracked now later fill b rl w c k o.0 t))
  ]
  run-answers (stops ∷ actions) now fill b rl w c k o t =
      run-answers actions now fill b (record rl { is_done = true }) w c k o.1
        (waits-IsTracked now now b rl _ refl o.0 t)

-- Whatever other addresses ask, and whenever old entries are removed, an address gets the answers of one
-- bucket of its own that is asked at the times of its requests; when the clock does not go back and
-- a bucket is full again after twice the interval of the cleanup.
pub run-bucket_answers {ℓ} :
    {B : Type ℓ} (bucket : Bucket B) (ip : String) (interval fill start : ℕ) (actions : List Action)
    → IsRefilling bucket fill
    → fill ≤ interval * 2
    → IsOrdered start actions
    → answers_of ip (run bucket (new_rate_limiter bucket interval) actions)
      ≡ bucket_answers bucket bucket.new (times_of ip actions)
run-bucket_answers bucket ip interval fill start actions w c o =
    run-answers bucket ip actions start fill bucket.new (new_rate_limiter bucket interval) w c tt o
      (forgotten refl (λ t h. refl))
