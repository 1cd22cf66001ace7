-- ===== src/RateLimiter/Runs.antt =====
-- Runs of RateLimiter.check (cowrie/src/cowrie/core/rate_limiter.py) on a series of requests.
use mathlib.Core.Path.{subst}
use honeybee_potstore.Base.{
  ℕ, suc, ◌+◌, ◌≤◌, ◌≡◌, refl, sym, ap, ◌∙◌, Bool, true, List, [], ◌∷◌, arith, length,
  if◌then◌else◌,
}
use honeybee_potstore.Base.Text.{Text}
use honeybee_potstore.Base.Dict.{lookup}
use honeybee_potstore.RateLimiter.Tracker.{
  RateLimiter, new_limiter, got, recent, due_cleanup, refresh, limit_keys, decide, check,
}
use honeybee_potstore.RateLimiter.Size.{
  length-due_cleanup, length-refresh, refresh_present, limit_keys_id, length-decide,
}
use honeybee_potstore.RateLimiter.Log.{Log, allowed, Agrees, due-Agrees}
use honeybee_potstore.RateLimiter.Decision.{
  Fresh, step, refresh-Fresh, decide-answer, decide-Agrees, Settings, settings, settings-due,
  settings-refresh, settings-decide,
}

-- A limiter that is switched on and has room for the keys of `n` more requests.
pub record Ready (s : RateLimiter) (log : Log) (since n : ℕ) : Type 0 where
  pub on : s.enabled ≡ true
  pub room : length s.request_tracker + n ≤ s.max_keys
  pub agrees : Agrees s log since

-- The table just before the decision.
ready : Text → ℕ → RateLimiter → RateLimiter
ready key now s = refresh key now (due_cleanup now s)

settings-ready : (key : Text) (now : ℕ) (s : RateLimiter) → settings (ready key now s) ≡ settings s
unfolding ready
settings-ready key now s = settings-refresh key now (due_cleanup now s) ∙ settings-due now s

length-ready :
    (key : Text) (now : ℕ) (s : RateLimiter)
    → length (ready key now s).request_tracker ≤ suc (length s.request_tracker)
unfolding ready
length-ready key now s =
    omega (arith, length-refresh key now (due_cleanup now s), length-due_cleanup now s)

check-on :
    (key : Text) (now : ℕ) (s : RateLimiter)
    → s.enabled ≡ true
    → check key now s ≡ decide key now (limit_keys (refresh key now (due_cleanup now s)))
unfolding check
check-on key now s e =
    ap
      (λ b.
        if b then decide key now (limit_keys (refresh key now (due_cleanup now s))) else (true, s))
      e

check-decide :
    (key : Text) (now : ℕ) (s : RateLimiter) (log : Log) (since n : ℕ)
    → Ready s log since (suc n)
    → check key now s ≡ decide key now (ready key now s)
unfolding ready
check-decide key now s log since n r =
    let kept : (ready key now s).max_keys ≡ s.max_keys =
      ap (λ (x : Settings). x.3) (settings-ready key now s) in
    check-on key now s r.on
    ∙ ap (decide key now)
        (limit_keys_id (ready key now s) (omega (arith, length-ready key now s, r.room, kept)))

ready-Fresh :
    (key : Text) (now : ℕ) (s : RateLimiter) (log : Log) (since n : ℕ)
    → since ≤ now
    → Ready s log since n
    → Fresh key now (ready key now s) log
unfolding ready
ready-Fresh key now s log since n h r =
    refresh-Fresh key now (due_cleanup now s) log (due-Agrees now since s log h r.agrees)

check-settings :
    (key : Text) (now : ℕ) (s : RateLimiter) (log : Log) (since n : ℕ)
    → Ready s log since (suc n)
    → settings (check key now s).1 ≡ settings s
check-settings key now s log since n r =
    ap (λ (x : Bool × RateLimiter). settings x.1) (check-decide key now s log since n r)
    ∙ settings-decide key now (ready key now s)
    ∙ settings-ready key now s

-- One check gives the answer of the specification.
check-answer :
    (key : Text) (now : ℕ) (s : RateLimiter) (log : Log) (since n : ℕ)
    → since ≤ now
    → Ready s log since (suc n)
    → (check key now s).0 ≡ allowed s.max_requests s.window_seconds key now log
check-answer key now s log since n h r =
    ap (λ (x : Bool × RateLimiter). x.0) (check-decide key now s log since n r)
    ∙ decide-answer key now (ready key now s) log (ready-Fresh key now s log since (suc n) h r)
    ∙ ap (λ (x : Settings). allowed x.1 x.2 key now log) (settings-ready key now s)

-- After it the table and the log agree again, with room for one key less.
check-Ready :
    (key : Text) (now : ℕ) (s : RateLimiter) (log : Log) (since n : ℕ)
    → since ≤ now
    → Ready s log since (suc n)
    → Ready (check key now s).1 (step (check key now s).0 key now log) now n
unfolding ready
check-Ready key now s log since n h r =
    let same = check-settings key now s log since n r in
    let size : length (check key now s).1.request_tracker
        ≡ length (ready key now s).request_tracker =
      ap (λ (x : Bool × RateLimiter). length x.1.request_tracker)
        (check-decide key now s log since n r)
      ∙ length-decide key now (ready key now s) (refresh_present key now (due_cleanup now s)) in
    record {
      on = ap (λ (x : Settings). x.0) same ∙ r.on;
      room = omega (arith, size, length-ready key now s, r.room, ap (λ (x : Settings). x.3) same);
      agrees =
          subst (λ (x : Bool × RateLimiter). Agrees x.1 (step x.0 key now log) now)
            (sym (check-decide key now s log since n r))
            (decide-Agrees key now (ready key now s) log
              (ready-Fresh key now s log since (suc n) h r));
    }

-- The answers to a series of requests, each a destination and the time of its check.
abbrev pub answers : List (Text × ℕ) → RateLimiter → List Bool
answers [] s = []
answers ((key, now) ∷ rest) s = (check key now s).0 ∷ answers rest (check key now s).1

abbrev pub expected : ℕ → ℕ → List (Text × ℕ) → Log → List Bool
expected max_requests window [] log = []
expected max_requests window ((key, now) ∷ rest) log =
    let answer = allowed max_requests window key now log in
    answer ∷ expected max_requests window rest (step answer key now log)

-- The clock does not go back.
abbrev pub Ordered : ℕ → List (Text × ℕ) → Type 0
Ordered since [] = Unit
Ordered since ((key, now) ∷ rest) = (since ≤ now) × Ordered now rest

answers-expected :
    (events : List (Text × ℕ)) (s : RateLimiter) (log : Log) (since : ℕ)
    → Ordered since events
    → Ready s log since (length events)
    → answers events s ≡ expected s.max_requests s.window_seconds events log
answers-expected [] s log since o r = refl
answers-expected ((key, now) ∷ rest) s log since o r =
    let same = check-settings key now s log since (length rest) r in
    let answer = check-answer key now s log since (length rest) o.0 r in
    let next = check-Ready key now s log since (length rest) o.0 r in
    let later = answers-expected rest (check key now s).1 _ now o.1 next in
    subst
      (λ (b : Bool).
        answers ((key, now) ∷ rest) s
        ≡ b ∷ expected s.max_requests s.window_seconds rest (step b key now log))
      answer
      (ap (◌∷◌ (check key now s).0) (
        later
        ∙ ap (λ (x : Settings). expected x.1 x.2 rest (step (check key now s).0 key now log)) same))

got-empty : (j : Text) → got j [] ≡ []
unfolding got lookup
got-empty j = refl

-- A limiter that is switched on gives from its construction on the answers of the specification: a
-- request is allowed exactly if fewer than `max_requests` requests for its key were allowed less
-- than `window` seconds before, for any series of requests in the order of their times and not
-- more of them than the keys that the table may hold.
pub check-expected :
    (max_requests window max_keys start : ℕ) (events : List (Text × ℕ))
    → Ordered start events
    → length events ≤ max_keys
    → answers events (new_limiter true max_requests window max_keys start)
      ≡ expected max_requests window events (λ j. [])
unfolding new_limiter
check-expected max_requests window max_keys start events o fits =
    answers-expected events (new_limiter true max_requests window max_keys start) (λ j. []) start o
      (record {
        on = refl;
        room = omega (arith, fits);
        agrees = record { keys = tt; counts = λ j t late. ap (recent window t) (got-empty j) };
      })
