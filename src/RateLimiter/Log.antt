-- ===== src/RateLimiter/Log.antt =====
-- RateLimiter (cowrie/src/cowrie/core/rate_limiter.py) against its specification: a log of all the
-- requests that were allowed, of which the last `window_seconds` count.
use mathlib.Core.Path.{subst}
use honeybee_potstore.Base.{
  ℕ, ◌+◌, ◌≤◌, ◌≡◌, refl, ap, ◌∙◌, Bool, List, [], ◌∷◌, ◌++◌, arith, length, if◌then◌else◌, ltb,
  Bool-cases, inl, inr,
}
use honeybee_potstore.Base.Text.{Text}
use honeybee_potstore.Base.Dict.{text_keys, Keys, Keys-insert}
use honeybee_potstore.RateLimiter.Tracker.{RateLimiter, got, recent, due_cleanup, refresh}
use honeybee_potstore.RateLimiter.Table.{got-insert, got-cleanup_all, Keys-cleanup_all}

-- The times of the allowed requests, oldest first, for each destination.
abbrev pub Log : Type 0
Log = Text → List ℕ

abbrev pub logged : Text → ℕ → Log → Log
logged key now log j = if text_keys.beq key j then log j ++ now ∷ [] else log j

-- The specification: a request is allowed if fewer than the limit were allowed in the window.
abbrev pub allowed : ℕ → ℕ → Text → ℕ → Log → Bool
allowed max_requests window key now log = ltb (length (recent window now (log key))) max_requests

pub recent-recent :
    (window now t : ℕ) (ts : List ℕ)
    → now ≤ t
    → recent window t (recent window now ts) ≡ recent window t ts
recent-recent window now t [] h = refl
recent-recent window now t (x ∷ ts) h = ground (arith, recent-recent window now t ts h)

pub recent-append :
    (window t now : ℕ) (ts : List ℕ)
    → recent window t (ts ++ now ∷ []) ≡ recent window t ts ++ recent window t (now ∷ [])
recent-append window t now [] = refl
recent-append window t now (x ∷ ts) = ground (arith, recent-append window t now ts)

-- From the time `since` on, the table and the log agree on what counts.
pub record Agrees (s : RateLimiter) (log : Log) (since : ℕ) : Type 0 where
  pub keys : Keys s.request_tracker
  pub counts :
      (j : Text) (t : ℕ)
      → since ≤ t
      → recent s.window_seconds t (got j s.request_tracker) ≡ recent s.window_seconds t (log j)

pub due-Agrees :
    (now since : ℕ) (s : RateLimiter) (log : Log)
    → since ≤ now
    → Agrees s log since
    → Agrees (due_cleanup now s) log now
unfolding due_cleanup
due-Agrees now since s log h v = elim (Bool-cases (ltb (s.last_cleanup + s.window_seconds) now)) [
  | inl e ↦ simp e (record {
    keys = Keys-cleanup_all s.window_seconds now s.request_tracker v.keys;
    counts = λ j t late.
        ap (recent s.window_seconds t)
          (got-cleanup_all s.window_seconds now j s.request_tracker v.keys)
        ∙ recent-recent s.window_seconds now t (got j s.request_tracker) late
        ∙ v.counts j t (omega arith);
  })
  | inr e ↦ simp e (record { keys = v.keys; counts = λ j t late. v.counts j t (omega arith) })
]

-- Dropping what is old at `now` does not change what counts from then on.
refreshed-counts :
    (key : Text) (now : ℕ) (s : RateLimiter) (j : Text) (t : ℕ)
    → now ≤ t
    → recent s.window_seconds t (got j (refresh key now s).request_tracker)
      ≡ recent s.window_seconds t (got j s.request_tracker)
unfolding refresh
refreshed-counts key now s j t late = elim (Bool-cases (text_keys.beq key j)) [
  | inl e ↦
      ap (recent s.window_seconds t) (got-insert key j _ s.request_tracker)
      ∙ rw e (
          subst
            (λ (i : Text).
              recent s.window_seconds t (recent s.window_seconds now (got key s.request_tracker))
              ≡ recent s.window_seconds t (got i s.request_tracker))
            (text_keys.beq→eq key j e)
            (recent-recent s.window_seconds now t (got key s.request_tracker) late))
  | inr e ↦ ap (recent s.window_seconds t) (got-insert key j _ s.request_tracker) ∙ rw e refl
]

pub refresh-Agrees :
    (key : Text) (now : ℕ) (s : RateLimiter) (log : Log)
    → Agrees s log now
    → Agrees (refresh key now s) log now
unfolding refresh
refresh-Agrees key now s log v = record {
  keys = Keys-insert key _ s.request_tracker v.keys;
  counts = λ j t late. refreshed-counts key now s j t late ∙ v.counts j t late;
}
