-- ===== src/RateLimiter/Decision.antt =====
-- RateLimiter.check (cowrie/src/cowrie/core/rate_limiter.py) gives the answers of the specification
-- in RateLimiter/Log, as long as the table has room for the keys.
use honeybee_potstore.Base.{
  ℕ, ◌≤◌, ◌≡◌, refl, sym, ap, ◌∙◌, Bool, [], ◌∷◌, ◌++◌, arith, length, if◌then◌else◌, leb,
  Bool-cases, inl, inr,
}
use honeybee_potstore.Base.Text.{Text}
use honeybee_potstore.Base.Dict.{Keys-insert, insert, text_keys}
use honeybee_potstore.RateLimiter.Tracker.{RateLimiter, got, recent, due_cleanup, refresh, decide}
use honeybee_potstore.RateLimiter.Table.{got-insert}
use honeybee_potstore.RateLimiter.Log.{Log, logged, allowed, recent-append, Agrees, refresh-Agrees}

-- The entry of the key holds what counts now, and nothing else.
pub record Fresh (key : Text) (now : ℕ) (s : RateLimiter) (log : Log) : Type 0 where
  pub agrees : Agrees s log now
  pub entry : got key s.request_tracker ≡ recent s.window_seconds now (log key)

pub refresh-Fresh :
    (key : Text) (now : ℕ) (s : RateLimiter) (log : Log)
    → Agrees s log now
    → Fresh key now (refresh key now s) log
unfolding refresh
refresh-Fresh key now s log v = record {
  agrees = refresh-Agrees key now s log v;
  entry =
      got-insert key key _ s.request_tracker
      ∙ rw (text_keys.beq_refl key) (v.counts key now (omega arith));
}

pub decide-answer :
    (key : Text) (now : ℕ) (s : RateLimiter) (log : Log)
    → Fresh key now s log
    → (decide key now s).0 ≡ allowed s.max_requests s.window_seconds key now log
unfolding decide
decide-answer key now s log v = ground (arith, ap length v.entry)

-- What the specification makes of the log, and the table with it.
abbrev pub step : Bool → Text → ℕ → Log → Log
step answer key now log = if answer then logged key now log else log

entered-counts :
    (key : Text) (now : ℕ) (s : RateLimiter) (log : Log)
    → Fresh key now s log
    → (j : Text) (t : ℕ) → now ≤ t
    → recent s.window_seconds t
        (got j (insert key (got key s.request_tracker ++ now ∷ []) s.request_tracker))
      ≡ recent s.window_seconds t (logged key now log j)
entered-counts key now s log v j t late =
    let ts = got key s.request_tracker in
    ap (recent s.window_seconds t) (got-insert key j (ts ++ now ∷ []) s.request_tracker)
    ∙ elim (Bool-cases (text_keys.beq key j)) [
      | inl e ↦ rw e (
          recent-append s.window_seconds t now ts
          ∙ ap (λ us. us ++ recent s.window_seconds t (now ∷ [])) (v.agrees.counts key t late)
          ∙ sym (recent-append s.window_seconds t now (log key))
          ∙ ap (λ (i : Text). recent s.window_seconds t (log i ++ now ∷ []))
              (text_keys.beq→eq key j e))
      | inr e ↦ rw e (v.agrees.counts j t late)
    ]

-- Writing an entry back changes nothing.
kept-counts :
    (key : Text) (s : RateLimiter) (j : Text)
    → got j (insert key (got key s.request_tracker) s.request_tracker) ≡ got j s.request_tracker
kept-counts key s j =
    got-insert key j (got key s.request_tracker) s.request_tracker
    ∙ elim (Bool-cases (text_keys.beq key j)) [
      | inl e ↦ rw e (ap (λ (i : Text). got i s.request_tracker) (text_keys.beq→eq key j e))
      | inr e ↦ rw e refl
    ]

entered :
    (key : Text) (now : ℕ) (s : RateLimiter) (log : Log)
    → Fresh key now s log
    → Agrees
        (record s {
          request_tracker = insert key (got key s.request_tracker ++ now ∷ []) s.request_tracker;
        })
        (logged key now log)
        now
entered key now s log v = record {
  keys = Keys-insert key _ s.request_tracker v.agrees.keys;
  counts = λ j t late. entered-counts key now s log v j t late;
}

pub decide-Agrees :
    (key : Text) (now : ℕ) (s : RateLimiter) (log : Log)
    → Fresh key now s log
    → Agrees (decide key now s).1 (step (decide key now s).0 key now log) now
unfolding decide
decide-Agrees key now s log v =
    elim (Bool-cases (leb s.max_requests (length (got key s.request_tracker)))) [
      | inl e ↦ rw e (record {
        keys = Keys-insert key _ s.request_tracker v.agrees.keys;
        counts = λ j t late.
            ap (recent s.window_seconds t) (kept-counts key s j) ∙ v.agrees.counts j t late;
      })
      | inr e ↦ rw e (entered key now s log v)
    ]

-- The settings that a check does not touch.
abbrev pub Settings : Type 0
Settings = Bool × ℕ × ℕ × ℕ

abbrev pub settings : RateLimiter → Settings
settings s = (s.enabled, s.max_requests, s.window_seconds, s.max_keys)

pub settings-due : (now : ℕ) (s : RateLimiter) → settings (due_cleanup now s) ≡ settings s
unfolding due_cleanup
settings-due now s = ground arith

pub settings-refresh :
    (key : Text) (now : ℕ) (s : RateLimiter) → settings (refresh key now s) ≡ settings s
unfolding refresh
settings-refresh key now s = refl

pub settings-decide :
    (key : Text) (now : ℕ) (s : RateLimiter) → settings (decide key now s).1 ≡ settings s
unfolding decide
settings-decide key now s = ground arith
