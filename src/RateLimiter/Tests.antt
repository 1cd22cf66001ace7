-- ===== src/RateLimiter/Tests.antt =====
-- Runs of RateLimiter (cowrie/src/cowrie/core/rate_limiter.py) on short series of requests.
use honeybee_potstore.Base.{ℕ, ◌≡◌, true, false, List, [], ◌∷◌, arith}
use honeybee_potstore.Base.Text.{Text, text_eq}
use honeybee_potstore.RateLimiter.Tracker.{new_limiter}
use honeybee_potstore.RateLimiter.Runs.{answers, check-expected}

abbrev host : Text
host = 104 ∷ []

abbrev series : List (Text × ℕ)
series = (host, 10) ∷ (host, 20) ∷ (host, 30) ∷ (host, 75) ∷ []

check-expected_example :
    answers series (new_limiter true 2 60 4 0) ≡ true ∷ true ∷ false ∷ true ∷ []
unfolding text_eq
check-expected_example =
    check-expected 2 60 4 0 series (omega arith, (omega arith, (omega arith, (omega arith, tt))))
      (omega arith)
