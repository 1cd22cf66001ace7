-- ===== src/WebTrap/Visits.antt =====
-- Every sequence of requests to the tracker (WebTrap/webtrap/session.py).
use honeybee_potstore.Base.{ℕ, ◌≤◌, ◌≡◌, List, [], ◌∷◌, ◌++◌, Option, length, All}
use honeybee_potstore.Base.Text.{Text}
use honeybee_potstore.Base.Dict.{Dict, text_keys}
use honeybee_potstore.WebTrap.Session.{Session, Tracker, new_tracker, Clock, touch}
use honeybee_potstore.WebTrap.Recent.{Visit, Recent, Logged}
use honeybee_potstore.WebTrap.Counts.{Counted, requests, Refs}

-- After the requests of the log, at the time `t`.
pub record IsGood (t : ℕ) (log : List Visit) (k : Tracker) : Type 0 where
  pub counted : All (Counted t) k.sessions
  pub all_requests : requests k.sessions ≡ length log
  pub kept_paths : Recent log k.sessions
  pub logged : Logged (length k.sessions) log
  pub cookies : Refs (length k.sessions) k.by_cookie
  pub ips : Refs (length k.sessions) k.by_ip

-- Requests one after the other, with a clock that does not run backwards. The log tells of each which
-- session `touch` gave for it, and its path.
pub data Visits : ℕ → List Visit → Tracker → Type 0 where
  start : {t : ℕ} → Visits t [] new_tracker
  visit :
      {t : ℕ} {log : List Visit} {k : Tracker} (c : Clock) (ip : Text) (cookie : Option Text)
      (fresh path method : Text)
      → Visits t log k
      → t ≤ c.gc_at
      → c.gc_at ≤ c.created_at
      → c.created_at ≤ c.recorded_at
      → Visits c.recorded_at
          (log ++ ((touch c ip cookie fresh path method k).0, path) ∷ [])
          (touch c ip cookie fresh path method k).1
