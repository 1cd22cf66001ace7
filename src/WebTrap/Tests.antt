-- ===== src/WebTrap/Tests.antt =====
-- Tests and witnesses for WebTrap/webtrap/session.py.
use honeybee_potstore.Base.{ℕ, ◌≡◌, refl, Option, none, some}
use honeybee_potstore.Base.Text.{Text, codes, text_eq}
use honeybee_potstore.Base.Dict.{lookup, insert, erase_all, erase}
use honeybee_potstore.WebTrap.Session.{
  Tracker, new_tracker, Clock, touch, gc, stale, enter, new_session, record_request, count_up,
  push_recent,
}

abbrev at_time : ℕ → Clock
at_time t = record { gc_at = t; created_at = t; recorded_at = t }

abbrev get : ℕ → Text → Option Text → Tracker → ℕ × Tracker
get t ip cookie k = touch (at_time t) ip cookie (codes "f00d") (codes "/login") (codes "GET") k

abbrev once : Tracker
once = (get 5 (codes "10.0.0.1") none new_tracker).1

abbrev twice : Tracker
twice = (get 9 (codes "10.0.0.1") (some (codes "c1")) once).1

-- A cookie that comes with a known address is not entered: from another address it is a new session.
cookie_lost : (get 12 (codes "10.0.0.2") (some (codes "c1")) twice).0 ≡ 1
unfolding touch gc stale enter new_session record_request count_up push_recent lookup insert
    erase_all erase text_eq
cookie_lost = refl
