-- ===== src/RateLimiter/Size.antt =====
-- The number of keys that RateLimiter (cowrie/src/cowrie/core/rate_limiter.py) tracks.
use honeybee_potstore.Base.{
  ℕ, suc, ◌≤◌, ◌≡◌, refl, ap, true, List, [], ◌∷◌, arith, length, is_some, leb, Bool-cases, inl,
  inr,
}
use honeybee_potstore.Base.Text.{Text}
use honeybee_potstore.Base.Dict.{lookup, insert, erase, erase_all, text_keys, lookup-insert}
use honeybee_potstore.RateLimiter.Tracker.{
  Tracker, RateLimiter, recent, map_values, cleanup_all, due_cleanup, refresh, limit_keys, decide,
  got, empty_keys,
}

length-insert_le : (k : Text) (ts : List ℕ) (d : Tracker) → length (insert k ts d) ≤ suc (length d)
unfolding insert
length-insert_le k ts [] = omega arith
length-insert_le k ts ((j, us) ∷ d) = ground (arith, length-insert_le k ts d)

length-insert_present :
    (k : Text) (ts : List ℕ) (d : Tracker)
    → is_some (lookup k d) ≡ true
    → length (insert k ts d) ≡ length d
unfolding insert lookup
length-insert_present k ts [] h = cc
length-insert_present k ts ((j, us) ∷ d) h = ground (arith, length-insert_present k ts d)

length-erase : (k : Text) (d : Tracker) → length (erase k d) ≤ length d
unfolding erase
length-erase k [] = omega arith
length-erase k ((j, us) ∷ d) = ground (arith, length-erase k d)

length-erase_all : (ks : List Text) (d : Tracker) → length (erase_all ks d) ≤ length d
unfolding erase_all
length-erase_all [] d = omega arith
length-erase_all (k ∷ ks) d = omega (arith, length-erase_all ks (erase k d), length-erase k d)

length-map_values : (f : List ℕ → List ℕ) (d : Tracker) → length (map_values f d) ≡ length d
unfolding map_values
length-map_values f [] = refl
length-map_values f ((k, ts) ∷ d) = ap suc (length-map_values f d)

length-cleanup_all : (window now : ℕ) (d : Tracker) → length (cleanup_all window now d) ≤ length d
unfolding cleanup_all
length-cleanup_all window now d =
    let cleaned = map_values (recent window now) d in
    omega (
      arith,
      length-erase_all (empty_keys cleaned) cleaned,
      length-map_values (recent window now) d,
    )

pub length-due_cleanup :
    (now : ℕ) (s : RateLimiter)
    → length (due_cleanup now s).request_tracker ≤ length s.request_tracker
unfolding due_cleanup
length-due_cleanup now s = ground (arith, length-cleanup_all s.window_seconds now s.request_tracker)

pub length-refresh :
    (key : Text) (now : ℕ) (s : RateLimiter)
    → length (refresh key now s).request_tracker ≤ suc (length s.request_tracker)
unfolding refresh
length-refresh key now s = length-insert_le key _ s.request_tracker

pub refresh_present :
    (key : Text) (now : ℕ) (s : RateLimiter)
    → is_some (lookup key (refresh key now s).request_tracker) ≡ true
unfolding refresh
refresh_present key now s =
    rw (lookup-insert key key _ s.request_tracker, text_keys.beq_refl key) refl

-- With room for one more key, none is removed.
pub limit_keys_id : (s : RateLimiter) → length s.request_tracker ≤ s.max_keys → limit_keys s ≡ s
unfolding limit_keys
limit_keys_id s h = ground arith

pub length-decide :
    (key : Text) (now : ℕ) (s : RateLimiter)
    → is_some (lookup key s.request_tracker) ≡ true
    → length (decide key now s).1.request_tracker ≡ length s.request_tracker
unfolding decide
length-decide key now s h =
    elim (Bool-cases (leb s.max_requests (length (got key s.request_tracker)))) [
      | inl e ↦ rw e (length-insert_present key _ s.request_tracker h)
      | inr e ↦ rw e (length-insert_present key _ s.request_tracker h)
    ]
