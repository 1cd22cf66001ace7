-- ===== src/RateLimiter/Tracker.antt =====
-- The class RateLimiter (cowrie/src/cowrie/core/rate_limiter.py), method by method.
use honeybee_potstore.Base.{
  ℕ, ◌+◌, ◌/◌, max, Bool, true, false, List, [], ◌∷◌, ◌++◌, Option, none, some, map, length, keep,
  take, ltb, leb, if◌then◌else◌, ◌==◌,
}
use honeybee_potstore.Base.Text.{Text}
use honeybee_potstore.Base.Dict.{Dict, lookup, insert, erase_all, text_keys}

abbrev pub Tracker : Type 0
Tracker = Dict Text (List ℕ)

pub record RateLimiter : Type 0 where
  pub enabled : Bool
  pub max_requests : ℕ
  pub window_seconds : ℕ
  pub max_keys : ℕ
  pub request_tracker : Tracker
  pub last_cleanup : ℕ

-- The constructor, at the time `now`.
unfoldable pub new_limiter : Bool → ℕ → ℕ → ℕ → ℕ → RateLimiter
new_limiter enabled max_requests window_seconds max_keys now = record {
  enabled = enabled;
  max_requests = max_requests;
  window_seconds = window_seconds;
  max_keys = max_keys;
  request_tracker = [];
  last_cleanup = now;
}

-- `self.request_tracker[key]` of a defaultdict, less that a read of a missing key enters it.
abbrev pub found : Option (List ℕ) → List ℕ
found none = []
found (some ts) = ts

unfoldable pub got : Text → Tracker → List ℕ
got key d = found (lookup key d)

-- `[ts for ts in … if current_time - ts < self.window_seconds]`
abbrev pub recent : ℕ → ℕ → List ℕ → List ℕ
recent window now = keep (λ ts. ltb now (ts + window))

unfoldable pub map_values : (List ℕ → List ℕ) → Tracker → Tracker
map_values f [] = []
map_values f ((k, ts) ∷ d) = (k, f ts) ∷ map_values f d

abbrev pub is_empty : List ℕ → Bool
is_empty [] = true
is_empty (t ∷ ts) = false

unfoldable pub empty_keys : Tracker → List Text
empty_keys [] = []
empty_keys ((k, ts) ∷ d) = if is_empty ts then k ∷ empty_keys d else empty_keys d

-- The first loop writes every entry, the second deletes those that became empty.
unfoldable pub cleanup_all : ℕ → ℕ → Tracker → Tracker
unfolding map_values empty_keys erase_all
cleanup_all window now d =
    let cleaned = map_values (recent window now) d in erase_all (empty_keys cleaned) cleaned

unfoldable pub latest : List ℕ → ℕ
latest [] = 0
latest (t ∷ ts) = max t (latest ts)

unfoldable pub activity : Tracker → List (Text × ℕ)
unfolding latest
activity [] = []
activity ((k, ts) ∷ d) = (k, latest ts) ∷ activity d

-- `sorted(…, key=lambda x: x[1])`, which is stable.
unfoldable pub insert_sorted : Text × ℕ → List (Text × ℕ) → List (Text × ℕ)
insert_sorted x [] = x ∷ []
insert_sorted x (y ∷ ys) = if leb x.1 y.1 then x ∷ y ∷ ys else y ∷ insert_sorted x ys

unfoldable pub sorted : List (Text × ℕ) → List (Text × ℕ)
unfolding insert_sorted
sorted [] = []
sorted (x ∷ xs) = insert_sorted x (sorted xs)

abbrev pub names : List (Text × ℕ) → List Text
names = map (λ x. x.0)

unfoldable pub remove_oldest_keys : Tracker → Tracker
unfolding activity sorted erase_all
remove_oldest_keys d =
    let sorted_keys = sorted (activity d) in
    let keys_to_remove = max 1 (length sorted_keys / 10) in
    if length d == 0 then d else erase_all (names (take keys_to_remove sorted_keys)) d

unfoldable pub due_cleanup : ℕ → RateLimiter → RateLimiter
unfolding cleanup_all
due_cleanup now s =
    if ltb (s.last_cleanup + s.window_seconds) now
    then record s {
      request_tracker = cleanup_all s.window_seconds now s.request_tracker;
      last_cleanup = now;
    }
    else s

-- The old requests of the key are dropped; the key has an entry from here on.
unfoldable pub refresh : Text → ℕ → RateLimiter → RateLimiter
unfolding got
refresh key now s = record s {
  request_tracker =
      insert key (recent s.window_seconds now (got key s.request_tracker)) s.request_tracker;
}

unfoldable pub limit_keys : RateLimiter → RateLimiter
unfolding remove_oldest_keys
limit_keys s =
    if ltb s.max_keys (length s.request_tracker)
    then record s { request_tracker = remove_oldest_keys s.request_tracker }
    else s

-- The read of the entry enters it, if the limit on the keys has removed it.
unfoldable pub decide : Text → ℕ → RateLimiter → Bool × RateLimiter
unfolding got
decide key now s =
    let ts = got key s.request_tracker in
    if leb s.max_requests (length ts)
    then (false, record s { request_tracker = insert key ts s.request_tracker })
    else (true, record s { request_tracker = insert key (ts ++ now ∷ []) s.request_tracker })

unfoldable pub check : Text → ℕ → RateLimiter → Bool × RateLimiter
check key now s =
    if s.enabled
    then decide key now (limit_keys (refresh key now (due_cleanup now s)))
    else (true, s)

unfoldable pub reset : ℕ → RateLimiter → RateLimiter
reset now s = record s { request_tracker = []; last_cleanup = now }
