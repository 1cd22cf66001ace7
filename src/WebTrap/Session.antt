-- ===== src/WebTrap/Session.antt =====
-- SessionTracker and _Session (WebTrap/webtrap/session.py). A session is an object that both tables may refer to,
-- so that the sessions are a store and the tables hold positions in it. The readings of the clock and
-- the fresh id are arguments.
use honeybee_potstore.Base.{
  ℕ, suc, ◌+◌, ◌-◌, Bool, false, List, [], ◌∷◌, ◌++◌, Option, none, some, if◌then◌else◌, ltb,
  length, get_elem?, drop, modify_at,
}
use honeybee_potstore.Base.Text.{Text}
use honeybee_potstore.Base.Dict.{Dict, lookup, insert, erase_all, text_keys}

pub record Session : Type 0 where
  pub session_id : Text
  pub first_seen : ℕ
  pub last_seen : ℕ
  pub request_count : ℕ
  pub paths : Dict Text ℕ
  pub methods : Dict Text ℕ
  pub recent_paths : List Text

abbrev pub session_ttl : ℕ
session_ttl = 1800

unfoldable pub new_session : Text → ℕ → Session
new_session session_id now = record {
  session_id = session_id;
  first_seen = now;
  last_seen = now;
  request_count = 0;
  paths = [];
  methods = [];
  recent_paths = [];
}

-- `d[k] += 1`, of a dict whose missing values are 0.
abbrev pub or_zero : Option ℕ → ℕ
or_zero none = 0
or_zero (some n) = n

unfoldable pub count_up : Text → Dict Text ℕ → Dict Text ℕ
count_up k d = insert k (suc (or_zero (lookup k d))) d

-- A deque of at most 20: the oldest falls out.
unfoldable pub push_recent : Text → List Text → List Text
push_recent path ps = drop (length ps + 1 - 20) (ps ++ path ∷ [])

unfoldable pub record_request : ℕ → Text → Text → Session → Session
unfolding count_up push_recent
record_request now path method s = record s {
  last_seen = now;
  request_count = s.request_count + 1;
  paths = count_up path s.paths;
  methods = count_up method s.methods;
  recent_paths = push_recent path s.recent_paths;
}

pub record Snapshot : Type 0 where
  pub session_id : Text
  pub first_seen : ℕ
  pub last_seen : ℕ
  pub duration : ℕ
  pub request_count : ℕ
  pub unique_paths : ℕ
  pub methods : Dict Text ℕ
  pub recent_paths : List Text

unfoldable pub snapshot : Session → Snapshot
snapshot s = record {
  session_id = s.session_id;
  first_seen = s.first_seen;
  last_seen = s.last_seen;
  duration = s.last_seen - s.first_seen;
  request_count = s.request_count;
  unique_paths = length s.paths;
  methods = s.methods;
  recent_paths = s.recent_paths;
}

pub record Tracker : Type 0 where
  pub sessions : List Session
  pub by_cookie : Dict Text ℕ
  pub by_ip : Dict Text ℕ

abbrev pub new_tracker : Tracker
new_tracker = record { sessions = []; by_cookie = []; by_ip = [] }

-- The readings of the clock in one call of `touch`.
pub record Clock : Type 0 where
  pub gc_at : ℕ
  pub created_at : ℕ
  pub recorded_at : ℕ

-- `v.last_seen < cutoff`
abbrev pub is_stale : ℕ → Option Session → Bool
is_stale now none = false
is_stale now (some s) = ltb (s.last_seen + session_ttl) now

unfoldable pub stale : List Session → ℕ → Dict Text ℕ → List Text
stale ss now [] = []
stale ss now ((k, i) ∷ d) =
    let rest = stale ss now d in if is_stale now (get_elem? ss i) then k ∷ rest else rest

unfoldable pub gc : ℕ → Tracker → Tracker
unfolding stale
gc now t = record t {
  by_cookie = erase_all (stale t.sessions now t.by_cookie) t.by_cookie;
  by_ip = erase_all (stale t.sessions now t.by_ip) t.by_ip;
}

-- A cookie that is missing or empty is none.
abbrev pub find_cookie : Option Text → Dict Text ℕ → Option ℕ
find_cookie none d = none
find_cookie (some []) d = none
find_cookie (some (c ∷ s)) d = lookup (c ∷ s) d

abbrev pub or_else : Option ℕ → Option ℕ → Option ℕ
or_else none o = o
or_else (some i) o = some i

abbrev pub store_cookie : Option Text → ℕ → Dict Text ℕ → Dict Text ℕ
store_cookie none i d = d
store_cookie (some []) i d = d
store_cookie (some (c ∷ s)) i d = insert (c ∷ s) i d

abbrev pub id_of : Option Text → Text → Text
id_of none fresh = fresh
id_of (some []) fresh = fresh
id_of (some (c ∷ s)) fresh = c ∷ s

-- The session for a visitor who has none: it is entered in the tables.
unfoldable pub enter : Text → Option Text → Text → ℕ → Tracker → Tracker
unfolding new_session
enter ip cookie fresh now t = record {
  sessions = t.sessions ++ new_session (id_of cookie fresh) now ∷ [];
  by_cookie = store_cookie cookie (length t.sessions) t.by_cookie;
  by_ip = insert ip (length t.sessions) t.by_ip;
}

abbrev pub record_at : ℕ → ℕ → Text → Text → Tracker → ℕ × Tracker
record_at i now path method t =
    (i, record t { sessions = modify_at i (record_request now path method) t.sessions })

abbrev pub touch_found :
    Option ℕ → Clock → Text → Option Text → Text → Text → Text → Tracker → ℕ × Tracker
touch_found (some i) c ip cookie fresh path method t = record_at i c.recorded_at path method t
touch_found none c ip cookie fresh path method t =
    record_at (length t.sessions) c.recorded_at path method (enter ip cookie fresh c.created_at t)

-- The position of the session that is returned, and the tracker.
unfoldable pub touch : Clock → Text → Option Text → Text → Text → Text → Tracker → ℕ × Tracker
unfolding gc enter record_request
touch c ip cookie fresh path method t =
    let u = gc c.gc_at t in
    touch_found (or_else (find_cookie cookie u.by_cookie) (lookup ip u.by_ip)) c ip cookie fresh
      path method u
