-- ===== src/Collector.antt =====
-- k6/callback/main.go: the receiver of callbacks of the load tests, which counts them while many
-- requests are served at once. Each atomic operation of record is a step.
pub mod Counts
pub mod Settings
use chrono_flow.Common.{
  if◌then◌else◌, any, ℕ, ◌+◌, String, ◌≡◌, Bool, true, false, List, [], ◌∷◌, ◌++◌, str_eq,
}

-- The counters, the keys of sync.Map, and the requests in flight: those whose total is counted, by
-- their keys, and those that have asked the map, by whether their key was there.
pub record Collector : Type 0 where
  pub total : ℕ
  pub unique : ℕ
  pub duplicates : ℕ
  pub missing : ℕ
  pub keys : List String
  pub counted : List String
  pub asked : List Bool

pub record CallbackStats : Type 0 where
  pub total : ℕ
  pub unique : ℕ
  pub duplicates : ℕ
  pub missing_idempotency_key : ℕ

-- The four loads of a snapshot, each of the state at its time: steps of requests may come between.
unfoldable pub snapshot : Collector → Collector → Collector → Collector → CallbackStats
snapshot c1 c2 c3 c4 = record {
  total = c1.total;
  unique = c2.unique;
  duplicates = c3.duplicates;
  missing_idempotency_key = c4.missing;
}

-- What reset leaves.
abbrev pub new_collector : Collector
new_collector = record {
  total = 0;
  unique = 0;
  duplicates = 0;
  missing = 0;
  keys = [];
  counted = [];
  asked = [];
}

-- LoadOrStore: whether the key was there, and the keys after it.
abbrev pub load : String → List String → Bool
load key keys = any (str_eq key) keys

abbrev pub load_or_store : String → List String → List String
load_or_store key keys = if load key keys then keys else key ∷ keys

-- c.total.Add(1)
unfoldable pub count_total : String → Collector → Collector
count_total key c = record c { total = c.total + 1; counted = key ∷ c.counted }

-- What a request with a key does next, with the keys of the other requests at its place.
unfoldable pub ask : List String → String → Collector → Collector
ask others key c =
    if str_eq key "" then record c { missing = c.missing + 1; counted = others } else record c {
      counted = others;
      keys = load_or_store key c.keys;
      asked = load key c.keys ∷ c.asked;
    }

unfoldable pub classify : List Bool → Bool → Collector → Collector
classify others true c = record c { duplicates = c.duplicates + 1; asked = others }
classify others false c = record c { unique = c.unique + 1; asked = others }

-- A step of one of the requests that are served.
pub data Step (c : Collector) : Collector → Type 0 where
  arrives : (key : String) → Step c (count_total key c)
  asks :
      (xs ys : List String) (key : String)
      → c.counted ≡ xs ++ key ∷ ys
      → Step c (ask (xs ++ ys) key c)
  counts :
      (xs ys : List Bool) (loaded : Bool)
      → c.asked ≡ xs ++ loaded ∷ ys
      → Step c (classify (xs ++ ys) loaded c)

pub data Served : Collector → Type 0 where
  started : Served new_collector
  step : {c d : Collector} → Served c → Step c d → Served d
