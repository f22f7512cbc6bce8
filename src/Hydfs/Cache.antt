-- ===== src/Hydfs/Cache.antt =====
-- HyDfs/utils/cache.go: the client's cache of file contents. A time is a number of nanoseconds,
-- and the zero `time.Time` is 0. The loop over the map in `evict` takes the entries in an order
-- that Go does not fix: it is an argument.
pub mod Lru
use rain_strom_distributed_s.Prelude.{
  ℕ, Bool, true, false, ◌||◌, Option, none, some, List, [], ◌∷◌, String, Map, lookup, insert, erase,
  string_eq, if◌then◌else◌, length, ltb, leb, str_eq,
}

pub record CacheEntry : Type 0 where
  pub content : List ℕ
  pub last_access : ℕ

pub record Cache : Type 0 where
  pub entries : Map String CacheEntry
  pub max_size : ℕ

unfoldable pub new_cache : ℕ → Cache
new_cache max = record { entries = []; max_size = max }

-- `Get`: the content, and the cache with the access recorded.
unfoldable pub get : ℕ → String → Cache → Cache × Option (List ℕ)
get now key c = elim (lookup key c.entries) [
  | none ↦ (c, none)
  | some e ↦
      (record c { entries = insert key (record e { last_access = now }) c.entries }, some e.content)
]

-- The loop of `evict`, from the values of `oldestKey` and `oldestTime` on.
unfoldable pub oldest : List (String × CacheEntry) → String → ℕ → String
oldest [] key time = key
oldest ((k, e) ∷ es) key time =
    let newer = oldest es k e.last_access in
    let kept = oldest es key time in if str_eq key "" || ltb e.last_access time then newer else kept

unfoldable pub evict : List (String × CacheEntry) → Cache → Cache
unfolding oldest
evict order c = record c { entries = erase (oldest order "" 0) c.entries }

unfoldable pub put : List (String × CacheEntry) → ℕ → String → List ℕ → Cache → Cache
unfolding evict
put order now key content c =
    let c' = if leb c.max_size (length c.entries) then evict order c else c in
    record c' { entries = insert key (record { content = content; last_access = now }) c'.entries }

unfoldable pub clear : Cache → Cache
clear c = record c { entries = [] }
