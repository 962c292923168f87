-- ===== src/Examples/ToolCache.antt =====
-- A cache of at most one entry: src/toolcache.c.
use asterism_asngn.Common.{ℕ, ◌≡◌, refl, true, none, some, [], ◌∷◌, arith, if◌then◌else◌}
use asterism_asngn.Common.Int.{pos}
use asterism_asngn.ToolCache.{
  Entry, Config, Cache, tc_evict_lru, toolcache_get, toolcache_put, is_expired,
}
use asterism_asngn.ToolCache.Evicted.{TakesOldest, tc_evict_lru-TakesOldest}
use asterism_asngn.ToolCache.Bounded.{IsValid}
use asterism_asngn.ToolCache.Reached.{start, step, put, empty_cache, Reach-IsValid}
use asterism_asngn.ToolCache.Found.{toolcache_get-toolcache_put}

abbrev small : Config
small = record { tool_cache = true; tool_ttl_s = pos 60; tool_max_entries = pos 1 }

abbrev entry : ℕ → Entry
entry n = record { key = n ∷ []; result_xcdn = n ∷ []; at = pos 0; last_used_ms = pos n }

tc_evict_lru-TakesOldest_example :
    TakesOldest (entry 5 ∷ entry 2 ∷ entry 7 ∷ []) (tc_evict_lru (entry 5 ∷ entry 2 ∷ entry 7 ∷ []))
tc_evict_lru-TakesOldest_example =
    tc_evict_lru-TakesOldest (entry 5 ∷ entry 2 ∷ entry 7 ∷ []) (omega arith)

abbrev first : Cache
first = toolcache_put small (λ n. true) (empty_cache small) (b'a' ∷ []) (b'1' ∷ []) (pos 10) (pos 1)

Reach-IsValid_example :
    IsValid small (toolcache_put small (λ n. true) first (b'b' ∷ []) (b'2' ∷ []) (pos 20) (pos 2))
Reach-IsValid_example = Reach-IsValid small (
    step (step start (put (empty_cache small) (λ n. true) (b'a' ∷ []) (b'1' ∷ []) (pos 10) (pos 1)))
      (put first (λ n. true) (b'b' ∷ []) (b'2' ∷ []) (pos 20) (pos 2)))

toolcache_get-toolcache_put_example :
    (toolcache_get small
      (toolcache_put small (λ n. true) first (b'b' ∷ []) (b'2' ∷ []) (pos 20) (pos 2))
      (b'b' ∷ [])
      (pos 30)
      (pos 3)).1
    ≡ (if is_expired small (pos 30) (pos 20) then none else some (b'2' ∷ []))
toolcache_get-toolcache_put_example =
    toolcache_get-toolcache_put small (λ n. true) first (b'b' ∷ []) (b'2' ∷ []) (pos 20) (pos 2)
      (pos 30) (pos 3) refl (omega arith) (λ n. refl)
