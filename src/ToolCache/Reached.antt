-- ===== src/ToolCache/Reached.antt =====
-- The caches that loading, reading, writing and clearing lead to: src/toolcache.c.
use asterism_asngn.Common.{
  ℕ, suc, ◌≤◌, ◌≡◌, refl, Bool, true, false, not, Option, none, some, List, [], ◌∷◌, arith, length,
  Bytes, bytes_eq, pick,
}
use asterism_asngn.Common.Int.{ℤ, pos, ◌-ℤ◌}
use asterism_asngn.Common.Errors.{AsngnErr, nomem}
use asterism_asngn.ToolCache.{
  Entry, Config, Cache, Saved, has_key, store, get_loop, is_expired, toolcache_get, toolcache_put,
  toolcache_clear, read_saved, load_entry, init_loop, toolcache_init,
}
use asterism_asngn.ToolCache.Distinct.{Distinct}
use asterism_asngn.ToolCache.Bounded.{IsValid, store-IsValid, toolcache_put-IsValid}

module _ (cfg : Config) where
  length-get_loop :
      (key : Bytes) (now mono : ℤ) (es : List Entry)
      → length (get_loop cfg key now mono es).0 ≤ length es
  unfolding get_loop
  length-get_loop key now mono [] = omega arith
  length-get_loop key now mono (e ∷ es) =
      let P : List Entry × Option Bytes → Type 0 = λ p. length p.0 ≤ suc (length es) in
      pick P (not (bytes_eq e.key key))
        (e ∷ (get_loop cfg key now mono es).0, (get_loop cfg key now mono es).1) _
        (omega (arith, length-get_loop key now mono es))
        (pick P (is_expired cfg now e.at) (es, none) _ (omega arith) (omega arith))

  has_key-get_loop :
      (other key : Bytes) (now mono : ℤ) (es : List Entry)
      → has_key other es ≡ false
      → has_key other (get_loop cfg key now mono es).0 ≡ false
  unfolding get_loop has_key
  has_key-get_loop other key now mono [] h = refl
  has_key-get_loop other key now mono (e ∷ es) h =
      let P : List Entry × Option Bytes → Type 0 = λ p. has_key other p.0 ≡ false in
      pick P (not (bytes_eq e.key key))
        (e ∷ (get_loop cfg key now mono es).0, (get_loop cfg key now mono es).1) _
        (ground (arith, has_key-get_loop other key now mono es))
        (pick P (is_expired cfg now e.at) (es, none) _ (ground arith) h)

  get_loop-Distinct :
      (key : Bytes) (now mono : ℤ) (es : List Entry)
      → Distinct es
      → Distinct (get_loop cfg key now mono es).0
  unfolding get_loop
  get_loop-Distinct key now mono [] d = tt
  get_loop-Distinct key now mono (e ∷ es) d =
      let P : List Entry × Option Bytes → Type 0 = λ p. Distinct p.0 in
      pick P (not (bytes_eq e.key key))
        (e ∷ (get_loop cfg key now mono es).0, (get_loop cfg key now mono es).1) _
        (has_key-get_loop e.key key now mono es d.0, get_loop-Distinct key now mono es d.1)
        (pick P (is_expired cfg now e.at) (es, none) _ d.1 d)

  toolcache_get-IsValid :
      (c : Cache) (key : Bytes) (now mono : ℤ)
      → IsValid cfg c
      → IsValid cfg (toolcache_get cfg c key now mono).0
  unfolding toolcache_get
  toolcache_get-IsValid c key now mono i =
      pick (λ (p : Cache × Option Bytes). IsValid cfg p.0) (not cfg.tool_cache) (c, none) _ i
        (
          get_loop-Distinct key now mono c.entries i.0,
          λ limited. omega (arith, length-get_loop key now mono c.entries, i.1 limited),
        )

  load_entry-IsValid :
      (grow : ℕ → Bool) (c : Cache) (now : ℤ) (found : Option Entry)
      → IsValid cfg c
      → IsValid cfg (load_entry cfg grow c now found).0
  unfolding load_entry
  load_entry-IsValid grow c now none i = i
  load_entry-IsValid grow c now (some e) i =
      pick (λ (p : Cache × Bool). IsValid cfg p.0) (is_expired cfg now e.at) (c, true)
        (store cfg grow c e) i (store-IsValid cfg grow c e i)

  init_loop-IsValid :
      (grow : ℕ → Bool) (c : Cache) (now mono : ℤ) (file : List Saved)
      → IsValid cfg c
      → IsValid cfg (init_loop cfg grow c now mono file).0
  unfolding init_loop
  init_loop-IsValid grow c now mono [] i = i
  init_loop-IsValid grow c now mono (r ∷ rs) i =
      let found = read_saved r (mono -ℤ pos (length (r ∷ rs))) in
      let loaded = load_entry cfg grow c now found in
      let next = load_entry-IsValid grow c now found i in
      pick (λ (p : Cache × Option AsngnErr). IsValid cfg p.0) loaded.1
        (init_loop cfg grow loaded.0 now mono rs) (loaded.0, some nomem)
        (init_loop-IsValid grow loaded.0 now mono rs next) next

  toolcache_init-IsValid :
      (grow : ℕ → Bool) (c : Cache) (now mono : ℤ) (file : List Saved)
      → IsValid cfg c
      → IsValid cfg (toolcache_init cfg grow c now mono file).0
  unfolding toolcache_init
  toolcache_init-IsValid grow c now mono file i =
      pick (λ (p : Cache × Option AsngnErr). IsValid cfg p.0) (not cfg.tool_cache) (c, none) _ i
        (init_loop-IsValid grow c now mono file i)

  abbrev pub empty_cache : Cache
  empty_cache = record { entries = []; cap = 0 }

  pub data Step : Cache → Cache → Type 0 where
    loaded :
        (c : Cache) (grow : ℕ → Bool) (now mono : ℤ) (file : List Saved)
        → Step c (toolcache_init cfg grow c now mono file).0
    got : (c : Cache) (key : Bytes) (now mono : ℤ) → Step c (toolcache_get cfg c key now mono).0
    put :
        (c : Cache) (grow : ℕ → Bool) (key result : Bytes) (now mono : ℤ)
        → Step c (toolcache_put cfg grow c key result now mono)
    cleared : (c : Cache) → Step c (toolcache_clear c)

  pub data Reach : Cache → Type 0 where
    start : Reach empty_cache
    step : {c d : Cache} → Reach c → Step c d → Reach d

  Step-IsValid : {c d : Cache} → Step c d → IsValid cfg c → IsValid cfg d
  unfolding toolcache_clear
  Step-IsValid (loaded c grow now mono file) i = toolcache_init-IsValid grow c now mono file i
  Step-IsValid (got c key now mono) i = toolcache_get-IsValid c key now mono i
  Step-IsValid (put c grow key result now mono) i =
      toolcache_put-IsValid cfg grow c key result now mono i
  Step-IsValid (cleared c) i = (tt, λ limited. omega arith)

  -- However the cache is loaded, read, written and cleared, and whatever the file and the clocks
  -- say, it holds one entry at most for each key, and never more entries than its limit where a
  -- limit is set.
  pub Reach-IsValid : {c : Cache} → Reach c → IsValid cfg c
  Reach-IsValid start = (tt, λ limited. omega arith)
  Reach-IsValid (step before next) = Step-IsValid next (Reach-IsValid before)
