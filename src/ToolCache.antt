-- ===== src/ToolCache.antt =====
-- The exact-key cache of tool results: src/toolcache.c. Each function is one step under the write
-- lock; `now` and `mono` are the two clocks. A key is a list of bytes. `grow` says which sizes the
-- `realloc` of `tc_reserve` is given; the other allocations succeed. The file `tools.xcdn` is the list of its
-- records, oldest first.
use asterism_asngn.Common.{
  ℕ, zero, suc, ◌+◌, ◌-◌, ◌*◌, Bool, true, false, not, ◌&&◌, ◌||◌, Option, none, some, List, [],
  ◌∷◌, ◌++◌, leb, ltb, within, ◌==◌, if◌then◌else◌, Bytes, bytes_eq, length,
}
use asterism_asngn.Common.Int.{ℤ, pos, ◌+ℤ◌, ◌-ℤ◌, ltb_ℤ, pos_part}
use asterism_asngn.Common.Errors.{AsngnErr, nomem}
use asterism_asngn.Common.Maybe.{◌>>=◌}
pub mod Evicted
pub mod Distinct
pub mod Bounded
pub mod Reached
pub mod Found

-- `ASNGN_TOOLCACHE_RESULT_MAX`.
abbrev pub result_max : ℕ
result_max = 64 * 1024

-- `asngn_toolcache_entry`.
pub record Entry : Type 0 where
  pub key : Bytes
  pub result_xcdn : Bytes
  pub at : ℤ
  pub last_used_ms : ℤ

-- The cache's part of the configuration.
pub record Config : Type 0 where
  pub tool_cache : Bool
  pub tool_ttl_s : ℤ
  pub tool_max_entries : ℤ

-- `toolcache` with its first `toolcache_n` entries, and `toolcache_cap`.
pub record Cache : Type 0 where
  pub entries : List Entry
  pub cap : ℕ

-- `tc_hexval`; none is -1.
unfoldable pub tc_hexval : ℕ → Option ℕ
tc_hexval ch =
    if within b'0' b'9' ch
    then some (ch - b'0')
    else if within b'a' b'f' ch
    then some (10 + (ch - b'a'))
    else if within b'A' b'F' ch
    then some (10 + (ch - b'A'))
    else none

-- The loop of `tc_key_parse`, on the digits left.
unfoldable pub key_loop : Bytes → Option Bytes
unfolding tc_hexval
key_loop [] = some []
key_loop (high ∷ []) = none
key_loop (high ∷ low ∷ s) = tc_hexval high >>= λ hi.
    tc_hexval low >>= λ lo. key_loop s >>= λ key. some ((hi * 16 + lo) ∷ key)

unfoldable pub tc_key_parse : Option Bytes → Option Bytes
unfolding key_loop
tc_key_parse none = none
tc_key_parse (some s) = if length s == 64 then key_loop s else none

unfoldable pub tc_remove_at : ℕ → List Entry → List Entry
tc_remove_at i [] = []
tc_remove_at zero (e ∷ es) = es
tc_remove_at (suc i) (e ∷ es) = e ∷ tc_remove_at i es

-- The loop of `tc_evict_lru` at index `i`: `victim` was last used at `oldest`.
unfoldable pub victim_loop : ℕ → ℕ → ℤ → List Entry → ℕ
victim_loop i victim oldest [] = victim
victim_loop i victim oldest (e ∷ es) =
    let older = ltb_ℤ e.last_used_ms oldest in
    victim_loop (suc i) (if older then i else victim) (if older then e.last_used_ms else oldest) es

unfoldable pub tc_evict_lru : List Entry → List Entry
unfolding victim_loop tc_remove_at
tc_evict_lru [] = []
tc_evict_lru (e ∷ es) = tc_remove_at (victim_loop 1 0 e.last_used_ms es) (e ∷ es)

-- `while (c->toolcache_n >= max) tc_evict_lru(c)`, on fuel: a round takes one entry away.
unfoldable pub evict_loop : ℕ → ℕ → List Entry → List Entry
unfolding tc_evict_lru
evict_loop zero max es = es
evict_loop (suc fuel) max es =
    let rest = evict_loop fuel max (tc_evict_lru es) in if leb max (length es) then rest else es

unfoldable pub make_room : Config → List Entry → List Entry
unfolding evict_loop
make_room cfg es =
    if ltb_ℤ (pos 0) cfg.tool_max_entries
    then evict_loop (length es) (pos_part cfg.tool_max_entries) es
    else es

unfoldable pub tc_reserve : (ℕ → Bool) → Cache → Option Cache
tc_reserve grow c =
    let cap = if c.cap == 0 then 16 else c.cap * 2 in
    if ltb (length c.entries) c.cap
    then some c
    else if grow cap
    then some (record c { cap = cap })
    else none

unfoldable pub has_key : Bytes → List Entry → Bool
has_key key [] = false
has_key key (e ∷ es) = bytes_eq e.key key || has_key key es

-- The slot that is found is written over; its key stays.
unfoldable pub overwrite : Entry → List Entry → List Entry
overwrite new [] = []
overwrite new (e ∷ es) =
    let rest = overwrite new es in if bytes_eq e.key new.key then new ∷ es else e ∷ rest

abbrev append_entry : Entry → Cache → Cache
append_entry new c = record c { entries = c.entries ++ new ∷ [] }

-- A cache with the new entry, or none where there is no memory for it, with what was evicted.
unfoldable pub insert_in : Cache → Option Cache → Entry → Cache × Bool
insert_in c none new = (c, false)
insert_in c (some grown) new = (append_entry new grown, true)

unfoldable pub store : Config → (ℕ → Bool) → Cache → Entry → Cache × Bool
unfolding has_key overwrite make_room tc_reserve insert_in
store cfg grow c new =
    let room = record c { entries = make_room cfg c.entries } in
    if has_key new.key c.entries
    then (record c { entries = overwrite new c.entries }, true)
    else insert_in room (tc_reserve grow room) new

-- `c->cfg.tool_ttl_s > 0 && at + c->cfg.tool_ttl_s <= now`.
unfoldable pub is_expired : Config → ℤ → ℤ → Bool
is_expired cfg now at = ltb_ℤ (pos 0) cfg.tool_ttl_s && not (ltb_ℤ now (at +ℤ cfg.tool_ttl_s))

-- The loop of `asngn_toolcache_get`.
unfoldable pub get_loop : Config → Bytes → ℤ → ℤ → List Entry → List Entry × Option Bytes
unfolding is_expired
get_loop cfg key now mono [] = ([], none)
get_loop cfg key now mono (e ∷ es) =
    let (rest, found) = get_loop cfg key now mono es in
    if not (bytes_eq e.key key)
    then (e ∷ rest, found)
    else if is_expired cfg now e.at
    then (es, none)
    else (record e { last_used_ms = mono } ∷ es, some e.result_xcdn)

unfoldable pub toolcache_get : Config → Cache → Bytes → ℤ → ℤ → Cache × Option Bytes
unfolding get_loop
toolcache_get cfg c key now mono =
    let (es, found) = get_loop cfg key now mono c.entries in
    if not cfg.tool_cache then (c, none) else (record c { entries = es }, found)

-- `asngn_toolcache_put`, past its line in the file.
unfoldable pub toolcache_put : Config → (ℕ → Bool) → Cache → Bytes → Bytes → ℤ → ℤ → Cache
unfolding store
toolcache_put cfg grow c key result now mono =
    let new : Entry = record { key = key; result_xcdn = result; at = now; last_used_ms = mono } in
    if not cfg.tool_cache
    then c
    else if ltb result_max (length result)
    then c
    else (store cfg grow c new).0

unfoldable pub toolcache_clear : Cache → Cache
toolcache_clear c = record c { entries = [] }

-- A value of `tools.xcdn`: `tagged` says that it is an object with the tag `tool_cache_entry`, and a
-- field is none where it is missing or of another type.
pub record Saved : Type 0 where
  pub tagged : Bool
  pub key : Option Bytes
  pub result : Option Bytes
  pub at : Option ℤ

-- The entry that a value stands for, where it is valid.
unfoldable pub read_saved : Saved → ℤ → Option Entry
unfolding tc_key_parse
read_saved r stamp =
    if not r.tagged
    then none
    else tc_key_parse r.key >>= λ key. r.result >>= λ result. r.at >>= λ at.
        some (record { key = key; result_xcdn = result; at = at; last_used_ms = stamp })

unfoldable pub load_entry : Config → (ℕ → Bool) → Cache → ℤ → Option Entry → Cache × Bool
unfolding is_expired store
load_entry cfg grow c now none = (c, true)
load_entry cfg grow c now (some e) =
    if is_expired cfg now e.at then (c, true) else store cfg grow c e

-- The loop of `asngn_toolcache_init`, which stops where there is no memory.
unfoldable pub init_loop :
    Config → (ℕ → Bool) → Cache → ℤ → ℤ → List Saved → Cache × Option AsngnErr
unfolding read_saved load_entry
init_loop cfg grow c now mono [] = (c, none)
init_loop cfg grow c now mono (r ∷ rs) =
    let (next, loaded) = load_entry cfg grow c now (read_saved r (mono -ℤ pos (length (r ∷ rs)))) in
    let rest = init_loop cfg grow next now mono rs in if loaded then rest else (next, some nomem)

unfoldable pub toolcache_init :
    Config → (ℕ → Bool) → Cache → ℤ → ℤ → List Saved → Cache × Option AsngnErr
unfolding init_loop
toolcache_init cfg grow c now mono file =
    if not cfg.tool_cache then (c, none) else init_loop cfg grow c now mono file
