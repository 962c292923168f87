-- ===== src/ToolCache/Bounded.antt =====
-- Proofs on the size of the cache and its keys: src/toolcache.c.
use asterism_asngn.Common.{
  ℕ, zero, suc, ◌+◌, ◌-◌, ◌≤◌, ◌<◌, ◌≡◌, refl, sym, ◌∙◌, ap, subst, Bool, true, false, not, Option,
  none, some, List, [], ◌∷◌, ◌++◌, arith, leb, ltb, length, length-append, Bytes, bytes_eq, pick,
  pick_on, leb-false,
}
use asterism_asngn.Common.Int.{ℤ, pos, ltb_ℤ, pos_part}
use asterism_asngn.ToolCache.{
  Entry, Config, Cache, has_key, overwrite, evict_loop, tc_evict_lru, make_room, tc_reserve,
  insert_in, store, toolcache_put, result_max,
}
use asterism_asngn.ToolCache.Evicted.{tc_evict_lru-TakesOldest}
use asterism_asngn.ToolCache.Distinct.{
  Distinct, overwrite-Distinct, append-Distinct, make_room-Distinct, has_key-make_room,
}

length-tc_evict_lru : (es : List Entry) → length (tc_evict_lru es) ≡ length es - 1
unfolding tc_evict_lru
length-tc_evict_lru [] = refl
length-tc_evict_lru (e ∷ es) =
    let (front, back, v, whole, gone, oldest) = tc_evict_lru-TakesOldest (e ∷ es) (omega arith) in
    let before : suc (length es) ≡ length front + suc (length back) =
      ap length whole ∙ length-append front (v ∷ back) in
    let after : length (tc_evict_lru (e ∷ es)) ≡ length front + length back =
      ap length gone ∙ length-append front back in
    unfold tc_evict_lru in omega arith

evict_loop-lt :
    (fuel max : ℕ) (es : List Entry)
    → 0 < max
    → length es ≤ fuel
    → length (evict_loop fuel max es) < max
unfolding evict_loop
evict_loop-lt zero max es h enough = omega arith
evict_loop-lt (suc fuel) max es h enough =
    pick_on (λ (rest : List Entry). length rest < max) (leb max (length es))
      (evict_loop fuel max (tc_evict_lru es)) es
      (λ full. evict_loop-lt fuel max (tc_evict_lru es) h (omega (arith, length-tc_evict_lru es)))
      (λ room. leb-false max (length es) room)

abbrev pub Limited : Config → Type 0
Limited cfg = ltb_ℤ (pos 0) cfg.tool_max_entries ≡ true

positive : (n : ℤ) → ltb_ℤ (pos 0) n ≡ true → 0 < pos_part n
positive n h = ground arith

make_room-lt :
    (cfg : Config) (es : List Entry)
    → Limited cfg
    → length (make_room cfg es) < pos_part cfg.tool_max_entries
unfolding make_room
make_room-lt cfg es limited = rw limited (
    evict_loop-lt (length es) (pos_part cfg.tool_max_entries) es
      (positive cfg.tool_max_entries limited) (omega arith))

length-overwrite : (new : Entry) (es : List Entry) → length (overwrite new es) ≡ length es
unfolding overwrite
length-overwrite new [] = refl
length-overwrite new (e ∷ es) =
    pick (λ rest. length rest ≡ suc (length es)) (bytes_eq e.key new.key) (new ∷ es)
      (e ∷ overwrite new es) refl (ap suc (length-overwrite new es))

-- One entry for each key, and no more entries than the limit, where there is one.
abbrev pub IsValid : Config → Cache → Type 0
IsValid cfg c =
    Distinct c.entries × (Limited cfg → length c.entries ≤ pos_part cfg.tool_max_entries)

tc_reserve-entries :
    (grow : ℕ → Bool) (c : Cache) {grown : Cache}
    → tc_reserve grow c ≡ some grown
    → grown.entries ≡ c.entries
unfolding tc_reserve
tc_reserve-entries grow c h = ground arith

insert_in-IsValid :
    (cfg : Config) (grow : ℕ → Bool) (c : Cache) (grown : Option Cache) (new : Entry)
    → tc_reserve grow c ≡ grown
    → Distinct c.entries
    → has_key new.key c.entries ≡ false
    → (Limited cfg → length c.entries < pos_part cfg.tool_max_entries)
    → IsValid cfg (insert_in c grown new).0
unfolding insert_in
insert_in-IsValid cfg grow c none new e d fresh room = (d, λ limited. omega (arith, room limited))
insert_in-IsValid cfg grow c (some grown) new e d fresh room =
    let same : grown.entries ≡ c.entries = tc_reserve-entries grow c e in
    (
      subst (λ es. Distinct (es ++ new ∷ [])) (sym same) (append-Distinct c.entries new fresh d),
      λ limited.
          subst (λ es. length (es ++ new ∷ []) ≤ pos_part cfg.tool_max_entries) (sym same)
            (omega (arith, length-append c.entries (new ∷ []), room limited)),
    )

pub store-IsValid :
    (cfg : Config) (grow : ℕ → Bool) (c : Cache) (new : Entry)
    → IsValid cfg c
    → IsValid cfg (store cfg grow c new).0
unfolding store
store-IsValid cfg grow c new i =
    let room : Cache = record c { entries = make_room cfg c.entries } in
    pick_on (λ (p : Cache × Bool). IsValid cfg p.0) (has_key new.key c.entries)
      (record c { entries = overwrite new c.entries }, true)
      (insert_in room (tc_reserve grow room) new)
      (λ h. (
        overwrite-Distinct new c.entries i.0,
        λ limited. omega (arith, length-overwrite new c.entries, i.1 limited),
      ))
      (λ h.
        insert_in-IsValid cfg grow room (tc_reserve grow room) new refl
          (make_room-Distinct cfg c.entries i.0) (has_key-make_room cfg c.entries new.key h)
          (make_room-lt cfg c.entries))

pub toolcache_put-IsValid :
    (cfg : Config) (grow : ℕ → Bool) (c : Cache) (key result : Bytes) (now mono : ℤ)
    → IsValid cfg c
    → IsValid cfg (toolcache_put cfg grow c key result now mono)
unfolding toolcache_put
toolcache_put-IsValid cfg grow c key result now mono i =
    pick (IsValid cfg) (not cfg.tool_cache) c _ i
      (pick (IsValid cfg) (ltb result_max (length result)) c _ i (store-IsValid cfg grow c _ i))
