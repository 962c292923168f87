-- ===== src/ToolCache/Found.antt =====
-- Proofs on a read behind a write of the cache: src/toolcache.c.
use asterism_asngn.Common.{
  ℕ, ◌≤◌, ◌≡◌, sym, ◌∙◌, ap, Bool, true, false, not, Option, none, some, List, [], ◌∷◌, ◌++◌, arith,
  ltb, ◌==◌, ◌*◌, if◌then◌else◌, if_true, if_false, length, Bytes, bytes_eq, bytes_eq_refl, pick_on,
  or_left, or_right,
}
use asterism_asngn.Common.Int.{ℤ}
use asterism_asngn.ToolCache.{
  Entry, Config, Cache, has_key, overwrite, make_room, tc_reserve, insert_in, store, get_loop,
  is_expired, toolcache_get, toolcache_put, result_max,
}
use asterism_asngn.ToolCache.Distinct.{has_key-make_room}

-- What a read of `new` gives.
abbrev pub Reads : Config → ℤ → Entry → Option Bytes → Type 0
Reads cfg now new found = found ≡ (if is_expired cfg now new.at then none else some new.result_xcdn)

apart : {b : Bool} → b ≡ true → b ≡ false → ⊥
apart h k = cc

module _ (cfg : Config) (now mono : ℤ) where
  abbrev found_in : Bytes → List Entry → Option Bytes
  found_in key es = (get_loop cfg key now mono es).1

  get_loop-here : (new : Entry) (es : List Entry) → Reads cfg now new (found_in new.key (new ∷ es))
  unfolding get_loop
  get_loop-here new es =
      let same : not (bytes_eq new.key new.key) ≡ false = ap not (bytes_eq_refl new.key) in
      ap (λ (p : List Entry × Option Bytes). p.1) (if_false _ _ same)
      ∙ pick_on
          (λ (p : List Entry × Option Bytes).
            p.1 ≡ (if is_expired cfg now new.at then none else some new.result_xcdn))
          (is_expired cfg now new.at) (es, none) _ (λ h. sym (if_true _ _ h))
          (λ h. sym (if_false _ _ h))

  get_loop-later :
      (key : Bytes) (e : Entry) (es : List Entry)
      → bytes_eq e.key key ≡ false
      → found_in key (e ∷ es) ≡ found_in key es
  unfolding get_loop
  get_loop-later key e es other =
      ap (λ (p : List Entry × Option Bytes). p.1) (if_true _ _ (ap not other))

  get_loop-overwrite :
      (new : Entry) (es : List Entry)
      → has_key new.key es ≡ true
      → Reads cfg now new (found_in new.key (overwrite new es))
  unfolding has_key overwrite
  get_loop-overwrite new [] h = cc
  get_loop-overwrite new (e ∷ es) h =
      pick_on (λ (rest : List Entry). Reads cfg now new (found_in new.key rest))
        (bytes_eq e.key new.key) (new ∷ es) (e ∷ overwrite new es) (λ same. get_loop-here new es)
        (λ other.
          get_loop-later new.key e (overwrite new es) other
          ∙ get_loop-overwrite new es (ground arith))

  get_loop-append :
      (new : Entry) (es : List Entry)
      → has_key new.key es ≡ false
      → Reads cfg now new (found_in new.key (es ++ new ∷ []))
  unfolding has_key
  get_loop-append new [] h = get_loop-here new []
  get_loop-append new (e ∷ es) h =
      get_loop-later new.key e (es ++ new ∷ []) (or_left _ _ h)
      ∙ get_loop-append new es (or_right _ _ h)

  abbrev Granted : (ℕ → Bool) → Type 0
  Granted grow = (n : ℕ) → grow n ≡ true

  insert_in-Reads :
      (grow : ℕ → Bool) (c : Cache) (new : Entry)
      → Granted grow
      → has_key new.key c.entries ≡ false
      → Reads cfg now new (found_in new.key (insert_in c (tc_reserve grow c) new).0.entries)
  unfolding insert_in tc_reserve
  insert_in-Reads grow c new granted fresh =
      pick_on
        (λ (grown : Option Cache).
          Reads cfg now new (found_in new.key (insert_in c grown new).0.entries))
        (ltb (length c.entries) c.cap) (some c) _ (λ h. get_loop-append new c.entries fresh)
        (λ h.
          pick_on
            (λ (grown : Option Cache).
              Reads cfg now new (found_in new.key (insert_in c grown new).0.entries))
            (grow (if c.cap == 0 then 16 else c.cap * 2)) (some _) none
            (λ k. get_loop-append new c.entries fresh) (λ k. absurd (apart (granted _) k)))

  store-Reads :
      (grow : ℕ → Bool) (c : Cache) (new : Entry)
      → Granted grow
      → Reads cfg now new (found_in new.key (store cfg grow c new).0.entries)
  unfolding store
  store-Reads grow c new granted =
      let room : Cache = record c { entries = make_room cfg c.entries } in
      pick_on (λ (p : Cache × Bool). Reads cfg now new (found_in new.key p.0.entries))
        (has_key new.key c.entries) (record c { entries = overwrite new c.entries }, true)
        (insert_in room (tc_reserve grow room) new) (λ h. get_loop-overwrite new c.entries h)
        (λ h. insert_in-Reads grow room new granted (has_key-make_room cfg c.entries new.key h))

le→ltb_false : {a b : ℕ} → a ≤ b → ltb b a ≡ false
le→ltb_false h = ground arith

put_on :
    (cfg : Config) (grow : ℕ → Bool) (c : Cache) (new : Entry)
    → cfg.tool_cache ≡ true
    → length new.result_xcdn ≤ result_max
    → toolcache_put cfg grow c new.key new.result_xcdn new.at new.last_used_ms
      ≡ (store cfg grow c new).0
unfolding toolcache_put
put_on cfg grow c new on short = if_false _ _ (ap not on) ∙ if_false _ _ (le→ltb_false short)

get_on :
    (cfg : Config) (c : Cache) (key : Bytes) (now mono : ℤ)
    → cfg.tool_cache ≡ true
    → (toolcache_get cfg c key now mono).1 ≡ (get_loop cfg key now mono c.entries).1
unfolding toolcache_get
get_on cfg c key now mono on = ap (λ (p : Cache × Option Bytes). p.1) (if_false _ _ (ap not on))

-- Where the cache is on, the result is no longer than the limit and memory is there, a result that is
-- put is what the next read of its key returns, until its time is up, and then nothing is.
pub toolcache_get-toolcache_put :
    (cfg : Config) (grow : ℕ → Bool) (c : Cache) (key result : Bytes) (now mono later mono' : ℤ)
    → cfg.tool_cache ≡ true
    → length result ≤ result_max
    → ((n : ℕ) → grow n ≡ true)
    → (toolcache_get cfg (toolcache_put cfg grow c key result now mono) key later mono').1
      ≡ (if is_expired cfg later now then none else some result)
toolcache_get-toolcache_put cfg grow c key result now mono later mono' on short granted =
    let new : Entry = record { key = key; result_xcdn = result; at = now; last_used_ms = mono } in
    get_on cfg (toolcache_put cfg grow c key result now mono) key later mono' on
    ∙ ap (λ (d : Cache). (get_loop cfg key later mono' d.entries).1)
        (put_on cfg grow c new on short)
    ∙ store-Reads cfg later mono' grow c new granted
