-- ===== src/ToolCache/Distinct.antt =====
-- Proofs on the keys of the cache: src/toolcache.c.
use asterism_asngn.Common.{
  ℕ, zero, suc, ◌≡◌, refl, sym, ◌∙◌, ap, subst, false, ◌||◌, List, [], ◌∷◌, ◌++◌, arith, leb,
  length, Bytes, bytes_eq, bytes_eq→eq, pick, pick_on, or_left, or_right,
}
use asterism_asngn.ToolCache.{
  Entry, has_key, overwrite, evict_loop, tc_evict_lru, make_room, Config,
}
use asterism_asngn.ToolCache.Evicted.{tc_evict_lru-TakesOldest}

abbrev pub Distinct : List Entry → Type 0
Distinct [] = Unit
Distinct (e ∷ es) = (has_key e.key es ≡ false) × Distinct es

pub bytes_eq_sym : (x y : Bytes) → bytes_eq x y ≡ bytes_eq y x
bytes_eq_sym [] [] = refl
bytes_eq_sym [] (b ∷ y) = refl
bytes_eq_sym (a ∷ x) [] = refl
bytes_eq_sym (a ∷ x) (b ∷ y) = ground (arith, bytes_eq_sym x y)

-- One entry less.
has_key-shorter :
    (key : Bytes) (front : List Entry) (v : Entry) (back : List Entry)
    → has_key key (front ++ v ∷ back) ≡ false
    → has_key key (front ++ back) ≡ false
unfolding has_key
has_key-shorter key [] v back h = ground arith
has_key-shorter key (e ∷ front) v back h = ground (arith, has_key-shorter key front v back)

Distinct-shorter :
    (front : List Entry) (v : Entry) (back : List Entry)
    → Distinct (front ++ v ∷ back)
    → Distinct (front ++ back)
Distinct-shorter [] v back d = d.1
Distinct-shorter (e ∷ front) v back d =
    (has_key-shorter e.key front v back d.0, Distinct-shorter front v back d.1)

-- What an eviction keeps, of any property that holds of the list without one of its entries.
evict-keeps :
    (P : List Entry → Type 0) (es : List Entry)
    → ((front : List Entry) (v : Entry) (back : List Entry)
        → P (front ++ v ∷ back)
        → P (front ++ back))
    → P es
    → P (tc_evict_lru es)
unfolding tc_evict_lru
evict-keeps P [] shorter p = p
evict-keeps P (e ∷ es) shorter p =
    let (front, back, v, whole, gone, oldest) = tc_evict_lru-TakesOldest (e ∷ es) (omega arith) in
    subst P (sym gone) (shorter front v back (subst P whole p))

evict_loop-keeps :
    (P : List Entry → Type 0) (fuel max : ℕ) (es : List Entry)
    → ((front : List Entry) (v : Entry) (back : List Entry)
        → P (front ++ v ∷ back)
        → P (front ++ back))
    → P es
    → P (evict_loop fuel max es)
unfolding evict_loop
evict_loop-keeps P zero max es shorter p = p
evict_loop-keeps P (suc fuel) max es shorter p =
    pick P (leb max (length es)) (evict_loop fuel max (tc_evict_lru es)) es
      (evict_loop-keeps P fuel max (tc_evict_lru es) shorter (evict-keeps P es shorter p)) p

module _ (cfg : Config) (es : List Entry) where
  make_room-keeps :
      (P : List Entry → Type 0)
      → ((front : List Entry) (v : Entry) (back : List Entry)
          → P (front ++ v ∷ back)
          → P (front ++ back))
      → P es
      → P (make_room cfg es)
  unfolding make_room
  make_room-keeps P shorter p = pick P _ _ es (evict_loop-keeps P (length es) _ es shorter p) p

  pub has_key-make_room :
      (key : Bytes) → has_key key es ≡ false → has_key key (make_room cfg es) ≡ false
  has_key-make_room key = make_room-keeps (λ rest. has_key key rest ≡ false) (has_key-shorter key)

  pub make_room-Distinct : Distinct es → Distinct (make_room cfg es)
  make_room-Distinct = make_room-keeps Distinct Distinct-shorter

pub has_key-overwrite :
    (key : Bytes) (new : Entry) (es : List Entry) → has_key key (overwrite new es) ≡ has_key key es
unfolding has_key overwrite
has_key-overwrite key new [] = refl
has_key-overwrite key new (e ∷ es) =
    pick_on (λ rest. has_key key rest ≡ (bytes_eq e.key key || has_key key es))
      (bytes_eq e.key new.key) (new ∷ es) (e ∷ overwrite new es)
      (λ h. ap (λ k. bytes_eq k key || has_key key es) (sym (bytes_eq→eq e.key new.key h)))
      (λ h. ap (λ b. bytes_eq e.key key || b) (has_key-overwrite key new es))

pub overwrite-Distinct : (new : Entry) (es : List Entry) → Distinct es → Distinct (overwrite new es)
unfolding overwrite
overwrite-Distinct new [] d = d
overwrite-Distinct new (e ∷ es) d =
    pick_on Distinct (bytes_eq e.key new.key) (new ∷ es) (e ∷ overwrite new es)
      (λ h. (subst (λ k. has_key k es ≡ false) (bytes_eq→eq e.key new.key h) d.0, d.1))
      (λ h. (has_key-overwrite e.key new es ∙ d.0, overwrite-Distinct new es d.1))

has_key-append :
    (key : Bytes) (es : List Entry) (new : Entry)
    → has_key key es ≡ false
    → bytes_eq new.key key ≡ false
    → has_key key (es ++ new ∷ []) ≡ false
unfolding has_key
has_key-append key [] new h other = ground arith
has_key-append key (e ∷ es) new h other = ground (arith, has_key-append key es new)

pub append-Distinct :
    (es : List Entry) (new : Entry)
    → has_key new.key es ≡ false
    → Distinct es
    → Distinct (es ++ new ∷ [])
unfolding has_key
append-Distinct [] new h d = (refl, tt)
append-Distinct (e ∷ es) new h d = (
  has_key-append e.key es new d.0 (bytes_eq_sym new.key e.key ∙ or_left _ _ h),
  append-Distinct es new (or_right _ _ h) d.1,
)
