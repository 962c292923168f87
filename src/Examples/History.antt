-- ===== src/Examples/History.antt =====
-- Quoting a conversation within a budget: src/context_history.c.
use asterism_asngn.Common.{
  ◌≤◌, ◌<◌, ◌+◌, ◌≡◌, ◌⊎◌, refl, true, false, some, List, [], ◌∷◌, get_elem?,
}
use asterism_asngn.Common.Int.{pos}
use asterism_asngn.History.{Turn, choose, marked}
use asterism_asngn.History.Fitted.{prices, price, choose-prices, choose-IsMaximal}

abbrev old_turn : Turn
old_turn = record { role = b'u' ∷ []; text = b'a' ∷ []; pinned = true }

abbrev new_turn : Turn
new_turn = record { role = b'u' ∷ []; text = b'b' ∷ []; pinned = false }

abbrev conversation : List Turn
conversation = new_turn ∷ old_turn ∷ new_turn ∷ []

choose-prices_example :
    ((choose (λ s. pos 4) 9 conversation).1 ≤ 9)
    × (prices (λ s. pos 4) 9 (marked true conversation (choose (λ s. pos 4) 9 conversation).0)
          + prices (λ s. pos 4) 9 (marked false conversation (choose (λ s. pos 4) 9 conversation).0)
        ≡ (choose (λ s. pos 4) 9 conversation).1)
choose-prices_example = choose-prices (λ s. pos 4) 9 conversation

choose-IsMaximal_example :
    (get_elem? (choose (λ s. pos 4) 9 conversation).0 0 ≡ some true)
    ⊎ (9 < (choose (λ s. pos 4) 9 conversation).1 + price (λ s. pos 4) 9 new_turn)
choose-IsMaximal_example = choose-IsMaximal (λ s. pos 4) 9 conversation 0 {t = new_turn} refl
