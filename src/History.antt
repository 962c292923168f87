-- ===== src/History.antt =====
-- The part of a conversation that a prompt quotes: src/context_history.c, on allocations that succeed,
-- and the token count of src/context_budget.c. `count_tokens` is `asngn_models_count_tokens` of the
-- counting model. The trace is left out. A sum of counts stays far below a `size_t`: the budget is an
-- `int`, and so is each count.
use asterism_asngn.Common.{
  ℕ, zero, suc, ◌+◌, ◌-◌, Bool, true, false, not, ◌&&◌, ◌||◌, Option, none, some, List, [], ◌∷◌,
  ◌++◌, leb, ltb, if◌then◌else◌, Bytes, bytes_eq, length, take,
}
use asterism_asngn.Common.Int.{ℤ, pos_part}
pub mod Fitted

-- `asngn_turn`.
pub record Turn : Type 0 where
  pub role : Bytes
  pub text : Bytes
  pub pinned : Bool

-- `verb_render`.
unfoldable pub verb_render : Turn → Bytes
verb_render t = t.role ++ (b':' ∷ b' ' ∷ []) ++ t.text ++ (b'\n' ∷ [])

unfoldable pub render_all : List Turn → Bytes
unfolding verb_render
render_all [] = []
render_all (t ∷ ts) = verb_render t ++ render_all ts

abbrev user : Bytes
user = b'u' ∷ b's' ∷ b'e' ∷ b'r' ∷ []

-- The turn is the message that is being answered; `user_msg` is none where there is no turn.
unfoldable pub is_current : Option Bytes → Turn → Bool
is_current none t = false
is_current (some user_msg) t = not t.pinned && bytes_eq t.role user && bytes_eq t.text user_msg

unfoldable pub skip_last : Option Bytes → List Turn → Bool
unfolding is_current
skip_last user_msg [] = false
skip_last user_msg (t ∷ []) = is_current user_msg t
skip_last user_msg (t ∷ u ∷ ts) = skip_last user_msg (u ∷ ts)

unfoldable pub either : List Bool → List Bool → List Bool
either (a ∷ as') (b ∷ bs) = (a || b) ∷ either as' bs
either _ _ = []

-- The marked turns that are pinned, or those that are not.
unfoldable pub marked : Bool → List Turn → List Bool → List Turn
marked pinned (t ∷ ts) (mark ∷ marks) =
    let rest = marked pinned ts marks in
    let own = if pinned then t.pinned else not t.pinned in if mark && own then t ∷ rest else rest
marked pinned _ _ = []

module _ (count_tokens : Bytes → ℤ) where
  -- `asngn_context_tokens`.
  unfoldable pub context_tokens : Bytes → ℕ
  context_tokens [] = 0
  context_tokens (ch ∷ s) = pos_part (count_tokens (ch ∷ s))

  unfoldable pub cost : Turn → ℕ
  unfolding context_tokens verb_render
  cost t = context_tokens (verb_render t)

  -- The first pass: the marks, and the tokens used.
  unfoldable pub pinned_pass : ℕ → ℕ → List Turn → List Bool × ℕ
  unfolding cost
  pinned_pass budget used [] = ([], used)
  pinned_pass budget used (t ∷ ts) =
      let fits = t.pinned && leb (used + cost t) budget in
      let (marks, total) = pinned_pass budget (if fits then used + cost t else used) ts in
      (fits ∷ marks, total)

  -- The second pass goes from the newest turn back, so the turns behind `t` come first.
  unfoldable pub recent_pass : ℕ → ℕ → List Turn → List Bool × ℕ
  unfolding cost
  recent_pass budget used [] = ([], used)
  recent_pass budget used (t ∷ ts) =
      let (marks, newer) = recent_pass budget used ts in
      let fits = not t.pinned && not (ltb budget (newer + cost t)) in
      (fits ∷ marks, if fits then newer + cost t else newer)

  -- The marks of both passes, and the tokens used.
  unfoldable pub choose : ℕ → List Turn → List Bool × ℕ
  unfolding pinned_pass recent_pass either
  choose budget ts =
      let (pins, used) = pinned_pass budget 0 ts in
      let (recent, total) = recent_pass budget used ts in (either pins recent, total)

  abbrev found_text : Bytes → ℕ → Option Bytes × ℕ
  found_text [] used = (none, 0)
  found_text (ch ∷ s) used = (some (ch ∷ s), used)

  -- `asngn_context_verbatim`: the text, and its tokens.
  unfoldable pub context_verbatim : ℕ → Option Bytes → List Turn → Option Bytes × ℕ
  unfolding skip_last choose render_all marked
  context_verbatim budget user_msg log =
      let older = if skip_last user_msg log then take (length log - 1) log else log in
      let (marks, used) = choose budget older in
      found_text (render_all (marked true older marks) ++ render_all (marked false older marks))
        used
