-- ===== src/Work/Contract.antt =====
-- The contract that a host submits: src/work_definition.c. A `char` array is the list of the bytes
-- in front of its NUL; `count` and `criteria` are one list. `1u << i` is never out of the word: a
-- definition has at most 16 criteria.
use asterism_asngn.Common.{
  ℕ, zero, suc, ◌^◌, Bool, true, false, not, ◌&&◌, ◌||◌, List, [], ◌∷◌, ltb, ◌==◌, if◌then◌else◌,
  Bytes, bytes_eq, has_byte, bytes_eq_refl, bytes_eq→eq, length, ◌≡◌, arith,
}
use asterism_asngn.Text.Utf8.{utf8_valid}
use asterism_asngn.Text.Slug.{slug_valid}

-- `asngn_work_criterion`.
pub record Criterion : Type 0 where
  pub id : Bytes
  pub requirement : Bytes
  pub command : Bytes
  pub path : Bytes
  pub adapter : Bytes
  pub depends_on : ℕ

-- `asngn_work_definition`.
pub record Definition : Type 0 where
  pub goal : Bytes
  pub constraints : Bytes
  pub criteria : List Criterion

abbrev pub criteria_max : ℕ
criteria_max = 16

abbrev pub is_empty : Bytes → Bool
is_empty [] = true
is_empty (ch ∷ s) = false

-- The NUL lies within the `cap` bytes of the array.
unfoldable pub text_ok : Bytes → ℕ → Bool → Bool
text_ok s cap required = ltb (length s) cap && (not required || not (is_empty s)) && utf8_valid s

unfoldable pub member : Bytes → List Bytes → Bool
member s [] = false
member s (v ∷ vs) = bytes_eq s v || member s vs

-- `os_path_is_abs` on a POSIX host.
unfoldable pub path_is_abs : Bytes → Bool
path_is_abs [] = false
path_is_abs (ch ∷ s) = ch == b'/'

abbrev pub dot : Bytes
dot = b'.' ∷ []

abbrev dot_dot : Bytes
dot_dot = b'.' ∷ b'.' ∷ []

unfoldable pub bad_component : Bytes → Bool
bad_component s = is_empty s || bytes_eq s dot || bytes_eq s dot_dot

-- `strcspn(p, "/")`: the bytes in front of the next slash, and the text from there.
unfoldable pub component : Bytes → Bytes × Bytes
component [] = ([], [])
component (ch ∷ s) =
    let (front, rest) = component s in if ch == b'/' then ([], ch ∷ s) else (ch ∷ front, rest)

-- The loop over the components, on fuel: a round reads a slash at least.
unfoldable pub path_loop : ℕ → Bytes → Bool
unfolding bad_component
path_loop zero p = false
path_loop (suc fuel) p = elim (component p).1 [
  | [] ↦ not (bad_component (component p).0)
  | slash ∷ rest ↦
      let later = path_loop fuel rest in if bad_component (component p).0 then false else later
]

unfoldable pub path_valid : Bytes → Bool
unfolding path_loop path_is_abs
path_valid s =
    if bytes_eq s dot
    then true
    else if path_is_abs s || has_byte b'\\' s || has_byte b':' s
    then false
    else path_loop (suc (length s)) s

abbrev pub build_command : Bytes
build_command = b'b' ∷ b'u' ∷ b'i' ∷ b'l' ∷ b'd' ∷ []

abbrev pub test_command : Bytes
test_command = b't' ∷ b'e' ∷ b's' ∷ b't' ∷ []

abbrev pub lint_command : Bytes
lint_command = b'l' ∷ b'i' ∷ b'n' ∷ b't' ∷ []

abbrev pub diagnostics_command : Bytes
diagnostics_command =
    b'd' ∷ b'i' ∷ b'a' ∷ b'g' ∷ b'n' ∷ b'o' ∷ b's' ∷ b't' ∷ b'i' ∷ b'c' ∷ b's' ∷ []

abbrev commands : List Bytes
commands = build_command ∷ test_command ∷ lint_command ∷ diagnostics_command ∷ []

abbrev pub auto_adapter : Bytes
auto_adapter = b'a' ∷ b'u' ∷ b't' ∷ b'o' ∷ []

abbrev adapters : List Bytes
adapters =
    auto_adapter
    ∷ (b'c' ∷ b'm' ∷ b'a' ∷ b'k' ∷ b'e' ∷ [])
    ∷ (b'c' ∷ b'a' ∷ b'r' ∷ b'g' ∷ b'o' ∷ [])
    ∷ (b'n' ∷ b'p' ∷ b'm' ∷ [])
    ∷ (b'p' ∷ b'y' ∷ b't' ∷ b'h' ∷ b'o' ∷ b'n' ∷ [])
    ∷ []

unfoldable pub criterion_ok : ℕ → Criterion → Bool
unfolding text_ok member path_valid
criterion_ok i c =
    (text_ok c.id 33 true && slug_valid c.id)
    && text_ok c.requirement 257 true
    && (text_ok c.command 16 true && member c.command commands)
    && (text_ok c.adapter 16 true && member c.adapter adapters)
    && (text_ok c.path 257 true && path_valid c.path)
    && ltb c.depends_on (2 ^ i)

-- `strcmp(c->id, d->criteria[j].id)` for each `j < i`: `earlier` are the criteria in front.
unfoldable pub fresh_id : Bytes → List Criterion → Bool
fresh_id id [] = true
fresh_id id (c ∷ earlier) = not (bytes_eq id c.id) && fresh_id id earlier

unfoldable pub criteria_loop : ℕ → List Criterion → List Criterion → Bool
unfolding criterion_ok fresh_id
criteria_loop i earlier [] = true
criteria_loop i earlier (c ∷ cs) =
    if criterion_ok i c && fresh_id c.id earlier
    then criteria_loop (suc i) (c ∷ earlier) cs
    else false

unfoldable pub definition_valid : Definition → Bool
unfolding text_ok criteria_loop
definition_valid d =
    if length d.criteria == 0
      || ltb criteria_max (length d.criteria)
      || not (text_ok d.goal 513 true)
      || not (text_ok d.constraints 513 false)
    then false
    else criteria_loop 0 [] d.criteria

unfoldable pub criterion_equal : Criterion → Criterion → Bool
criterion_equal a b =
    bytes_eq a.id b.id
    && bytes_eq a.requirement b.requirement
    && bytes_eq a.command b.command
    && bytes_eq a.adapter b.adapter
    && bytes_eq a.path b.path
    && a.depends_on == b.depends_on

pub criterion_equal_refl : (c : Criterion) → criterion_equal c c ≡ true
unfolding criterion_equal
criterion_equal_refl c = ground (
  arith,
  bytes_eq_refl c.id,
  bytes_eq_refl c.requirement,
  bytes_eq_refl c.command,
  bytes_eq_refl c.adapter,
  bytes_eq_refl c.path,
)

pub criterion_equal→eq : (a b : Criterion) → criterion_equal a b ≡ true → a ≡ b
unfolding criterion_equal
criterion_equal→eq a b h = ground (
  arith,
  bytes_eq→eq a.id b.id,
  bytes_eq→eq a.requirement b.requirement,
  bytes_eq→eq a.command b.command,
  bytes_eq→eq a.adapter b.adapter,
  bytes_eq→eq a.path b.path,
)
