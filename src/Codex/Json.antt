-- ===== src/Codex/Json.antt =====
-- codex_keys/src/codex_json.c: the value of a member of a JSON object, found by walking over the
-- text. A pointer into the text is the text from there on; a null pointer is none; the text ends
-- with its list.
pub mod Syntax
pub mod Walk
pub mod Skip
pub mod Member
use zephyr_applications.Common.{
  ℕ, zero, suc, ◌+◌, ◌-◌, Bool, true, false, not, ◌&&◌, ◌||◌, ◌==◌, if◌then◌else◌, List, [], ◌∷◌,
  ◌++◌, Option, none, some, length, take,
}
use zephyr_applications.Lockstep.Defs.{eq_bytes}

abbrev pub is_ws : ℕ → Bool
is_ws c = c == b' ' || c == 9 || c == 10 || c == 13

unfoldable pub skip_ws : List ℕ → List ℕ
skip_ws [] = []
skip_ws (c ∷ s) = let rest = skip_ws s in if is_ws c then rest else c ∷ s

-- skip_string behind the opening quote; what follows the closing one.
unfoldable pub skip_string : List ℕ → Option (List ℕ)
skip_string [] = none
skip_string (c ∷ []) = if c == b'"' then some [] else none
skip_string (c ∷ d ∷ s) =
    let escaped = skip_string s in
    let next = skip_string (d ∷ s) in
    if c == b'"' then some (d ∷ s) else if c == b'\\' then escaped else next

abbrev pub opens : ℕ → Bool
opens c = c == b'{' || c == b'['

abbrev pub closes : ℕ → Bool
closes c = c == b'}' || c == b']'

-- A walk over nested brackets, behind the first of them, `depth` brackets being open: `up` opens one
-- and `down` closes one, and the strings are passed over as skip_string does. What follows the last
-- bracket; none if the text ends before it.
unfoldable pub walk : (up down : ℕ → Bool) → (in_string : Bool) → ℕ → List ℕ → Option (List ℕ)
walk up down in_string depth [] = none
walk up down true depth (c ∷ []) = none
walk up down true depth (c ∷ d ∷ s) =
    let ended = walk up down false depth (d ∷ s) in
    let escaped = walk up down true depth s in
    let next = walk up down true depth (d ∷ s) in
    if c == b'"' then ended else if c == b'\\' then escaped else next
walk up down false depth (c ∷ s) =
    let string = walk up down true depth s in
    let deeper = walk up down false (depth + 1) s in
    let out = walk up down false (depth - 1) s in
    let next = walk up down false depth s in
    if c == b'"'
    then string
    else if up c
    then deeper
    else if down c
    then if depth == 1 then some s else out
    else next

-- The loop of skip_value over an object or an array.
abbrev pub skip_nested : (in_string : Bool) → ℕ → List ℕ → Option (List ℕ)
skip_nested = walk opens closes

-- `strchr(",}] \t\n\r", c)`
abbrev pub ends_literal : ℕ → Bool
ends_literal c = c == b',' || closes c || is_ws c

unfoldable pub skip_literal : List ℕ → List ℕ
skip_literal [] = []
skip_literal (c ∷ s) = let rest = skip_literal s in if ends_literal c then c ∷ s else rest

unfoldable pub skip_value : List ℕ → Option (List ℕ)
skip_value [] = some []
skip_value (c ∷ s) =
    let string = skip_string s in
    let nested = skip_nested false 1 s in
    if c == b'"' then string else if opens c then nested else some (skip_literal (c ∷ s))

-- The text between two pointers.
abbrev pub between : List ℕ → List ℕ → List ℕ
between from to = take (length from - length to) from

-- One member from its opening quote on: its name, its value, and what follows.
unfoldable pub read_member : List ℕ → Option (List ℕ × List ℕ × List ℕ)
read_member [] = none
read_member (q ∷ name) = if not (q == b'"') then none else elim (skip_string name) [
  | none ↦ none
  | some name_end ↦ elim (skip_ws name_end) [
    | [] ↦ none
    | colon ∷ behind ↦
        let value = skip_ws behind in
        if not (colon == b':') then none else elim (skip_value value) [
          | none ↦ none
          | some value_end ↦
              some
                (take (length name - length name_end - 1) name, between value value_end, value_end)
        ]
  ]
]

-- The loop of codex_json_member on fuel, from behind a brace or a comma.
unfoldable pub find_member : ℕ → List ℕ → List ℕ → Option (List ℕ)
find_member zero key p = none
find_member (suc fuel) key p = elim (read_member (skip_ws p)) [
  | none ↦ none
  | some (name, value, value_end) ↦ elim (skip_ws value_end) [
    | [] ↦ if eq_bytes name key then some value else none
    | c ∷ rest ↦
        let later = find_member fuel key rest in
        if eq_bytes name key then some value else if c == b',' then later else none
  ]
]

-- The bytes of the value: what the pointer and the length tell.
unfoldable pub codex_json_member : List ℕ → List ℕ → Option (List ℕ)
codex_json_member json key = elim (skip_ws json) [
  | [] ↦ none
  | c ∷ p ↦ if c == b'{' then find_member (length json) key p else none
]

unfoldable pub codex_json_str_eq : Option (List ℕ) → List ℕ → Bool
codex_json_str_eq none expect = false
codex_json_str_eq (some []) expect = false
codex_json_str_eq (some (q ∷ val)) expect =
    if not (length val == length expect + 1) || not (q == b'"')
    then false
    else eq_bytes (take (length expect) val) expect
