-- ===== src/Codex/Receive.antt =====
-- The host's side of codex_keys/src/codex_hid.c: fragments are put together until the buffer holds a
-- JSON object, which goes to codex_rpc_handle.
pub mod Whole
pub mod Feed
use zephyr_applications.Common.{
  ℕ, zero, suc, ◌+◌, Bool, true, false, not, ◌&&◌, ◌==◌, leb, if◌then◌else◌, List, [], ◌∷◌, ◌++◌,
  Option, none, some, length, take,
}
use zephyr_applications.Common.Int.{ℤ, pos, negsuc, is_zero}
use zephyr_applications.Common.Text.{codes}
use zephyr_applications.Lockstep.Defs.{eq_bytes}
use zephyr_applications.Codex.{codex_json_max, set_report}

-- `depth++` and `--depth`
abbrev pub deeper : ℤ → ℤ
deeper (pos n) = pos (suc n)
deeper (negsuc zero) = pos zero
deeper (negsuc (suc n)) = negsuc n

abbrev pub shallower : ℤ → ℤ
shallower (pos zero) = negsuc zero
shallower (pos (suc n)) = pos n
shallower (negsuc n) = negsuc (suc n)

-- The loop of rx_object_complete over what is left of the buffer.
unfoldable pub complete_from : (in_string : Bool) → ℤ → List ℕ → Bool
complete_from in_string depth [] = false
complete_from true depth (c ∷ []) = false
complete_from true depth (c ∷ d ∷ s) =
    let escaped = complete_from true depth s in
    let ended = complete_from false depth (d ∷ s) in
    let next = complete_from true depth (d ∷ s) in
    if c == b'\\' then escaped else if c == b'"' then ended else next
complete_from false depth (c ∷ s) =
    let string = complete_from true depth s in
    let opened = complete_from false (deeper depth) s in
    let closed = complete_from false (shallower depth) s in
    let next = complete_from false depth s in
    if c == b'"'
    then string
    else if c == b'{'
    then opened
    else if c == b'}'
    then if is_zero (shallower depth) then true else closed
    else next

unfoldable pub rx_object_complete : List ℕ → Bool
rx_object_complete buf = complete_from false (pos 0) buf

-- The loop that looks for a brace.
unfoldable pub from_brace : List ℕ → List ℕ
from_brace [] = []
from_brace (c ∷ s) = let rest = from_brace s in if c == b'{' then c ∷ s else rest

abbrev pub is_nil : List ℕ → Bool
is_nil [] = true
is_nil (c ∷ s) = false

-- A payload that looks like the start of a request.
abbrev pub starts_request : List ℕ → Bool
starts_request payload = leb 9 (length payload) && eq_bytes (take 9 payload) (codes "{\"method\"")

-- rx_append: the buffer after it, and the text that is handled.
unfoldable pub rx_append : List ℕ → List ℕ → List ℕ × Option (List ℕ)
rx_append rx_buf payload =
    let held = if not (is_nil rx_buf) && starts_request payload then [] else rx_buf in
    let added = if is_nil held then from_brace payload else payload in
    let whole = held ++ added in
    if is_nil added
    then (held, none)
    else if leb codex_json_max (length held + length added)
    then ([], none)
    else if rx_object_complete whole
    then ([], some whole)
    else (whole, none)

-- set_report with the append: a report that is ignored changes nothing.
unfoldable pub receive_report : List ℕ → List ℕ → List ℕ × Option (List ℕ)
receive_report rx_buf bytes = elim (set_report bytes) [
  | none ↦ (rx_buf, none)
  | some payload ↦ rx_append rx_buf payload
]
