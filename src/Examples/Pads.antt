-- ===== src/Examples/Pads.antt =====
-- The key pad: a request of the host in two fragments, three scans, a turn of the dial.
use zephyr_applications.Common.{
  ◌||◌, Bool-cases, ◌==◌, ℕ, true, false, Bool, List, [], ◌∷◌, arith, ◌≡◌, refl, inl, inr, ◌+◌, ◌<◌,
  length, if◌then◌else◌, Option, none, some, All, last,
}
use zephyr_applications.Common.{◌++◌, map}
use zephyr_applications.Common.Int.{pos, negsuc, pos_part, neg_part}
use zephyr_applications.Common.Text.{codes}
use zephyr_applications.Codex.{codex_json_max}
use zephyr_applications.Codex.Json.{codex_json_member}
use zephyr_applications.Codex.Json.Syntax.{
  Gaps, plain, text, literal, object, Fields, Piece, no_fields, field, print, IsValue, IsPiece,
}
use zephyr_applications.Codex.Json.Member.{first_field, codex_json_member-print}
use zephyr_applications.Codex.Receive.{starts_request}
use zephyr_applications.Codex.Receive.Feed.{feed, feed-object}
use zephyr_applications.Lockstep.Defs.{eq_bytes}
use zephyr_applications.Codex.Keys.Encoder.{Encoder}
use zephyr_applications.Codex.Keys.Turning.{steps, polls, polls-steps}

abbrev plains : List ℕ → List Piece
plains = map plain

-- A blank before and behind a colon.
abbrev gaps : Gaps
gaps = record { before = 32 ∷ []; name_end = []; colon_end = 32 ∷ []; behind = [] }

abbrev request : Fields
request =
    field (record gaps { before = [] }) (plains (codes "method"))
      (text (plains (codes "sys.version")))
      (field gaps (plains (codes "id")) (literal (codes "17")) (no_fields (10 ∷ [])))

abbrev plain_text : List ℕ → Bool
plain_text [] = true
plain_text (c ∷ cs) = if c == b'"' || c == b'\\' then false else plain_text cs

plains-IsPiece : (cs : List ℕ) → plain_text cs ≡ true → All IsPiece (plains cs)
plains-IsPiece [] h = tt
plains-IsPiece (c ∷ cs) h = elim (Bool-cases (c == b'"' || c == b'\\')) [
  | inl e ↦ ground (arith, h, e)
  | inr e ↦ (e, plains-IsPiece cs (ground (arith, h, e)))
]

request-IsValue : IsValue (object request)
unfolding IsValue
request-IsValue = (
  (tt, tt, (refl, tt), tt),
  plains-IsPiece (codes "method") refl,
  plains-IsPiece (codes "sys.version") refl,
  (
    ((refl, tt), tt, (refl, tt), tt),
    plains-IsPiece (codes "id") refl,
    (refl, (refl, tt)),
    (refl, tt),
  ),
)

abbrev head : List ℕ
head = codes "{\"method\": \"sys.ver"

abbrev tail : List ℕ
tail = codes "sion\", \"id\": 17" ++ (10 ∷ codes "}")

request_printed : head ++ (tail ++ []) ≡ print (object request) []
unfolding print
request_printed = refl

tail_goes_on : starts_request tail ≡ false
unfolding eq_bytes
tail_goes_on = refl

abbrev method_text : List ℕ
method_text = codes "\"sys.version\""

abbrev without_nul : List ℕ → Bool
without_nul [] = true
without_nul (c ∷ cs) = if c == 0 then false else without_nul cs

request_small : length (print (object request) []) < codex_json_max
unfolding print
request_small = ground arith

-- Two keys go down; the second pad cannot be read; all keys are up.
abbrev readings : List (List (Option ℕ))
readings =
    (some 224 ∷ some 240 ∷ some 208 ∷ [])
    ∷ (some 240 ∷ none ∷ some 240 ∷ [])
    ∷ (some 240 ∷ some 240 ∷ some 240 ∷ [])
    ∷ []

abbrev turned : Encoder
turned = record { encoder_last = negsuc 0; encoder_synced = true }

codex_json_member-print_example :
    codex_json_member ((32 ∷ 10 ∷ []) ++ print (object request) []) (codes "id")
    ≡ first_field (codes "id") request
codex_json_member-print_example =
    codex_json_member-print (codes "id") (32 ∷ 10 ∷ []) request (refl, (refl, tt)) (request-IsValue)

feed-object_example : feed [] (head ∷ (tail ∷ [])) ≡ ([], print (object request) [] ∷ [])
feed-object_example =
    feed-object request head (tail ∷ []) (request-IsValue) request_small refl
      ((refl, tail_goes_on), tt) request_printed

polls-steps_example :
    (let (last, es) = polls turned (pos 3 ∷ negsuc 1 ∷ pos 5 ∷ []) in
      pos_part last.encoder_last + neg_part turned.encoder_last + steps true es
      ≡ pos_part turned.encoder_last + neg_part last.encoder_last + steps false es)
polls-steps_example =
    polls-steps turned (pos 3 ∷ negsuc 1 ∷ pos 5 ∷ []) refl
      (ground arith, ground arith, (ground arith, ground arith, (ground arith, ground arith, tt)))
