-- ===== src/Codex/Receive/Whole.antt =====
-- Fragments of an object are put together.
use zephyr_applications.Common.{
  ℕ, zero, suc, ◌+◌, ◌-◌, ◌≡◌, inl, inr, refl, ap, sym, ◌∙◌, Bool, true, false, ◌||◌, ◌==◌, leb,
  List, [], ◌∷◌, ◌++◌, Option, none, some, arith, Option-cases, Bool-cases,
}
use zephyr_applications.Common.Int.{pos}
use zephyr_applications.Codex.Json.{walk}
use zephyr_applications.Codex.Json.Walk.{AreBrackets, nested-fields}
use zephyr_applications.Codex.Json.Syntax.{object, Fields, print, print_fields, IsValue}
use zephyr_applications.Codex.Receive.{complete_from, rx_object_complete}

abbrev open_brace : ℕ → Bool
open_brace c = c == b'{'

abbrev end_brace : ℕ → Bool
end_brace c = c == b'}'

abbrev braces : Bool → ℕ → List ℕ → Option (List ℕ)
braces = walk open_brace end_brace

or_left : (a b : Bool) → (a || b) ≡ false → a ≡ false
or_left true b h = ground arith
or_left false b h = refl

braces-AreBrackets : AreBrackets open_brace end_brace
braces-AreBrackets = record {
  brace = refl;
  end_brace = (refl, refl);
  bracket = inr (refl, refl, refl, refl);
  other = λ c o k. (or_left (c == b'{') (c == b'[') o, or_left (c == b'}') (c == b']') k);
}

abbrev is_some : Option (List ℕ) → Bool
is_some none = false
is_some (some s) = true

plus_one : (d : ℕ) → suc (suc d) ≡ suc d + 1
plus_one d = omega arith

less_one : (d : ℕ) → suc d ≡ suc (suc d) - 1
less_one d = omega arith

-- The buffer is complete exactly if the walk over its braces gets to the end of the first object.
complete_from-walk :
    (in_string : Bool) (d : ℕ) (s : List ℕ)
    → complete_from in_string (pos (suc d)) s ≡ is_some (braces in_string (suc d) s)
unfolding complete_from walk
complete_from-walk in_string d [] = refl
complete_from-walk true d (c ∷ []) = refl
complete_from-walk true d (c ∷ e ∷ s) = ground (
  arith,
  complete_from-walk true d s,
  complete_from-walk false d (e ∷ s),
  complete_from-walk true d (e ∷ s),
)
complete_from-walk false zero (c ∷ s) = elim (Bool-cases (c == b'"')) [
  | inl q ↦ rw q (complete_from-walk true zero s)
  | inr q ↦ elim (Bool-cases (c == b'{')) [
    | inl o ↦
        rw (q, o)
          (complete_from-walk false 1 s ∙ ap (λ n. is_some (braces false n s)) (plus_one zero))
    | inr o ↦ elim (Bool-cases (c == b'}')) [
      | inl k ↦ rw (q, o, k)
      | inr k ↦ rw (q, o, k) (complete_from-walk false zero s)
    ]
  ]
]
complete_from-walk false (suc d) (c ∷ s) = elim (Bool-cases (c == b'"')) [
  | inl q ↦ rw q (complete_from-walk true (suc d) s)
  | inr q ↦ elim (Bool-cases (c == b'{')) [
    | inl o ↦
        rw (q, o)
          (complete_from-walk false (suc (suc d)) s
            ∙ ap (λ n. is_some (braces false n s)) (plus_one (suc d)))
    | inr o ↦ elim (Bool-cases (c == b'}')) [
      | inl k ↦
          let more : (suc (suc d) == 1) ≡ false = ground arith in
          let open_still : (leb (suc d) 0) ≡ false = ground arith in
          rw (q, o, k, more, open_still)
            (complete_from-walk false d s ∙ ap (λ n. is_some (braces false n s)) (less_one d))
      | inr k ↦ rw (q, o, k) (complete_from-walk false (suc d) s)
    ]
  ]
]

walk-append :
    (in_string : Bool) (d : ℕ) (s t r : List ℕ)
    → braces in_string d s ≡ some r
    → braces in_string d (s ++ t) ≡ some (r ++ t)
unfolding walk
walk-append in_string d [] t r h = ground (arith, h)
walk-append true d (c ∷ []) t r h = ground (arith, h)
walk-append true d (c ∷ e ∷ s) t r h = ground (
  arith,
  h,
  walk-append true d s t r,
  walk-append false d (e ∷ s) t r,
  walk-append true d (e ∷ s) t r,
)
walk-append false d (c ∷ s) t r h = ground (
  arith,
  h,
  walk-append true d s t r,
  walk-append false (d + 1) s t r,
  walk-append false (d - 1) s t r,
  walk-append false d s t r,
)

-- The text of an object is complete, and nothing that a part of it is cut off from is.
pub object_complete :
    (fs : Fields) → IsValue (object fs) → rx_object_complete (print (object fs) []) ≡ true
unfolding rx_object_complete complete_from print IsValue walk
object_complete fs h =
    complete_from-walk false zero (print_fields true fs (b'}' ∷ []))
    ∙ ap is_some (nested-fields open_brace end_brace braces-AreBrackets 0 true fs (b'}' ∷ []) h)

pub prefix_incomplete :
    (fs : Fields) (p : List ℕ) (c : ℕ) (rest : List ℕ)
    → IsValue (object fs)
    → p ++ (c ∷ rest) ≡ print (object fs) []
    → rx_object_complete p ≡ false
unfolding rx_object_complete complete_from print IsValue walk
prefix_incomplete fs [] c rest h e = refl
prefix_incomplete fs (q ∷ p) c rest h e =
    let body = print_fields true fs (b'}' ∷ []) in
    let first : q ≡ b'{' = ground (arith, e) in
    let tail : p ++ (c ∷ rest) ≡ body = ground (arith, e) in
    let ends : braces false 1 body ≡ some [] =
      nested-fields open_brace end_brace braces-AreBrackets 0 true fs (b'}' ∷ []) h in
    rw first (
      complete_from-walk false zero p ∙ elim (Option-cases (braces false 1 p)) [
        | inl e' ↦ ap is_some e'
        | inr (r, e') ↦
            let over =
              sym (walk-append false 1 p (c ∷ rest) r e') ∙ ap (braces false 1) tail ∙ ends in
            absurd (some_rest r over)
      ])
  where
    some_rest : (r : List ℕ) → some (r ++ (c ∷ rest)) ≡ some [] → ⊥
    some_rest [] over = ground (arith, over)
    some_rest (x ∷ r) over = ground (arith, over)
