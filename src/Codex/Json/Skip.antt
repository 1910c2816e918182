-- ===== src/Codex/Json/Skip.antt =====
-- skip_string and skip_value pass over what was printed.
use zephyr_applications.Common.{
  ℕ, ◌≡◌, refl, ap, ◌∙◌, true, false, ◌||◌, ◌==◌, List, [], ◌∷◌, ◌++◌, some, All, arith,
}
use zephyr_applications.Codex.Json.Walk.{AreBrackets, nested-values, nested-fields, in_literal_lem}
use zephyr_applications.Common.{inl}
use zephyr_applications.Codex.Json.{
  walk, skip_nested, opens, closes, skip_literal, skip_value, skip_string, skip_nested,
  skip_literal, skip_value, ends_literal, opens, closes,
}
use zephyr_applications.Codex.Json.Syntax.{
  Piece, plain, escaped, Value, text, literal, array, object, pieces_text, print, IsPiece,
  in_literal, IsValue,
}

skip_string-plain :
    (c : ℕ) (s : List ℕ) → (c == b'"' || c == b'\\') ≡ false → skip_string (c ∷ s) ≡ skip_string s
unfolding skip_string
skip_string-plain c [] h = ground (arith, h)
skip_string-plain c (d ∷ s) h = ground (arith, h)

skip_string-quote : (s : List ℕ) → skip_string (b'"' ∷ s) ≡ some s
unfolding skip_string
skip_string-quote [] = refl
skip_string-quote (d ∷ s) = refl

pub skip_string-pieces :
    (ps : List Piece) (t : List ℕ)
    → All IsPiece ps
    → skip_string (pieces_text ps ++ (b'"' ∷ t)) ≡ some t
unfolding skip_string
skip_string-pieces [] t h = skip_string-quote t
skip_string-pieces (plain c ∷ ps) t h =
    skip_string-plain c (pieces_text ps ++ (b'"' ∷ t)) h.0 ∙ skip_string-pieces ps t h.1
skip_string-pieces (escaped c ∷ ps) t h = skip_string-pieces ps t h.1

-- Behind a value stands the end of what holds it, or a comma.
abbrev pub Ends : List ℕ → Type 0
Ends [] = Unit
Ends (c ∷ t) = ends_literal c ≡ true

literal-stops :
    (cs t : List ℕ) → All (λ x. in_literal x ≡ true) cs → Ends t → skip_literal (cs ++ t) ≡ t
unfolding skip_literal
literal-stops [] [] h e = refl
literal-stops [] (c ∷ t) h e = rw e
literal-stops (c ∷ cs) t h e =
    let (q, o, k, n, w) = in_literal_lem c h.0 in rw n (literal-stops cs t h.1 e)

all_brackets : AreBrackets opens closes
all_brackets = record {
  brace = refl;
  end_brace = (refl, refl);
  bracket = inl (refl, refl, refl);
  other = λ c o k. (o, k);
}

last_bracket : (t : List ℕ) → skip_nested false 1 (b']' ∷ t) ≡ some t
unfolding walk
last_bracket t = refl

last_brace : (t : List ℕ) → skip_nested false 1 (b'}' ∷ t) ≡ some t
unfolding walk
last_brace t = refl

-- The text of every value is passed over whole, whatever it nests.
pub skip_value-print :
    (v : Value) (t : List ℕ) → IsValue v → Ends t → skip_value (print v t) ≡ some t
unfolding print IsValue skip_value
skip_value-print (text ps) t h e = skip_string-pieces ps t h
skip_value-print (literal []) t h e = absurd h
skip_value-print (literal (c ∷ cs)) t h e =
    let (q, o, k, n, w) = in_literal_lem c h.0 in rw (q, o) (ap some (literal-stops (c ∷ cs) t h e))
skip_value-print (array vs) t h e =
    nested-values opens closes all_brackets 0 true vs (b']' ∷ t) h ∙ last_bracket t
skip_value-print (object fs) t h e =
    nested-fields opens closes all_brackets 0 true fs (b'}' ∷ t) h ∙ last_brace t
