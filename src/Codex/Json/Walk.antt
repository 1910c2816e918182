-- ===== src/Codex/Json/Walk.antt =====
-- A walk over brackets passes over a value's text whole, whatever the value nests.
use zephyr_applications.Common.{
  ℕ, suc, ◌+◌, ◌-◌, ◌≡◌, ◌⊎◌, inl, inr, refl, ap, sym, ◌∙◌, Bool, true, false, not, ◌||◌, ◌==◌,
  List, [], ◌∷◌, ◌++◌, All, arith,
}
use zephyr_applications.Codex.Json.{walk, is_ws, ends_literal, opens, closes}
use zephyr_applications.Codex.Json.Syntax.{
  Piece, plain, escaped, Value, text, literal, array, object, Values, no_values, value, Fields,
  no_fields, field, pieces_text, sep, print, print_values, print_fields, IsPiece, in_literal,
  IsLiteral, IsGap, IsValue, AreValues, AreFields,
}

or_false : (a b : Bool) → (a || b) ≡ false → (a ≡ false) × (b ≡ false)
or_false true b h = ground arith
or_false false b h = (refl, h)

pub not-true : (b : Bool) → not b ≡ true → b ≡ false
not-true true h = ground arith
not-true false h = refl

-- What a byte of a literal is not.
pub in_literal_lem :
    (c : ℕ)
    → in_literal c ≡ true
    → ((c == b'"') ≡ false)
      × (opens c ≡ false)
      × (closes c ≡ false)
      × (ends_literal c ≡ false)
      × (is_ws c ≡ false)
in_literal_lem c h =
    let all = or_false (ends_literal c || opens c) (c == b'"') (not-true _ h) in
    let structural = or_false (ends_literal c) (opens c) all.0 in
    let comma = or_false (c == b',' || closes c) (is_ws c) structural.0 in
    (all.1, structural.1, (or_false (c == b',') (closes c) comma.0).1, structural.0, comma.1)

pub IsLiteral-All : (cs : List ℕ) → IsLiteral cs → All (λ x. in_literal x ≡ true) cs
IsLiteral-All [] h = absurd h
IsLiteral-All (c ∷ cs) h = h

-- What white space is not.
pub is_ws_lem :
    (c : ℕ)
    → is_ws c ≡ true
    → ((c == b'"') ≡ false) × (opens c ≡ false) × (closes c ≡ false) × (ends_literal c ≡ true)
is_ws_lem c h = ground (arith, h)

-- The brackets that a walk counts: braces, and square brackets or not.
pub record AreBrackets (up down : ℕ → Bool) : Type 0 where
  pub brace : up b'{' ≡ true
  pub end_brace : (up b'}' ≡ false) × (down b'}' ≡ true)
  pub bracket :
      ((up b'[' ≡ true) × (up b']' ≡ false) × (down b']' ≡ true))
      ⊎ ((up b'[' ≡ false) × (down b'[' ≡ false) × (up b']' ≡ false) × (down b']' ≡ false))
  pub other : (c : ℕ) → opens c ≡ false → closes c ≡ false → (up c ≡ false) × (down c ≡ false)

module _ (up down : ℕ → Bool) (brackets : AreBrackets up down) where
  nested-plain :
      (d c : ℕ) (s : List ℕ)
      → (c == b'"' || c == b'\\') ≡ false
      → walk up down true d (c ∷ s) ≡ walk up down true d s
  unfolding walk
  nested-plain d c [] h = ground (arith, h)
  nested-plain d c (e ∷ s) h = ground (arith, h)

  nested-quote : (d : ℕ) (s : List ℕ) → walk up down true d (b'"' ∷ s) ≡ walk up down false d s
  unfolding walk
  nested-quote d [] = refl
  nested-quote d (e ∷ s) = refl

  nested-pieces :
      (d : ℕ) (ps : List Piece) (t : List ℕ)
      → All IsPiece ps
      → walk up down true d (pieces_text ps ++ (b'"' ∷ t)) ≡ walk up down false d t
  unfolding walk
  nested-pieces d [] t h = nested-quote d t
  nested-pieces d (plain c ∷ ps) t h =
      nested-plain d c (pieces_text ps ++ (b'"' ∷ t)) h.0 ∙ nested-pieces d ps t h.1
  nested-pieces d (escaped c ∷ ps) t h = nested-pieces d ps t h.1

  nested-other :
      (d c : ℕ) (t : List ℕ)
      → (c == b'"') ≡ false
      → opens c ≡ false
      → closes c ≡ false
      → walk up down false d (c ∷ t) ≡ walk up down false d t
  unfolding walk
  nested-other d c t q o k = let (u, n) = brackets.other c o k in rw (q, u, n)

  nested-literal :
      (d : ℕ) (cs t : List ℕ)
      → All (λ x. in_literal x ≡ true) cs
      → walk up down false d (cs ++ t) ≡ walk up down false d t
  unfolding walk
  nested-literal d [] t h = refl
  nested-literal d (c ∷ cs) t h =
      let (q, o, k, e, w) = in_literal_lem c h.0 in
      nested-other d c (cs ++ t) q o k ∙ nested-literal d cs t h.1

  nested-gap :
      (d : ℕ) (gap t : List ℕ)
      → IsGap gap
      → walk up down false d (gap ++ t) ≡ walk up down false d t
  unfolding walk
  nested-gap d [] t h = refl
  nested-gap d (c ∷ gap) t h =
      let (q, o, k, e) = is_ws_lem c h.0 in
      nested-other d c (gap ++ t) q o k ∙ nested-gap d gap t h.1

  nested_sep :
      (d : ℕ) (first : Bool) (t : List ℕ)
      → walk up down false d (sep first t) ≡ walk up down false d t
  unfolding walk
  nested_sep d true t = refl
  nested_sep d false t = nested-other d b',' t refl refl refl

  -- A bracket that closes one of at least two.
  nested_close :
      (d c : ℕ) (t : List ℕ)
      → (c == b'"') ≡ false
      → up c ≡ false
      → down c ≡ true
      → walk up down false (suc d + 1) (c ∷ t) ≡ walk up down false (suc d) t
  unfolding walk
  nested_close d c t q o k =
      let more : (suc d + 1 == 1) ≡ false = ground arith in
      let back : suc d + 1 - 1 ≡ suc d = omega arith in
      rw (q, o, k, more) (ap (λ n. walk up down false n t) back)

  nested_deeper :
      (d : ℕ) (t : List ℕ) → walk up down false (suc d + 1) t ≡ walk up down false (suc (suc d)) t
  nested_deeper d t =
      ap (λ n. walk up down false n t) (let e : suc d + 1 ≡ suc (suc d) = omega arith in e)

  nested_open :
      (d c : ℕ) (t : List ℕ)
      → (c == b'"') ≡ false
      → up c ≡ true
      → walk up down false (suc d) (c ∷ t) ≡ walk up down false (suc (suc d)) t
  unfolding walk
  nested_open d c t q u = rw (q, u) (nested_deeper d t)

  -- Square brackets around a text that is passed over, whether or not they count.
  array_text :
      (d : ℕ) (inside : List ℕ → List ℕ)
      → ((n : ℕ) (u : List ℕ)
          → walk up down false (suc n) (inside u) ≡ walk up down false (suc n) u)
      → (t : List ℕ)
      → ((up b'[' ≡ true) × (up b']' ≡ false) × (down b']' ≡ true))
        ⊎ ((up b'[' ≡ false) × (down b'[' ≡ false) × (up b']' ≡ false) × (down b']' ≡ false))
      → walk up down false (suc d) (b'[' ∷ inside (b']' ∷ t)) ≡ walk up down false (suc d) t
  unfolding walk
  array_text d inside h t (inl (o, u, n)) =
      nested_open d b'[' (inside (b']' ∷ t)) refl o
      ∙ h (suc d) (b']' ∷ t)
      ∙ sym (nested_deeper d (b']' ∷ t))
      ∙ nested_close d b']' t refl u n
  array_text d inside h t (inr (o, p, u, n)) = rw (o, p) (h d (b']' ∷ t) ∙ rw (u, n))

  mutual
    unfolding print IsValue walk

    nested-print :
        (d : ℕ) (v : Value) (t : List ℕ)
        → IsValue v
        → walk up down false (suc d) (print v t) ≡ walk up down false (suc d) t
    nested-print d (text ps) t h = nested-pieces (suc d) ps t h
    nested-print d (literal cs) t h = nested-literal (suc d) cs t (IsLiteral-All cs h)
    nested-print d (array vs) t h =
        array_text d (print_values true vs) (λ n u. nested-values n true vs u h) t brackets.bracket
    nested-print d (object fs) t h =
        nested_open d b'{' (print_fields true fs (b'}' ∷ t)) refl brackets.brace
        ∙ nested-fields (suc d) true fs (b'}' ∷ t) h
        ∙ sym (nested_deeper d (b'}' ∷ t))
        ∙ nested_close d b'}' t refl brackets.end_brace.0 brackets.end_brace.1

    pub nested-values :
        (d : ℕ) (first : Bool) (vs : Values) (t : List ℕ)
        → AreValues vs
        → walk up down false (suc d) (print_values first vs t) ≡ walk up down false (suc d) t
    nested-values d first (no_values gap) t h = nested-gap (suc d) gap t h
    nested-values d first (value before v behind vs) t (b, hv, e, rest) =
        let more = behind ++ print_values false vs t in
        nested_sep (suc d) first (before ++ print v more)
        ∙ nested-gap (suc d) before (print v more) b
        ∙ nested-print d v more hv
        ∙ nested-gap (suc d) behind (print_values false vs t) e
        ∙ nested-values d false vs t rest

    pub nested-fields :
        (d : ℕ) (first : Bool) (fs : Fields) (t : List ℕ)
        → AreFields fs
        → walk up down false (suc d) (print_fields first fs t) ≡ walk up down false (suc d) t
    nested-fields d first (no_fields gap) t h = nested-gap (suc d) gap t h
    nested-fields d first (field g k v fs) t ((b, n, c, e), hk, hv, rest) =
        let more = g.behind ++ print_fields false fs t in
        let worth = g.colon_end ++ print v more in
        let named = b'"' ∷ (pieces_text k ++ (b'"' ∷ (g.name_end ++ (b':' ∷ worth)))) in
        nested_sep (suc d) first (g.before ++ named)
        ∙ nested-gap (suc d) g.before named b
        ∙ nested-pieces (suc d) k (g.name_end ++ (b':' ∷ worth)) hk
        ∙ nested-gap (suc d) g.name_end (b':' ∷ worth) n
        ∙ nested-other (suc d) b':' worth refl refl refl
        ∙ nested-gap (suc d) g.colon_end (print v more) c
        ∙ nested-print d v more hv
        ∙ nested-gap (suc d) g.behind (print_fields false fs t) e
        ∙ nested-fields d false fs t rest
