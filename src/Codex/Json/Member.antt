-- ===== src/Codex/Json/Member.antt =====
-- The member that is found is the one that was printed.
use zephyr_applications.Common.{
  ap₂, ℕ, zero, suc, ◌-◌, ◌<◌, ◌≤◌, ◌≡◌, refl, ap, sym, ◌∙◌, Bool, true, false, ◌==◌, if◌then◌else◌,
  List, [], ◌∷◌, ◌++◌, Option, none, some, All, arith, length, take, append_assoc, length-append,
  take-append_le, take-length,
}
use zephyr_applications.Lockstep.Defs.{eq_bytes}
use zephyr_applications.Codex.Json.{
  is_ws, skip_ws, skip_string, skip_value, between, read_member, find_member, codex_json_member,
}
use zephyr_applications.Codex.Json.Skip.{skip_string-pieces, skip_value-print, Ends}
use zephyr_applications.Codex.Json.Walk.{in_literal_lem, is_ws_lem}
use zephyr_applications.Codex.Json.Syntax.{
  Piece, Value, text, literal, array, object, Values, no_values, value, Fields, no_fields, field,
  Gaps, IsGap, AreGaps, pieces_text, sep, print, print_values, print_fields, IsPiece, IsValue,
  AreFields,
}

-- The text of the value under the first member with the name.
abbrev pub first_field : List ℕ → Fields → Option (List ℕ)
first_field key (no_fields gap) = none
first_field key (field g k v fs) =
    let later = first_field key fs in
    if eq_bytes (pieces_text k) key then some (print v []) else later

sep-append : (first : Bool) (s t : List ℕ) → sep first (s ++ t) ≡ sep first s ++ t
sep-append true s t = refl
sep-append false s t = refl

-- A member with the text of its value and of what follows.
abbrev member : Gaps → List Piece → List ℕ → List ℕ
member g k rest =
    g.before ++ (b'"' ∷ (pieces_text k ++ (b'"' ∷ (g.name_end ++ (b':' ∷ (g.colon_end ++ rest))))))

member-append : (g : Gaps) (k : List Piece) (s t : List ℕ) → member g k (s ++ t) ≡ member g k s ++ t
member-append g k s t =
    let worth = g.colon_end ++ s in
    let colon = g.name_end ++ (b':' ∷ worth) in
    let name = pieces_text k ++ (b'"' ∷ colon) in
    ap (λ x. g.before ++ (b'"' ∷ (pieces_text k ++ (b'"' ∷ (g.name_end ++ (b':' ∷ x))))))
      (sym (append_assoc g.colon_end s t))
    ∙ ap (λ x. g.before ++ (b'"' ∷ (pieces_text k ++ (b'"' ∷ x))))
        (sym (append_assoc g.name_end (b':' ∷ worth) t))
    ∙ ap (λ x. g.before ++ (b'"' ∷ x)) (sym (append_assoc (pieces_text k) (b'"' ∷ colon) t))
    ∙ sym (append_assoc g.before (b'"' ∷ name) t)

mutual
  unfolding print

  print-append : (v : Value) (s t : List ℕ) → print v (s ++ t) ≡ print v s ++ t
  print-append (text ps) s t = ap (λ x. b'"' ∷ x) (sym (append_assoc (pieces_text ps) (b'"' ∷ s) t))
  print-append (literal cs) s t = sym (append_assoc cs s t)
  print-append (array vs) s t = ap (λ x. b'[' ∷ x) (values-append true vs (b']' ∷ s) t)
  print-append (object fs) s t = ap (λ x. b'{' ∷ x) (fields-append true fs (b'}' ∷ s) t)

  values-append :
      (first : Bool) (vs : Values) (s t : List ℕ)
      → print_values first vs (s ++ t) ≡ print_values first vs s ++ t
  values-append first (no_values gap) s t = sym (append_assoc gap s t)
  values-append first (value before v behind vs) s t =
      let more = behind ++ print_values false vs s in
      ap (λ x. sep first (before ++ print v x))
        (ap (λ x. behind ++ x) (values-append false vs s t)
          ∙ sym (append_assoc behind (print_values false vs s) t))
      ∙ ap (λ x. sep first (before ++ x)) (print-append v more t)
      ∙ ap (sep first) (sym (append_assoc before (print v more) t))
      ∙ sep-append first (before ++ print v more) t

  fields-append :
      (first : Bool) (fs : Fields) (s t : List ℕ)
      → print_fields first fs (s ++ t) ≡ print_fields first fs s ++ t
  fields-append first (no_fields gap) s t = sym (append_assoc gap s t)
  fields-append first (field g k v fs) s t =
      let more = g.behind ++ print_fields false fs s in
      ap (λ x. sep first (member g k x))
        (ap (print v) (
            ap (λ x. g.behind ++ x) (fields-append false fs s t)
            ∙ sym (append_assoc g.behind (print_fields false fs s) t))
          ∙ print-append v more t)
      ∙ ap (sep first) (member-append g k (print v more) t)
      ∙ sep-append first (member g k (print v more)) t

cut_off : (n : ℕ) (a b : List ℕ) → n ≡ length a → take n (a ++ b) ≡ a
cut_off n a b e = take-append_le n a b (omega (arith, e)) ∙ take-length n a (omega (arith, e))

skip_ws-print : (v : Value) (t : List ℕ) → IsValue v → skip_ws (print v t) ≡ print v t
unfolding skip_ws print IsValue
skip_ws-print (text ps) t h = refl
skip_ws-print (literal []) t h = absurd h
skip_ws-print (literal (c ∷ cs)) t h = let (q, o, k, n, w) = in_literal_lem c h.0 in rw w
skip_ws-print (array vs) t h = refl
skip_ws-print (object fs) t h = refl

skip_ws-gap : (gap t : List ℕ) → IsGap gap → skip_ws (gap ++ t) ≡ skip_ws t
unfolding skip_ws
skip_ws-gap [] t h = refl
skip_ws-gap (c ∷ gap) t h = rw h.0 (skip_ws-gap gap t h.1)

stays : (c : ℕ) (s : List ℕ) → is_ws c ≡ false → skip_ws (c ∷ s) ≡ c ∷ s
unfolding skip_ws
stays c s h = rw h refl

-- A member that is read: its name is `k` and what follows its value is `t`.
read_member-lem :
    (name name_end behind worth t : List ℕ)
    → skip_string name ≡ some name_end
    → skip_ws name_end ≡ b':' ∷ behind
    → skip_ws behind ≡ worth
    → skip_value worth ≡ some t
    → read_member (b'"' ∷ name)
      ≡ some (take (length name - length name_end - 1) name, between worth t, t)
unfolding read_member
read_member-lem name name_end behind worth t a b c d =
    rw (a, b, c, d)
      (ap {B = Option (List ℕ × List ℕ × List ℕ)}
        (λ x. some (take (length name - length name_end - 1) name, between x t, t)) c)

read_member-print :
    (g : Gaps) (k : List Piece) (v : Value) (t : List ℕ)
    → AreGaps g
    → All IsPiece k
    → IsValue v
    → Ends t
    → read_member (skip_ws (member g k (print v t))) ≡ some (pieces_text k, print v [], t)
read_member-print g k v t (b, n, c, u) hk hv e =
    let worth = g.colon_end ++ print v t in
    let name_end = g.name_end ++ (b':' ∷ worth) in
    let name = pieces_text k ++ (b'"' ∷ name_end) in
    let name_cut : take (length name - length name_end - 1) name ≡ pieces_text k =
      cut_off (length name - length name_end - 1) (pieces_text k) (b'"' ∷ name_end)
        (omega (arith, length-append (pieces_text k) (b'"' ∷ name_end))) in
    let value_cut : between (print v t) t ≡ print v [] =
      ap (λ x. between x t) (print-append v [] t)
      ∙ cut_off (length (print v [] ++ t) - length t) (print v []) t
          (omega (arith, length-append (print v []) t)) in
    ap read_member (skip_ws-gap g.before (b'"' ∷ name) b ∙ stays b'"' name refl)
    ∙ read_member-lem name name_end worth (print v t) t (skip_string-pieces k name_end hk)
        (skip_ws-gap g.name_end (b':' ∷ worth) n ∙ stays b':' worth refl)
        (skip_ws-gap g.colon_end (print v t) c ∙ skip_ws-print v t hv) (skip_value-print v t hv e)
    ∙ ap₂ {C = Option (List ℕ × List ℕ × List ℕ)} (λ a b. some (a, b, t)) name_cut value_cut

-- How many members there are.
abbrev count : Fields → ℕ
count (no_fields gap) = 0
count (field g k v fs) = suc (count fs)

length-print : (v : Value) (t : List ℕ) → length t ≤ length (print v t)
length-print v t = omega (arith, ap length (print-append v [] t), length-append (print v []) t)

length-member : (g : Gaps) (k : List Piece) (t : List ℕ) → length t < length (member g k t)
length-member g k t = omega (
  arith,
  ap length (member-append g k [] t),
  length-append (member g k []) t,
  length-append g.before
      (b'"' ∷ (pieces_text k ++ (b'"' ∷ (g.name_end ++ (b':' ∷ (g.colon_end ++ [])))))),
)

length-sep : (first : Bool) (t : List ℕ) → length t ≤ length (sep first t)
length-sep true t = omega arith
length-sep false t = omega arith

count-length :
    (first : Bool) (fs : Fields) (t : List ℕ) → count fs ≤ length (print_fields first fs t)
unfolding print
count-length first (no_fields gap) t = omega arith
count-length first (field g k v fs) t =
    let more = g.behind ++ print_fields false fs t in
    omega (
      arith,
      length-sep first (member g k (print v more)),
      length-member g k (print v more),
      length-print v more,
      length-append g.behind (print_fields false fs t),
      count-length false fs t,
    )

read_none : (u : List ℕ) → read_member (skip_ws (b'}' ∷ u)) ≡ none
unfolding read_member skip_ws
read_none u = refl

find_none :
    (fuel : ℕ) (key p : List ℕ)
    → read_member (skip_ws p) ≡ none
    → find_member (suc fuel) key p ≡ none
unfolding find_member
find_none fuel key p e = ground (arith, e)

find_some :
    (fuel c : ℕ) (key p name val t rest : List ℕ)
    → read_member (skip_ws p) ≡ some (name, val, t)
    → skip_ws t ≡ c ∷ rest
    → find_member (suc fuel) key p ≡ (
        if eq_bytes name key
        then some val
        else if c == b','
        then find_member fuel key rest
        else none)
unfolding find_member
find_some fuel c key p name val t rest e w = ground (arith, e, w)

-- White space in front of what ends a value.
gap-Ends : (gap t : List ℕ) → IsGap gap → Ends t → Ends (gap ++ t)
gap-Ends [] t h e = e
gap-Ends (c ∷ gap) t h e = let (q, o, k, ends) = is_ws_lem c h.0 in ends

-- The last member, and one with another behind it.
find_last :
    (fuel : ℕ) (key : List ℕ) (g : Gaps) (k : List Piece) (v : Value) (gap u : List ℕ)
    → AreFields (field g k v (no_fields gap))
    → find_member (suc fuel) key (member g k (print v (g.behind ++ (gap ++ (b'}' ∷ u)))))
      ≡ (if eq_bytes (pieces_text k) key then some (print v []) else none)
unfolding IsValue
find_last fuel key g k v gap u (hg, hk, hv, last) =
    let closed = gap ++ (b'}' ∷ u) in
    let behind = g.behind ++ closed in
    let ends = gap-Ends g.behind closed hg.3 (gap-Ends gap (b'}' ∷ u) last refl) in
    find_some fuel b'}' key (member g k (print v behind)) (pieces_text k) (print v []) behind u
      (read_member-print g k v behind hg hk hv ends)
      (skip_ws-gap g.behind closed hg.3 ∙ skip_ws-gap gap (b'}' ∷ u) last ∙ stays b'}' u refl)

find_more :
    (fuel : ℕ) (key : List ℕ) (g : Gaps) (k : List Piece) (v : Value) (more : List ℕ)
    → AreGaps g
    → All IsPiece k
    → IsValue v
    → find_member (suc fuel) key (member g k (print v (g.behind ++ (b',' ∷ more))))
      ≡ (if eq_bytes (pieces_text k) key then some (print v []) else find_member fuel key more)
find_more fuel key g k v more hg hk hv =
    let behind = g.behind ++ (b',' ∷ more) in
    find_some fuel b',' key (member g k (print v behind)) (pieces_text k) (print v []) behind more
      (read_member-print g k v behind hg hk hv (gap-Ends g.behind (b',' ∷ more) hg.3 refl))
      (skip_ws-gap g.behind (b',' ∷ more) hg.3 ∙ stays b',' more refl)

find_member-print :
    (fuel : ℕ) (key : List ℕ) (fs : Fields) (u : List ℕ)
    → AreFields fs
    → count fs < fuel
    → find_member fuel key (print_fields true fs (b'}' ∷ u)) ≡ first_field key fs
unfolding print IsValue
find_member-print zero key fs u h f = absurd (omega arith)
find_member-print (suc fuel) key (no_fields gap) u h f =
    find_none fuel key (gap ++ (b'}' ∷ u))
      (ap read_member (skip_ws-gap gap (b'}' ∷ u) h) ∙ read_none u)
find_member-print (suc fuel) key (field g k v (no_fields gap)) u h f =
    find_last fuel key g k v gap u h
find_member-print (suc fuel) key (field g k v (field g' k' v' fs)) u h f =
    let more = print_fields true (field g' k' v' fs) (b'}' ∷ u) in
    find_more fuel key g k v more h.0 h.1 h.2
    ∙ ap (λ x. if eq_bytes (pieces_text k) key then some (print v []) else x)
        (find_member-print fuel key (field g' k' v' fs) u h.3 (omega arith))

opened :
    (key gap p : List ℕ)
    → IsGap gap
    → codex_json_member (gap ++ (b'{' ∷ p)) key ≡ find_member (length (gap ++ (b'{' ∷ p))) key p
unfolding codex_json_member
opened key gap p h = let e = skip_ws-gap gap (b'{' ∷ p) h ∙ stays b'{' p refl in ground (arith, e)

-- The member that codex_json_member finds in the text of an object is the text of the value under the
-- first member whose name has the key's bytes, and there is none if no member has; whatever the
-- values nest, and whatever white space stands before the object and between its parts.
pub codex_json_member-print :
    (key gap : List ℕ) (fs : Fields)
    → IsGap gap
    → IsValue (object fs)
    → codex_json_member (gap ++ print (object fs) []) key ≡ first_field key fs
unfolding print IsValue
codex_json_member-print key gap fs hg h =
    let p = print_fields true fs (b'}' ∷ []) in
    opened key gap p hg
    ∙ find_member-print (length (gap ++ (b'{' ∷ p))) key fs [] h
        (omega (arith, count-length true fs (b'}' ∷ []), length-append gap (b'{' ∷ p)))
