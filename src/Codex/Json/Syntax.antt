-- ===== src/Codex/Json/Syntax.antt =====
-- JSON values with the white space around their parts, and the text that prints them.
use zephyr_applications.Common.{
  ℕ, Bool, true, false, not, ◌||◌, ◌==◌, ◌≡◌, List, [], ◌∷◌, ◌++◌, All,
}
use zephyr_applications.Codex.Json.{is_ws, ends_literal, opens}

-- What a string holds: a plain byte, or one behind a backslash.
pub data Piece : Type 0 where
  plain escaped : ℕ → Piece

-- The white space of a member: before its name, before and behind its colon, and behind its value.
pub record Gaps : Type 0 where
  pub before : List ℕ
  pub name_end : List ℕ
  pub colon_end : List ℕ
  pub behind : List ℕ

-- A literal is a number, true, false or null: any other text without a structural character.
mutual
  pub data Value : Type 0 where
    text : List Piece → Value
    literal : List ℕ → Value
    array : Values → Value
    object : Fields → Value

  pub data Values : Type 0 where
    no_values : (gap : List ℕ) → Values
    value : (before : List ℕ) → Value → (behind : List ℕ) → Values → Values

  pub data Fields : Type 0 where
    no_fields : (gap : List ℕ) → Fields
    field : Gaps → List Piece → Value → Fields → Fields

abbrev pub pieces_text : List Piece → List ℕ
pieces_text [] = []
pieces_text (plain c ∷ ps) = c ∷ pieces_text ps
pieces_text (escaped c ∷ ps) = b'\\' ∷ c ∷ pieces_text ps

-- The separator before an element, and what stands behind it.
abbrev pub sep : Bool → List ℕ → List ℕ
sep true t = t
sep false t = b',' ∷ t

-- The text of a value, in front of another text.
unfoldable mutual
  pub print : Value → List ℕ → List ℕ
  print (text ps) t = b'"' ∷ (pieces_text ps ++ (b'"' ∷ t))
  print (literal cs) t = cs ++ t
  print (array vs) t = b'[' ∷ print_values true vs (b']' ∷ t)
  print (object fs) t = b'{' ∷ print_fields true fs (b'}' ∷ t)

  pub print_values : Bool → Values → List ℕ → List ℕ
  print_values first (no_values gap) t = gap ++ t
  print_values first (value before v behind vs) t =
      sep first (before ++ print v (behind ++ print_values false vs t))

  pub print_fields : Bool → Fields → List ℕ → List ℕ
  print_fields first (no_fields gap) t = gap ++ t
  print_fields first (field g k v fs) t = sep first (
      g.before
      ++ (b'"'
          ∷ (pieces_text k
              ++ (b'"'
                  ∷ (g.name_end
                      ++ (b':'
                          ∷ (g.colon_end ++ print v (g.behind ++ print_fields false fs t))))))))

abbrev pub IsPiece : Piece → Type 0
IsPiece (plain c) = (c == b'"' || c == b'\\') ≡ false
IsPiece (escaped c) = Unit

abbrev pub in_literal : ℕ → Bool
in_literal c = not (ends_literal c || opens c || c == b'"')

-- A literal has at least one byte.
abbrev pub IsLiteral : List ℕ → Type 0
IsLiteral [] = ⊥
IsLiteral (c ∷ cs) = All (λ x. in_literal x ≡ true) (c ∷ cs)

abbrev pub IsGap : List ℕ → Type 0
IsGap = All (λ c. is_ws c ≡ true)

abbrev pub AreGaps : Gaps → Type 0
AreGaps g = IsGap g.before × IsGap g.name_end × IsGap g.colon_end × IsGap g.behind

unfoldable mutual
  pub IsValue : Value → Type 0
  IsValue (text ps) = All IsPiece ps
  IsValue (literal cs) = IsLiteral cs
  IsValue (array vs) = AreValues vs
  IsValue (object fs) = AreFields fs

  pub AreValues : Values → Type 0
  AreValues (no_values gap) = IsGap gap
  AreValues (value before v behind vs) = IsGap before × IsValue v × IsGap behind × AreValues vs

  pub AreFields : Fields → Type 0
  AreFields (no_fields gap) = IsGap gap
  AreFields (field g k v fs) = AreGaps g × All IsPiece k × IsValue v × AreFields fs
