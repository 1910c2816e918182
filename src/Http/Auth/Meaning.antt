-- ===== src/Http/Auth/Meaning.antt =====
-- What http_basic_auth_ok accepts.
use Prim.Native.Nat.{bit_or, bit_xor}
use zephyr_applications.Common.{
  ◌-◌, if◌then◌else◌, ℕ, ◌+◌, ◌≡◌, ◌≢◌, ◌↔◌, refl, ap, ap₂, sym, ◌∙◌, Bool, true, false, not, ◌||◌,
  ◌==◌, List, [], ◌∷◌, ◌++◌, Option, some, length, take, drop, arith, take-append-drop,
  Option-cases, inl, inr, length-append, drop-drop, length-drop, take-append_le, take-length,
  drop-append_ge,
}
use zephyr_applications.Common.Bits.{bit_or_zero, bit_xor_zero}
use zephyr_applications.Common.Text.{codes}
use zephyr_applications.Lockstep.Defs.{eq_bytes}
use zephyr_applications.Lockstep.Compare.{eq_bytes→eq, eq_bytes_refl}
use zephyr_applications.Http.Auth.{behind, diff_of, credentials_ok, http_basic_auth_ok}

diff_of_zero :
    (xs ys : List ℕ) (d : ℕ) → length xs ≡ length ys → (diff_of xs ys d ≡ 0) ↔ ((d ≡ 0) × (xs ≡ ys))
unfolding diff_of
diff_of_zero [] [] d e = (λ h. (h, refl), λ h. h.0)
diff_of_zero [] (y ∷ ys) d e = absurd (omega arith)
diff_of_zero (x ∷ xs) [] d e = absurd (omega arith)
diff_of_zero (x ∷ xs) (y ∷ ys) d e = ground (
  arith,
  diff_of_zero xs ys (bit_or d (bit_xor x y)) (omega arith),
  bit_or_zero d (bit_xor x y),
  bit_xor_zero x y,
)

behind-append : (p s : List ℕ) → behind p (p ++ s) ≡ some s
unfolding behind
behind-append [] s = refl
behind-append (c ∷ p) s = ground (arith, behind-append p s)

behind→eq : (p s t : List ℕ) → behind p s ≡ some t → s ≡ p ++ t
unfolding behind
behind→eq [] s t h = ground arith
behind→eq (c ∷ p) [] t h = ground arith
behind→eq (c ∷ p) (d ∷ s) t h = ground (arith, behind→eq p s t)

guards→true :
    (a b c e : Bool)
    → (if not a || not b || not c then false else e) ≡ true
    → (a ≡ true) × (b ≡ true) × (c ≡ true) × (e ≡ true)
guards→true true true true e h = (refl, refl, refl, h)
guards→true true true false e h = ground arith
guards→true true false c e h = ground arith
guards→true false b c e h = ground arith

-- Three parts of a text put together.
three_parts :
    (d user rest : List ℕ) (mid : ℕ)
    → take (length user) d ≡ user
    → take 1 (drop (length user) d) ≡ mid ∷ []
    → drop (length user + 1) d ≡ rest
    → d ≡ user ++ (mid ∷ rest)
three_parts d user rest mid p q r =
    sym (take-append-drop (length user) d)
    ∙ ap₂ (λ x y. x ++ y) p
        (sym (take-append-drop 1 (drop (length user) d))
          ∙ ap₂ (λ x y. x ++ y) q (drop-drop (length user) 1 d ∙ r))

credentials_ok→eq :
    (d user pass : List ℕ) → credentials_ok d user pass ≡ true → d ≡ user ++ (b':' ∷ pass)
unfolding credentials_ok
credentials_ok→eq d user pass h =
    let n = length user in
    let (len, name, colon, same) =
      guards→true (length d == n + 1 + length pass) (eq_bytes (take n d) user)
        (eq_bytes (take 1 (drop n d)) (b':' ∷ [])) (diff_of (drop (n + 1) d) pass 0 == 0) h in
    three_parts d user pass b':' (eq_bytes→eq (take n d) user name)
      (eq_bytes→eq (take 1 (drop n d)) (b':' ∷ []) colon)
      ((diff_of_zero (drop (n + 1) d) pass 0 (ground (arith, length-drop (n + 1) d))).0
        (ground arith)).1

credentials_ok_refl : (user pass : List ℕ) → credentials_ok (user ++ (b':' ∷ pass)) user pass ≡ true
unfolding credentials_ok
credentials_ok_refl user pass =
    let n = length user in
    let rest : List ℕ = b':' ∷ pass in
    let back : take n (user ++ rest) ≡ user =
      take-append_le n user rest (omega arith) ∙ take-length n user (omega arith) in
    let front : drop n (user ++ rest) ≡ rest =
      drop-append_ge n user rest (omega arith)
      ∙ ap (λ k. drop k rest) (let e : n - length user ≡ 0 = omega arith in e) in
    let last : drop (n + 1) (user ++ rest) ≡ pass =
      sym (drop-drop n 1 (user ++ rest)) ∙ ap (λ s. drop 1 s) front in
    ground (
      arith,
      back,
      front,
      last,
      length-append user rest,
      eq_bytes_refl user,
      eq_bytes_refl (b':' ∷ []),
      (diff_of_zero pass pass 0 refl).1 (refl, refl),
    )

-- The header lets the request in exactly if it is `Basic ` and a text that decodes to the user name,
-- a colon and the password, and the firmware has a password.
pub http_basic_auth_ok_lem :
    (decode : List ℕ → Option (List ℕ)) (header user pass : List ℕ)
    → (http_basic_auth_ok decode (some header) user pass ≡ true) ↔ (
        (text : List ℕ) × (header ≡ codes "Basic " ++ text)
        × (decode text ≡ some (user ++ (b':' ∷ pass)))
        × (pass ≢ []))
unfolding http_basic_auth_ok
http_basic_auth_ok_lem decode header user [] =
    (λ h. ground arith, λ (t, e, d, ne). absurd (ne refl))
http_basic_auth_ok_lem decode header user (p ∷ ps) = (
  elim (Option-cases (behind (codes "Basic ") header)) [
    | inl miss ↦ λ h. ground arith
    | inr (text, e) ↦ elim (Option-cases (decode text)) [
      | inl bad ↦ λ h. ground arith
      | inr (d, f) ↦ λ h. (
        text,
        behind→eq (codes "Basic ") header text e,
        f ∙ ap some (credentials_ok→eq d user (p ∷ ps) (ground arith)),
        λ q. ground (arith, q),
      )
    ]
  ],
  λ (text, e, f, ne).
      ground (arith, e, f, behind-append (codes "Basic ") text, credentials_ok_refl user (p ∷ ps)),
)
