-- ===== src/Http/Auth.antt =====
-- http_basic_auth_ok of http_util.c. `base64_decode` is the kernel library's: the parameter `decode`
-- answers the decoded bytes, or none if the text is malformed or decodes to more than fits.
pub mod Meaning
use Prim.Native.Nat.{bit_or, bit_xor}
use zephyr_applications.Common.{
  ℕ, ◌+◌, ◌≡◌, ◌↔◌, refl, Bool, false, not, ◌||◌, ◌==◌, if◌then◌else◌, List, [], ◌∷◌, Option, none,
  some, length, take, drop, arith,
}
use zephyr_applications.Common.Bits.{bit_or_zero, bit_xor_zero}
use zephyr_applications.Common.Text.{codes}
use zephyr_applications.Lockstep.Defs.{eq_bytes}

-- What is left behind a prefix.
unfoldable pub behind : List ℕ → List ℕ → Option (List ℕ)
behind [] s = some s
behind (p ∷ ps) [] = none
behind (p ∷ ps) (c ∷ s) = let rest = behind ps s in if p == c then rest else none

-- The comparison that takes the same time for every password: both have the same length.
unfoldable pub diff_of : List ℕ → List ℕ → ℕ → ℕ
diff_of [] bs diff = diff
diff_of (a ∷ as') [] diff = diff
diff_of (a ∷ as') (b ∷ bs) diff = diff_of as' bs (bit_or diff (bit_xor a b))

-- The tests on the decoded credentials.
unfoldable pub credentials_ok : List ℕ → List ℕ → List ℕ → Bool
credentials_ok decoded user password =
    let n = length user in
    if not (length decoded == n + 1 + length password)
      || not (eq_bytes (take n decoded) user)
      || not (eq_bytes (take 1 (drop n decoded)) (b':' ∷ []))
    then false
    else diff_of (drop (n + 1) decoded) password 0 == 0

-- A null header is `none`; user and password are given by the firmware.
unfoldable pub http_basic_auth_ok :
    (List ℕ → Option (List ℕ)) → Option (List ℕ) → List ℕ → List ℕ → Bool
http_basic_auth_ok decode none user password = false
http_basic_auth_ok decode (some header) user [] = false
http_basic_auth_ok decode (some header) user (p ∷ ps) = elim (behind (codes "Basic ") header) [
  | none ↦ false
  | some text ↦ elim (decode text) [
    | none ↦ false
    | some decoded ↦ credentials_ok decoded user (p ∷ ps)
  ]
]
