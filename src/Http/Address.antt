-- ===== src/Http/Address.antt =====
-- Dotted addresses: printed and parsed again.
use zephyr_applications.Common.{
  ap, ◌∙◌, ◌^◌, suc, u32, ◌*◌, ℕ, ◌+◌, ◌/◌, ◌%◌, ◌<◌, ◌≡◌, leb, if◌then◌else◌, List, [], ◌∷◌, some,
  arith,
}
use zephyr_applications.Http.{read_octets, http_parse_ipv4, read_octet}

-- The decimal digits of an octet, in front of what follows.
abbrev pub decimal : ℕ → List ℕ → List ℕ
decimal n rest =
    if leb 100 n
    then (48 + n / 100) ∷ (48 + n / 10 % 10) ∷ (48 + n % 10) ∷ rest
    else if leb 10 n
    then (48 + n / 10) ∷ (48 + n % 10) ∷ rest
    else (48 + n) ∷ rest

-- How many digits those are.
abbrev width : ℕ → ℕ
width n = if leb 100 n then 3 else if leb 10 n then 2 else 1

-- The dotted form of four octets.
abbrev pub dotted : ℕ → ℕ → ℕ → ℕ → List ℕ
dotted a b c d = decimal a (46 ∷ decimal b (46 ∷ decimal c (46 ∷ decimal d [])))

read-decimal_dot :
    (n : ℕ) (rest : List ℕ)
    → n < 256
    → read_octet 0 0 (decimal n (46 ∷ rest)) ≡ some (n, width n, 46 ∷ rest)
unfolding read_octet
read-decimal_dot n rest h = ground arith

read-decimal_end : (n : ℕ) → n < 256 → read_octet 0 0 (decimal n []) ≡ some (n, width n, [])
unfolding read_octet
read-decimal_end n h = ground arith

-- One turn of the outer loop on an octet and its dot.
octets_dot :
    (left ip n : ℕ) (rest : List ℕ)
    → n < 256
    → read_octets (suc left) ip (decimal n (46 ∷ rest)) ≡ read_octets left (u32 (ip * 256) + n) rest
unfolding read_octets
octets_dot left ip n rest h = ground (arith, read-decimal_dot n rest h)

octets_end : (ip n : ℕ) → n < 256 → read_octets 0 ip (decimal n []) ≡ some (u32 (ip * 256) + n)
unfolding read_octets
octets_end ip n h = ground (arith, read-decimal_end n h)

-- Every address that is printed as four decimal octets with dots between is parsed to its number,
-- the first octet being the most significant one.
pub http_parse_ipv4-dotted :
    (a b c d : ℕ)
    → a < 256
    → b < 256
    → c < 256
    → d < 256
    → http_parse_ipv4 (some (dotted a b c d)) ≡ some (a * 2 ^ 24 + b * 2 ^ 16 + c * 2 ^ 8 + d)
unfolding http_parse_ipv4
http_parse_ipv4-dotted a b c d ha hb hc hd =
    octets_dot 2 0 a (decimal b (46 ∷ decimal c (46 ∷ decimal d []))) ha
    ∙ octets_dot 1 _ b (decimal c (46 ∷ decimal d [])) hb
    ∙ octets_dot 0 _ c (decimal d []) hc
    ∙ octets_end _ d hd
    ∙ ap some (omega arith)
