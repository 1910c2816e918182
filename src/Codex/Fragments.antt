-- ===== src/Codex/Fragments.antt =====
-- What the other end puts together.
use zephyr_applications.Common.{
  ℕ, zero, suc, ◌+◌, ◌-◌, ◌*◌, ◌<◌, ◌≤◌, ◌≡◌, refl, sym, ap, ◌∙◌, List, [], ◌∷◌, ◌++◌, none, some,
  All, length, take, drop, replicate, length-append, length-replicate, length-take, length-drop,
  take-append_le, take-length, arith, min, take_nil,
}
use zephyr_applications.Codex.{set_report, report, send_loop, codex_hid_send, codex_json_max}

-- The payloads of the reports, one behind the other.
abbrev pub received : List (List ℕ) → List ℕ
received [] = []
received (r ∷ rs) = elim (set_report r) [
  | none ↦ received rs
  | some payload ↦ payload ++ received rs
]

report-full : (chunk : List ℕ) → length chunk ≤ 61 → length (report chunk) ≡ 63
report-full chunk h = ground (
  arith,
  length-append chunk (replicate (61 - length chunk) 0),
  length-replicate {A = ℕ} (61 - length chunk) 0,
)

pub set_report-report :
    (chunk : List ℕ) → length chunk ≤ 61 → set_report (report chunk) ≡ some chunk
unfolding set_report
set_report-report chunk h =
    let full = report-full chunk h in
    let n : min (length chunk) 61 ≡ length chunk = omega arith in
    let cut : take (length chunk) (chunk ++ replicate (61 - length chunk) 0) ≡ chunk =
      take-append_le (length chunk) chunk (replicate (61 - length chunk) 0) (omega arith)
      ∙ take-length (length chunk) chunk (omega arith) in
    ground (arith, full, n, cut, h)

take-take : (m n : ℕ) (xs : List ℕ) → take (m + n) xs ≡ take m xs ++ take n (drop m xs)
take-take zero n xs = ap (λ k. take k xs) (let e : 0 + n ≡ n = omega arith in e)
take-take (suc m) n [] = take_nil (suc m + n) ∙ sym (take_nil n)
take-take (suc m) n (x ∷ xs) =
    ap (λ k. take k (x ∷ xs)) (let e : suc m + n ≡ suc (m + n) = omega arith in e)
    ∙ ap (λ t. x ∷ t) (take-take m n xs)

loop-received :
    (fuel : ℕ) (text : List ℕ) (sends : ℕ)
    → length text ≤ fuel
    → (received (send_loop fuel text sends) ≡ take (61 * sends) text)
      × All (λ r. length r ≡ 63) (send_loop fuel text sends)
unfolding send_loop
loop-received zero [] sends h = (sym (take_nil (61 * sends)), tt)
loop-received zero (c ∷ s) sends h = absurd (omega arith)
loop-received (suc fuel) [] sends h = (sym (take_nil (61 * sends)), tt)
loop-received (suc fuel) (c ∷ s) zero h = (refl, tt)
loop-received (suc fuel) (c ∷ s) (suc sends) h =
    let text : List ℕ = c ∷ s in
    let small : length (take 61 text) ≤ 61 = omega (arith, length-take 61 text) in
    let (rest, full) =
      loop-received fuel (drop 61 text) sends (omega (arith, length-drop 61 text, h)) in
    let all : take (61 * suc sends) text ≡ take 61 text ++ take (61 * sends) (drop 61 text) =
      ap (λ k. take k text) (let e : 61 * suc sends ≡ 61 + 61 * sends = omega arith in e)
      ∙ take-take 61 (61 * sends) text in
    (
      ground (arith, set_report-report (take 61 text) small, rest, all),
      (report-full (take 61 text) small, full),
    )

-- A text that fits the buffer with its newline is sent in reports of 63 bytes, and their payloads,
-- taken out as the receiver of such reports does and put one behind the other, are the text and the
-- newline: all of it if no report is refused, and otherwise exactly the fragments before the one that
-- is refused. The loop ends within its fuel.
pub codex_hid_send-received :
    (json : List ℕ) (sends : ℕ)
    → length json + 1 < codex_json_max
    → (reports : List (List ℕ)) × (codex_hid_send json sends ≡ some reports)
      × (received reports ≡ take (61 * sends) (json ++ (10 ∷ [])))
      × All (λ r. length r ≡ 63) reports
unfolding codex_hid_send
codex_hid_send-received json sends fits =
    let framed = json ++ (10 ∷ []) in
    let len = length-append json (10 ∷ []) in
    let (all, full) = loop-received codex_json_max framed sends (omega (arith, len, fits)) in
    (send_loop codex_json_max framed sends, ground (arith, len, fits), all, full)
