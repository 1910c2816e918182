-- ===== src/LogRing/Write.antt =====
-- A write appends to what the ring holds and keeps the last 4096 bytes.
use native.Mathlib.Decide.{dec_le}
use zephyr_applications.Common.{
  ℕ, zero, suc, ◌+◌, ◌-◌, ◌≤◌, ◌<◌, min, ◌≡◌, sym, ap, ◌∙◌, subst, true, ◌==◌, List, [], ◌∷◌, ◌++◌,
  arith, inl, inr, length, take, drop, last, length-append, length-take, length-drop, take-length,
  last_short, last-append_left, last-append_right, append-nil, append_assoc, take-append-drop,
  Bool-cases,
}
use zephyr_applications.LogRing.{
  LogRing, Cursor, blit, write_round, write_loop, log_ring_write, log_ring_valid,
}
use zephyr_applications.LogRing.Contents.{contents, contents-blit, contents-blit_end, length-blit}

-- The variables of the loop between two rounds.
pub record IsCursor (k : Cursor) : Type 0 where
  pub inside : k.head < 4096
  pub flag : k.wrapped ≤ 1
  pub full : length k.buf ≡ 4096

abbrev pub cursor_contents : Cursor → List ℕ
cursor_contents k = contents k.head k.wrapped k.buf

module _ (k : Cursor) (xs : List ℕ) (v : IsCursor k) where
  abbrev taken : List ℕ
  taken = take (min (4096 - k.head) (length xs)) xs

  length-taken : length taken ≡ min (4096 - k.head) (length xs)
  length-taken = omega (arith, length-take {0} (min (4096 - k.head) (length xs)) xs)

  round-IsCursor : IsCursor (write_round k xs)
  unfolding write_round
  round-IsCursor = ground (arith, v, length-taken, length-blit k.buf taken k.head v.full)

  round-contents : cursor_contents (write_round k xs) ≡ last 4096 (cursor_contents k ++ taken)
  unfolding write_round
  round-contents = elim (Bool-cases (k.head + min (4096 - k.head) (length xs) == 4096)) [
    | inl e ↦ rw e (
        contents-blit_end k.buf taken k.head v.full (omega (arith, length-taken, v)) k.wrapped
          (ground (arith, length-taken)))
    | inr e ↦ rw e (
        subst
          (λ n.
            contents (k.head + n) k.wrapped (blit k.buf k.head taken)
            ≡ last 4096 (cursor_contents k ++ taken))
          length-taken
          (contents-blit k.buf taken k.head v.full (omega (arith, length-taken, v)) k.wrapped
            (ground (arith, length-taken, v))))
  ]

length-cursor_contents : (k : Cursor) → IsCursor k → length (cursor_contents k) ≤ 4096
length-cursor_contents k v = ground (
  arith,
  length-append {0} (drop k.head k.buf) (take k.head k.buf),
  length-drop {0} k.head k.buf,
  length-take {0} k.head k.buf,
)

take-min : (n : ℕ) (xs : List ℕ) → take (min n (length xs)) xs ≡ take n xs
take-min n xs = elim (dec_le n (length xs)) [
  | yes h ↦ ap (λ k. take k xs) (omega arith)
  | no h ↦
      ap (λ k. take k xs) (let e : min n (length xs) ≡ length xs = omega arith in e)
      ∙ take-length (length xs) xs (omega arith)
      ∙ sym (take-length n xs (omega arith))
]

loop-contents :
    (fuel : ℕ) (k : Cursor) (xs : List ℕ)
    → IsCursor k
    → length xs < fuel
    → IsCursor (write_loop fuel k xs)
      × (cursor_contents (write_loop fuel k xs) ≡ last 4096 (cursor_contents k ++ xs))
unfolding write_loop
loop-contents zero k xs v h = absurd (omega arith)
loop-contents (suc fuel) k [] v h = (
  v,
  sym (last_short 4096 (cursor_contents k) (length-cursor_contents k v))
      ∙ ap (last 4096) (sym (append-nil (cursor_contents k))),
)
loop-contents (suc fuel) k (x ∷ xs) v h =
    let all : List ℕ = x ∷ xs in
    let rest = drop (4096 - k.head) all in
    let (w, e) =
      loop-contents fuel (write_round k all) rest (round-IsCursor k all v)
        (omega (arith, length-drop {0} (4096 - k.head) all, v)) in
    (
      w,
      e
          ∙ ap (λ t. last 4096 (t ++ rest)) (round-contents k all v)
          ∙ last-append_left 4096 (cursor_contents k ++ taken k all v) rest
          ∙ ap (last 4096) (append_assoc (cursor_contents k) (taken k all v) rest)
          ∙ ap (λ t. last 4096 (cursor_contents k ++ t))
              (ap (λ t. t ++ rest) (take-min (4096 - k.head) all)
                ∙ take-append-drop (4096 - k.head) all),
    )

-- A ring between two writes.
pub record IsRing (r : LogRing) : Type 0 where
  pub valid : log_ring_valid r ≡ true
  pub full : length r.buf ≡ 4096

abbrev pub held : LogRing → List ℕ
held r = contents r.head r.wrapped r.buf

abbrev start : LogRing → Cursor
start r = record { head = r.head; wrapped = r.wrapped; buf = r.buf }

start-IsCursor : (r : LogRing) → IsRing r → IsCursor (start r)
unfolding log_ring_valid
start-IsCursor r v = ground (arith, v.valid, v.full)

length-last : (n : ℕ) (xs : List ℕ) → length (last n xs) ≤ n
length-last n xs = omega (arith, length-drop {0} (length xs - n) xs)

-- What the loop of one write leaves.
abbrev finish : LogRing → List ℕ → Cursor
finish r xs = write_loop 4097 (start r) (last 4096 xs)

finish_lem :
    (r : LogRing) (xs : List ℕ)
    → IsRing r
    → IsCursor (finish r xs) × (cursor_contents (finish r xs) ≡ last 4096 (held r ++ xs))
finish_lem r xs v =
    let (w, e) =
      loop-contents 4097 (start r) (last 4096 xs) (start-IsCursor r v)
        (omega (arith, length-last 4096 xs)) in
    (w, e ∙ last-append_right 4096 (held r) xs)

write-IsRing :
    (r : LogRing) (xs : List ℕ) → IsRing r → IsCursor (finish r xs) → IsRing (log_ring_write r xs)
unfolding log_ring_write log_ring_valid
write-IsRing r xs v w = record { valid = ground (arith, v.valid, w.inside, w.flag); full = w.full }

-- Writing any bytes, however many, to a valid ring leaves a valid ring that holds the last 4096
-- bytes of what it held and what was written; the header's check is renewed, and the loop ends.
pub log_ring_write_lem :
    (r : LogRing) (xs : List ℕ)
    → IsRing r
    → IsRing (log_ring_write r xs) × (held (log_ring_write r xs) ≡ last 4096 (held r ++ xs))
unfolding log_ring_write
log_ring_write_lem r xs v = let (w, e) = finish_lem r xs v in (write-IsRing r xs v w, e)
