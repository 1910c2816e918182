-- ===== src/Lockstep/Compare.antt =====
-- What the comparison of lockstep.c decides.
use zephyr_applications.Common.{
  ℕ, ◌+◌, ◌<◌, ◌≡◌, refl, ap, true, false, if◌then◌else◌, List, [], ◌∷◌, get_or, take, ◌≢◌, none,
  arith, Bool-cases, inl, inr, length,
}
use mathlib.Core.List.{Memᴰ}
use zephyr_applications.Lockstep.Defs.{Slot, active_due, eq_bytes, first_diff, each_slot}
use zephyr_applications.Lockstep.Tick.{find_mismatch, transmitted}

pub eq_bytes→eq : (xs ys : List ℕ) → eq_bytes xs ys ≡ true → xs ≡ ys
unfolding eq_bytes
eq_bytes→eq [] [] h = refl
eq_bytes→eq [] (y ∷ ys) h = ground arith
eq_bytes→eq (x ∷ xs) [] h = ground arith
eq_bytes→eq (x ∷ xs) (y ∷ ys) h = ground (arith, eq_bytes→eq xs ys)

pub eq_bytes_refl : (xs : List ℕ) → eq_bytes xs xs ≡ true
unfolding eq_bytes
eq_bytes_refl [] = refl
eq_bytes_refl (x ∷ xs) = ground (arith, eq_bytes_refl xs)

-- Of every active and due slot the two frames agree.
abbrev pub AllAgree : List Slot → Type 0
AllAgree [] = Unit
AllAgree (s ∷ ss) = (active_due s ≡ true → s.frame_a ≡ s.frame_b) × AllAgree ss

pub find_mismatch-none : (i : ℕ) (ss : List Slot) → find_mismatch i ss ≡ none → AllAgree ss
unfolding find_mismatch
find_mismatch-none i [] h = tt
find_mismatch-none i (s ∷ ss) h =
    ground (arith, eq_bytes→eq s.frame_a s.frame_b, find_mismatch-none (i + 1) ss)

pub AllAgree-find_mismatch : (i : ℕ) (ss : List Slot) → AllAgree ss → find_mismatch i ss ≡ none
unfolding find_mismatch
AllAgree-find_mismatch i [] h = refl
AllAgree-find_mismatch i (s ∷ ss) h =
    ground (arith, h.0, eq_bytes_refl s.frame_a, AllAgree-find_mismatch (i + 1) ss h.1)

-- The scan of `record_mismatch` finds a byte: on two frames of one length that differ, the index is
-- inside them, the bytes there differ, and all before it agree.
pub first_diff_lem :
    (xs ys : List ℕ)
    → length xs ≡ length ys
    → eq_bytes xs ys ≡ false
    → (first_diff xs ys < length xs)
      × (get_or xs (first_diff xs ys) 0 ≢ get_or ys (first_diff xs ys) 0)
      × (take (first_diff xs ys) xs ≡ take (first_diff xs ys) ys)
unfolding first_diff eq_bytes
first_diff_lem [] [] l h = ground arith
first_diff_lem [] (y ∷ ys) l h = absurd (omega arith)
first_diff_lem (x ∷ xs) [] l h = absurd (omega arith)
first_diff_lem (x ∷ xs) (y ∷ ys) l h = ground (arith, first_diff_lem xs ys (omega arith))

-- `f` is the first sampler's frame of an active and due slot.
abbrev pub FrameOf : List ℕ → List Slot → Type 0
FrameOf f ss = (s : Slot) × Memᴰ s ss × (active_due s ≡ true) × (f ≡ s.frame_a)

FrameOf-tail : {f : List ℕ} {s : Slot} {ss : List Slot} → FrameOf f ss → FrameOf f (s ∷ ss)
FrameOf-tail (t, m, e, p) = (t, Memᴰ.tail m, e, p)

FrameOf-head :
    {i k : ℕ} {f : List ℕ} {s : Slot} {ss : List Slot} {rest : List (ℕ × List ℕ)}
    → active_due s ≡ true
    → (Memᴰ (i, f) rest → FrameOf f ss)
    → Memᴰ (i, f) ((k, s.frame_a) ∷ rest)
    → FrameOf f (s ∷ ss)
FrameOf-head {s} e later (Memᴰ.head p) = (s, Memᴰ.head refl, e, ap (λ (x : ℕ × List ℕ). x.1) p)
FrameOf-head e later (Memᴰ.tail m) = FrameOf-tail (later m)

-- A frame that is handed to the network is the first sampler's frame of an active and due slot.
pub transmitted_mem :
    (i k : ℕ) (f : List ℕ) (ss : List Slot) → Memᴰ (i, f) (transmitted k ss) → FrameOf f ss
unfolding transmitted
transmitted_mem i k f [] m = elim m [ ]
transmitted_mem i k f (s ∷ ss) m = elim (Bool-cases (active_due s)) [
  | inl e ↦ FrameOf-head e (transmitted_mem i (k + 1) f ss) (rw (e, if◌then◌else◌) at m)
  | inr e ↦ FrameOf-tail (transmitted_mem i (k + 1) f ss (rw (e, if◌then◌else◌) at m))
]

pub AllAgree-mem :
    (s : Slot) (ss : List Slot)
    → AllAgree ss
    → Memᴰ s ss
    → active_due s ≡ true
    → s.frame_a ≡ s.frame_b
AllAgree-mem s [] all m e = elim m [ ]
AllAgree-mem s (t ∷ ts) all (Memᴰ.head p) e = rw p (all.0 (rw p at e))
AllAgree-mem s (t ∷ ts) all (Memᴰ.tail m) e = AllAgree-mem s ts all.1 m e

-- What a loop over the slots leaves in the list comes from a slot that was there.
pub each_slot_mem :
    (f : ℕ → Slot → Slot) (i : ℕ) (s : Slot) (ss : List Slot)
    → Memᴰ s (each_slot f i ss)
    → (j : ℕ) × (t : Slot) × Memᴰ t ss × (s ≡ f j t)
unfolding each_slot
each_slot_mem f i s [] m = elim m [ ]
each_slot_mem f i s (t ∷ ts) (Memᴰ.head p) = (i, t, Memᴰ.head refl, p)
each_slot_mem f i s (t ∷ ts) (Memᴰ.tail m) =
    let (j, u, n, e) = each_slot_mem f (i + 1) s ts m in (j, u, Memᴰ.tail n, e)
