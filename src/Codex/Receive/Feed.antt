-- ===== src/Codex/Receive/Feed.antt =====
-- An object that comes in fragments is handled once and whole.
use zephyr_applications.Common.{
  ℕ, suc, ◌+◌, ◌<◌, ◌≡◌, ◌⊎◌, inl, inr, refl, ap, sym, subst, ◌∙◌, Bool, false, not, ◌&&◌, leb,
  List, [], ◌∷◌, ◌++◌, Option, none, some, All, arith, length, length-append, append_assoc,
  append-nil, if◌then◌else◌,
}
use zephyr_applications.Codex.{codex_json_max}
use zephyr_applications.Codex.Json.Syntax.{object, Fields, print, IsValue}
use zephyr_applications.Codex.Receive.{
  rx_object_complete, from_brace, is_nil, starts_request, rx_append,
}
use zephyr_applications.Codex.Receive.Whole.{object_complete, prefix_incomplete}

-- The payloads as they come in: the buffer in the end, and the texts that were handled.
abbrev pub feed : List ℕ → List (List ℕ) → List ℕ × List (List ℕ)
feed rx_buf [] = (rx_buf, [])
feed rx_buf (payload ∷ more) =
    let (after, handled) = rx_append rx_buf payload in
    let (last, later) = feed after more in
    (last, elim handled [ none ↦ later | some json ↦ json ∷ later ])

abbrev pub joined : List (List ℕ) → List ℕ
joined [] = []
joined (f ∷ fs) = f ++ joined fs

-- A fragment that goes on with an object.
abbrev pub GoesOn : List ℕ → Type 0
GoesOn f = (is_nil f ≡ false) × (starts_request f ≡ false)

-- The buffer is empty, or the fragment goes on with what it holds.
abbrev Fits : List ℕ → List ℕ → Type 0
Fits rx_buf f = (rx_buf ≡ []) ⊎ (starts_request f ≡ false)

-- The payload is added whole.
added_whole :
    (rx_buf f rest : List ℕ) (fs : Fields)
    → is_nil f ≡ false
    → Fits rx_buf f
    → rx_buf ++ (f ++ rest) ≡ print (object fs) []
    → length (rx_buf ++ f) < codex_json_max
    → rx_append rx_buf f
      ≡ (if rx_object_complete (rx_buf ++ f) then ([], some (rx_buf ++ f)) else (rx_buf ++ f, none))
unfolding rx_append from_brace print
added_whole [] [] rest fs n fit e len = ground (arith, n)
added_whole [] (c ∷ f) rest fs n fit e len =
    let brace : c ≡ b'{' = ground (arith, e) in
    let small : leb 512 (0 + suc (length f)) ≡ false = ground (arith, len) in rw (brace, small)
added_whole (b ∷ rx_buf) [] rest fs n fit e len = ground (arith, n)
added_whole (b ∷ rx_buf) (c ∷ f) rest fs n (inl empty) e len = ground (arith, empty)
added_whole (b ∷ rx_buf) (c ∷ f) rest fs n (inr goes_on) e len =
    let small : leb 512 (suc (length rx_buf) + suc (length f)) ≡ false =
      ground (arith, len, length-append rx_buf (c ∷ f)) in
    rw (goes_on, small)

-- What one fragment of an object's text does: the last one has the text handled, and any other is
-- kept.
fragment_step :
    (rx_buf f rest : List ℕ) (fs : Fields)
    → IsValue (object fs)
    → length (print (object fs) []) < codex_json_max
    → is_nil f ≡ false
    → Fits rx_buf f
    → rx_buf ++ (f ++ rest) ≡ print (object fs) []
    → rx_append rx_buf f
      ≡ (if is_nil rest then ([], some (print (object fs) [])) else (rx_buf ++ f, none))
fragment_step rx_buf f [] fs h len n fit e =
    let whole : rx_buf ++ f ≡ print (object fs) [] =
      ap (λ x. rx_buf ++ x) (sym (append-nil f)) ∙ e in
    added_whole rx_buf f [] fs n fit e (subst (λ x. length x < codex_json_max) (sym whole) len)
    ∙ rw (whole, object_complete fs h)
fragment_step rx_buf f (c ∷ rest) fs h len n fit e =
    let cut : (rx_buf ++ f) ++ (c ∷ rest) ≡ print (object fs) [] =
      append_assoc rx_buf f (c ∷ rest) ∙ e in
    let small : length (rx_buf ++ f) < codex_json_max =
      omega (arith, len, ap length cut, length-append (rx_buf ++ f) (c ∷ rest)) in
    added_whole rx_buf f (c ∷ rest) fs n fit e small
    ∙ rw (prefix_incomplete fs (rx_buf ++ f) c rest h cut)

joined_some : (f : List ℕ) (rest : List ℕ) → is_nil f ≡ false → is_nil (f ++ rest) ≡ false
joined_some [] rest n = ground (arith, n)
joined_some (c ∷ f) rest n = refl

feed_on :
    (rx_buf f : List ℕ) (more : List (List ℕ)) (fs : Fields)
    → IsValue (object fs)
    → length (print (object fs) []) < codex_json_max
    → is_nil f ≡ false
    → Fits rx_buf f
    → All GoesOn more
    → rx_buf ++ (f ++ joined more) ≡ print (object fs) []
    → feed rx_buf (f ∷ more) ≡ ([], print (object fs) [] ∷ [])
feed_on rx_buf f [] fs h len n fit on e =
    let step = fragment_step rx_buf f [] fs h len n fit e in ground (arith, step)
feed_on rx_buf f (g ∷ more) fs h len n fit on e =
    let step = fragment_step rx_buf f (g ++ joined more) fs h len n fit e in
    let open_end = joined_some g (joined more) on.0.0 in
    let rest =
      feed_on (rx_buf ++ f) g more fs h len on.0.0 (inr on.0.1) on.1
        (append_assoc rx_buf f (g ++ joined more) ∙ e) in
    ground (arith, step, open_end, rest)

-- The text of an object that comes in fragments, however it is cut, is handed to codex_rpc_handle
-- once and whole with its last fragment, and the buffer is empty again. The text is below 512 bytes,
-- no fragment is empty, and none but the first looks like the start of a request.
pub feed-object :
    (fs : Fields) (first : List ℕ) (more : List (List ℕ))
    → IsValue (object fs)
    → length (print (object fs) []) < codex_json_max
    → is_nil first ≡ false
    → All GoesOn more
    → first ++ joined more ≡ print (object fs) []
    → feed [] (first ∷ more) ≡ ([], print (object fs) [] ∷ [])
feed-object fs first more h len n on e = feed_on [] first more fs h len n (inl refl) on e

-- What rx_append does once the payload is cut to its first brace.
abbrev append_outcome : List ℕ → List ℕ → Bool → List ℕ × Option (List ℕ)
append_outcome held added complete =
    if is_nil added
    then (held, none)
    else if leb codex_json_max (length held + length added)
    then ([], none)
    else if complete
    then ([], some (held ++ added))
    else (held ++ added, none)

kept_small :
    (held added : List ℕ) (complete : Bool)
    → length held < codex_json_max
    → length (append_outcome held added complete).0 < codex_json_max
kept_small held added complete h = ground (arith, h, length-append held added)

-- Whatever comes in, the buffer never holds 512 bytes or more: there is room for the zero behind it.
pub rx_append_bounded :
    (rx_buf payload : List ℕ)
    → length rx_buf < codex_json_max
    → length (rx_append rx_buf payload).0 < codex_json_max
unfolding rx_append
rx_append_bounded rx_buf payload h =
    let held = if not (is_nil rx_buf) && starts_request payload then [] else rx_buf in
    let added = if is_nil held then from_brace payload else payload in
    let small : length held < codex_json_max = ground (arith, h) in
    kept_small held added (rx_object_complete (held ++ added)) small
