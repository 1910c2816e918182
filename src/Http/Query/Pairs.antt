-- ===== src/Http/Query/Pairs.antt =====
-- A query that is written from a list of keys and values, and read again.
use zephyr_applications.Common.{
  ◌<◌, map, ℕ, ◌≡◌, ◌≢◌, refl, ap, ◌∙◌, ◌==◌, leb, if◌then◌else◌, List, [], ◌∷◌, ◌++◌, none, some,
  length, All, arith, Bool-cases, inl, inr,
}
use zephyr_applications.Lockstep.Defs.{eq_bytes}
use zephyr_applications.Http.Query.{
  Value, found, enoent, enospc, after_mark, segments, value_of, scan, http_query_get,
}

-- No byte of a text is `c`.
abbrev pub Lacks : ℕ → List ℕ → Type 0
Lacks c s = All (λ x. x ≢ c) s

pub record IsPair (kv : List ℕ × List ℕ) : Type 0 where
  pub key_plain : Lacks b'=' kv.0
  pub key_no_amp : Lacks b'&' kv.0
  pub value_no_amp : Lacks b'&' kv.1

abbrev pub pair_text : List ℕ × List ℕ → List ℕ
pair_text (k, v) = k ++ (b'=' ∷ v)

-- `k=v&k=v...`, of at least one pair
abbrev pub query_text : List ℕ × List ℕ → List (List ℕ × List ℕ) → List ℕ
query_text kv [] = pair_text kv
query_text kv (next ∷ more) = pair_text kv ++ (b'&' ∷ query_text next more)

-- The value under the first key that is `key`, if it fits.
abbrev pub first_value : List ℕ → ℕ → List (List ℕ × List ℕ) → Value
first_value key out_len [] = enoent
first_value key out_len ((k, v) ∷ rest) =
    if eq_bytes key k
    then if leb out_len (length v) then enospc else found v
    else first_value key out_len rest

segments-plain : (s : List ℕ) → Lacks b'&' s → segments s ≡ s ∷ []
unfolding segments
segments-plain [] h = refl
segments-plain (c ∷ s) h = ground (arith, segments-plain s h.1)

segments_cons : (s : List ℕ) → (seg : List ℕ) × (segs : List (List ℕ)) × (segments s ≡ seg ∷ segs)
unfolding segments
segments_cons [] = ([], [], refl)
segments_cons (c ∷ s) =
    let (seg, segs, e) = segments_cons s in
    elim (Bool-cases (c == b'&')) [
      | inl amp ↦ ([], seg ∷ segs, ground (arith, e, amp))
      | inr other ↦ (c ∷ seg, segs, ground (arith, e, other))
    ]

segments-amp : (s rest : List ℕ) → Lacks b'&' s → segments (s ++ (b'&' ∷ rest)) ≡ s ∷ segments rest
unfolding segments
segments-amp [] rest h = let (seg, segs, e) = segments_cons rest in rw e
segments-amp (c ∷ s) rest h = ground (arith, segments-amp s rest h.1)

value_of-pair :
    (key k v : List ℕ)
    → Lacks b'=' key
    → Lacks b'=' k
    → value_of key (pair_text (k, v)) ≡ (if eq_bytes key k then some v else none)
unfolding value_of eq_bytes
value_of-pair [] [] v p q = refl
value_of-pair [] (c ∷ k) v p q = ground (arith, q.0)
value_of-pair (x ∷ key) [] v p q = ground (arith, p.0)
value_of-pair (x ∷ key) (c ∷ k) v p q = ground (arith, value_of-pair key k v p.1 q.1)

pair_text-plain : (k v : List ℕ) → Lacks b'&' k → Lacks b'&' v → Lacks b'&' (pair_text (k, v))
pair_text-plain [] v p q = (ground arith, q)
pair_text-plain (c ∷ k) v p q = (p.0, pair_text-plain k v p.1 q)

segments-query :
    (kv : List ℕ × List ℕ) (more : List (List ℕ × List ℕ))
    → IsPair kv
    → All IsPair more
    → segments (query_text kv more) ≡ map pair_text (kv ∷ more)
segments-query kv [] p q =
    segments-plain (pair_text kv) (pair_text-plain kv.0 kv.1 p.key_no_amp p.value_no_amp)
segments-query kv (next ∷ more) p q =
    segments-amp (pair_text kv) (query_text next more)
      (pair_text-plain kv.0 kv.1 p.key_no_amp p.value_no_amp)
    ∙ ap (λ s. pair_text kv ∷ s) (segments-query next more q.0 q.1)

scan-pairs :
    (key : List ℕ) (out_len : ℕ) (kvs : List (List ℕ × List ℕ))
    → Lacks b'=' key
    → All IsPair kvs
    → scan key out_len (map pair_text kvs) ≡ first_value key out_len kvs
unfolding scan
scan-pairs key out_len [] p q = refl
scan-pairs key out_len ((k, v) ∷ kvs) p q =
    ground (arith, value_of-pair key k v p q.0.key_plain, scan-pairs key out_len kvs p q.1)

after_mark-path : (path q : List ℕ) → Lacks b'?' path → after_mark (path ++ (b'?' ∷ q)) ≡ some q
unfolding after_mark
after_mark-path [] q h = refl
after_mark-path (c ∷ path) q h = ground (arith, after_mark-path path q h.1)

after_mark-none : (path : List ℕ) → Lacks b'?' path → after_mark path ≡ none
unfolding after_mark
after_mark-none [] h = refl
after_mark-none (c ∷ path) h = ground (arith, after_mark-none path h.1)

-- A query written as `k=v` pairs behind a path is read as the association list that it is: a key
-- gets the value of the first pair with exactly that key, or an error if there is none or the value
-- does not fit. No path has a question mark, no key an equals sign or an ampersand, no value an
-- ampersand, and the buffer is not empty.
pub http_query_get-query_text :
    (path key : List ℕ) (out_len : ℕ) (kv : List ℕ × List ℕ) (more : List (List ℕ × List ℕ))
    → Lacks b'?' path
    → Lacks b'=' key
    → 0 < out_len
    → IsPair kv
    → All IsPair more
    → http_query_get (path ++ (b'?' ∷ query_text kv more)) key out_len
      ≡ first_value key out_len (kv ∷ more)
unfolding http_query_get
http_query_get-query_text path key out_len kv more h p pos v vs = ground (
  arith,
  after_mark-path path (query_text kv more) h,
  segments-query kv more v vs,
  scan-pairs key out_len (kv ∷ more) p (v, vs),
)
