-- ===== src/Health/Blob.antt =====
-- The persisted blob of health_logic.c, and its round trip.
use zephyr_applications.Common.{
  ◌⊎◌, ◌≢◌, ◌↔◌, ℕ, ◌+◌, ◌*◌, ◌/◌, ◌^◌, ◌<◌, ◌≡◌, ◌&&◌, ◌==◌, if◌then◌else◌, List, [], ◌∷◌, ◌++◌,
  u8, arith, Option, none, some, length, get_or, take, drop,
}

-- `struct health_counters`
pub record Counters : Type 0 where
  pub presses : ℕ
  pub mismatch_events : ℕ
  pub uptime_s : ℕ
  pub boots : ℕ
  pub flashes : ℕ
  pub otas : ℕ
  pub fw_sha : List ℕ
  pub button_swaps : ℕ

abbrev pub health_blob_ver : ℕ
health_blob_ver = 1

abbrev pub health_blob_len : ℕ
health_blob_len = 34

-- The four bytes that `put_u32` writes: `v >> 24` cut to a byte, and so on.
abbrev pub put_u32 : ℕ → List ℕ → List ℕ
put_u32 v rest = u8 (v / 2 ^ 24) ∷ u8 (v / 2 ^ 16) ∷ u8 (v / 2 ^ 8) ∷ u8 v ∷ rest

-- The bytes stand at disjoint positions, so `|` is `+`.
abbrev pub get_u32 : List ℕ → ℕ → ℕ
get_u32 p i =
    get_or p i 0 * 2 ^ 24
    + get_or p (i + 1) 0 * 2 ^ 16
    + get_or p (i + 2) 0 * 2 ^ 8
    + get_or p (i + 3) 0

unfoldable pub health_encode : Counters → List ℕ
health_encode c =
    health_blob_ver
    ∷ put_u32 c.presses (
        put_u32 c.mismatch_events (
          put_u32 c.uptime_s (
            put_u32 c.boots
              (put_u32 c.flashes (put_u32 c.otas (c.fw_sha ++ (c.button_swaps ∷ [])))))))

-- `len` is the length of the list; `none` is the answer false.
unfoldable pub health_decode : List ℕ → Option Counters
health_decode blob =
    if (length blob == health_blob_len) && (get_or blob 0 0 == health_blob_ver)
    then some (record {
      presses = get_u32 blob 1;
      mismatch_events = get_u32 blob 5;
      uptime_s = get_u32 blob 9;
      boots = get_u32 blob 13;
      flashes = get_u32 blob 17;
      otas = get_u32 blob 21;
      fw_sha = take 8 (drop 25 blob);
      button_swaps = get_or blob 33 0;
    })
    else none

-- The fields hold what their C types can hold.
pub record InRange (c : Counters) : Type 0 where
  pub presses_fit : c.presses < 2 ^ 32
  pub mismatch_events_fit : c.mismatch_events < 2 ^ 32
  pub uptime_s_fit : c.uptime_s < 2 ^ 32
  pub boots_fit : c.boots < 2 ^ 32
  pub flashes_fit : c.flashes < 2 ^ 32
  pub otas_fit : c.otas < 2 ^ 32
  pub fw_sha_len : length c.fw_sha ≡ 8

pub get-put_u32 :
    (v : ℕ)
    → v < 2 ^ 32
    → u8 (v / 2 ^ 24) * 2 ^ 24 + u8 (v / 2 ^ 16) * 2 ^ 16 + u8 (v / 2 ^ 8) * 2 ^ 8 + u8 v ≡ v
get-put_u32 v h = omega arith

decode-encode_sha :
    (p m u b f o : ℕ) (sha : List ℕ) (swaps : ℕ)
    → length sha ≡ 8
    → InRange (record {
      presses = p;
      mismatch_events = m;
      uptime_s = u;
      boots = b;
      flashes = f;
      otas = o;
      fw_sha = sha;
      button_swaps = swaps;
    })
    → health_decode (
        health_encode (record {
          presses = p;
          mismatch_events = m;
          uptime_s = u;
          boots = b;
          flashes = f;
          otas = o;
          fw_sha = sha;
          button_swaps = swaps;
        }))
      ≡ some (record {
        presses = p;
        mismatch_events = m;
        uptime_s = u;
        boots = b;
        flashes = f;
        otas = o;
        fw_sha = sha;
        button_swaps = swaps;
      })
unfolding health_decode health_encode
decode-encode_sha p m u b f o (x0 ∷ x1 ∷ x2 ∷ x3 ∷ x4 ∷ x5 ∷ x6 ∷ x7 ∷ []) swaps l v = simp (
  get-put_u32 p v.presses_fit,
  get-put_u32 m v.mismatch_events_fit,
  get-put_u32 u v.uptime_s_fit,
  get-put_u32 b v.boots_fit,
  get-put_u32 f v.flashes_fit,
  get-put_u32 o v.otas_fit,
)
decode-encode_sha p m u b f o _ swaps l v = absurd (omega arith)

-- What is persisted is read back: every record of counters within its C types, encoded and decoded
-- again, is itself.
pub health_decode-encode : (c : Counters) → InRange c → health_decode (health_encode c) ≡ some c
health_decode-encode c v =
    decode-encode_sha c.presses c.mismatch_events c.uptime_s c.boots c.flashes c.otas c.fw_sha
      c.button_swaps v.fw_sha_len v

-- Every blob of another length or of another version is refused, and every other one is read.
pub health_decode_refuses :
    (blob : List ℕ) → (health_decode blob ≡ none) ↔ ((length blob ≢ 34) ⊎ (get_or blob 0 0 ≢ 1))
unfolding health_decode
health_decode_refuses blob = ground arith
