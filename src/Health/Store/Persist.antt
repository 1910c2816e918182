-- ===== src/Health/Store/Persist.antt =====
-- What reaches the settings store, and what a boot reads back.
use zephyr_applications.Common.{
  subst, min, inl, ◌⊎◌, ℕ, ◌+◌, ◌<◌, ◌≤◌, ◌^◌, ◌≡◌, refl, sym, ap, ◌∙◌, Bool, true, false, u32,
  arith, if◌then◌else◌,
}
use zephyr_applications.Lockstep.Compare.{eq_bytes→eq}
use zephyr_applications.Lockstep.Defs.{eq_bytes}
use zephyr_applications.Health.Blob.{Counters, InRange, health_decode-encode}
use zephyr_applications.Health.Store.{
  Config, Store, booted, fold_locked, flush_locked, evaluate_locked, health_flush, health_init,
  health_reset_button, loaded_counters,
}

fold-InRange :
    (st : Store) (now_ms : ℕ) → InRange st.counters → InRange (fold_locked st now_ms).counters
unfolding fold_locked
fold-InRange st now_ms v = ground (arith, v.fw_sha_len)

-- A flush that succeeds leaves a blob that reads back as the counters, and nothing dirty; one that
-- fails leaves the stored blob, keeps what was dirty, and counts the failure. The counters are
-- within their C types.
pub flush_lem :
    (st : Store) (now_ms : ℕ) (failed : Bool)
    → InRange st.counters
    → ((failed ≡ false)
        × (loaded_counters (health_flush st now_ms failed).saved
            ≡ (health_flush st now_ms failed).counters)
        × ((health_flush st now_ms failed).dirty ≡ false))
      ⊎ ((failed ≡ true)
          × ((health_flush st now_ms failed).saved ≡ st.saved)
          × ((health_flush st now_ms failed).flush_fails ≡ u32 (st.flush_fails + 1))
          × ((st.dirty ≡ false) ⊎ ((health_flush st now_ms failed).dirty ≡ true)))
unfolding flush_locked fold_locked loaded_counters
flush_lem st now_ms true v = ground arith
flush_lem st now_ms false v = inl (refl, read_back, refl)
  where
    read_back :
        loaded_counters (flush_locked st now_ms false).saved
        ≡ (flush_locked st now_ms false).counters
    read_back =
        ground
          (arith, health_decode-encode (fold_locked st now_ms).counters (fold-InRange st now_ms v))

-- The counters after a boot, the uptime included.
init_counters :
    (k : Config) (st : Store) (now_ms : ℕ) (failed : Bool)
    → (loaded_counters st.saved).uptime_s < 2 ^ 32
    → (health_init k st now_ms failed).counters ≡ booted k (loaded_counters st.saved)
unfolding health_init flush_locked fold_locked evaluate_locked
init_counters k st now_ms true v = ground (arith, v)
init_counters k st now_ms false v = ground (arith, v)

flush_read :
    (st : Store) (now_ms : ℕ)
    → InRange st.counters
    → loaded_counters (health_flush st now_ms false).saved ≡ (health_flush st now_ms false).counters
flush_read st now_ms v = ground (arith, flush_lem st now_ms false v)

flush_uptime : (st : Store) (now_ms : ℕ) → (health_flush st now_ms false).counters.uptime_s < 2 ^ 32
unfolding flush_locked fold_locked
flush_uptime st now_ms = ground arith

-- What a boot of the build carries over from counters `c` to counters `d`.
abbrev pub Carried : Config → Counters → Counters → Type 0
Carried k c d =
    (d.presses ≡ c.presses)
    × (d.mismatch_events ≡ c.mismatch_events)
    × (d.button_swaps ≡ c.button_swaps)
    × (d.uptime_s ≡ c.uptime_s)
    × (d.boots ≡ u32 (c.boots + 1))
    × (d.flashes ≡ (if eq_bytes k.fw c.fw_sha then c.flashes else u32 (c.flashes + 1)))
    × (d.fw_sha ≡ k.fw)

booted_lem : (k : Config) (c : Counters) → let d = booted k c in Carried k c d
booted_lem k c = ground (arith, eq_bytes→eq k.fw c.fw_sha)

-- The boot after a flush that succeeded, on whatever build and with whatever its own flush
-- answers: presses, mismatches, button swaps and the uptime are those that were flushed, there is
-- one boot more, and one flash more exactly if the build's identity is another one. The counters
-- before the flush are within their C types.
pub reboot_lem :
    (k : Config) (st later : Store) (now_ms boot_ms : ℕ) (failed : Bool)
    → InRange st.counters
    → later.saved ≡ (health_flush st now_ms false).saved
    → let c = (health_flush st now_ms false).counters in
      let d = (health_init k later boot_ms failed).counters in Carried k c d
reboot_lem k st later now_ms boot_ms failed v e =
    let c = (health_flush st now_ms false).counters in
    let loaded : loaded_counters later.saved ≡ c = ap loaded_counters e ∙ flush_read st now_ms v in
    let fits = subst (λ d. d.uptime_s < 2 ^ 32) (sym loaded) (flush_uptime st now_ms) in
    let d : (health_init k later boot_ms failed).counters ≡ booted k c =
      init_counters k later boot_ms failed fits ∙ ap (booted k) loaded in
    subst (λ d. Carried k c d) (sym d) (booted_lem k c)

-- A new button starts at no presses and no mismatches, also of those that were not yet folded in,
-- and counts one swap, up to 255; boots, flashes and the build stay. The swaps before are a byte.
pub reset_button_lem :
    (k : Config) (st : Store) (now_ms : ℕ) (failed : Bool)
    → st.counters.button_swaps ≤ 255
    → let r = health_reset_button k st now_ms failed in
      (r.counters.presses ≡ 0)
      × (r.counters.mismatch_events ≡ 0)
      × (r.press_delta ≡ 0)
      × (r.mismatch_delta ≡ 0)
      × (r.counters.button_swaps ≡ min (st.counters.button_swaps + 1) 255)
      × (r.counters.boots ≡ st.counters.boots)
      × (r.counters.flashes ≡ st.counters.flashes)
      × (r.counters.fw_sha ≡ st.counters.fw_sha)
unfolding health_reset_button fold_locked evaluate_locked flush_locked
reset_button_lem k st now_ms true v = ground arith
reset_button_lem k st now_ms false v = ground arith
