-- ===== src/Lockstep.antt =====
-- The lockstep comparator: applications/protective_stop/src/lockstep.{c,h}. The file's statics are
-- one record. Arrays indexed by slot are one list of `Slot`, arrays indexed by sampler are the two
-- fields `channel_a` and `channel_b`, and a request mask is a flag in each slot. What the settings,
-- the switch, the network and the clock answer during a tick is an `Env`. A tick also returns
-- its effects: the frames that it hands to the network, and the call of the tick observer.
pub mod Defs
pub use Defs.{
  Slot, Channel, Diag, DiagEvent, no_event, timeout, content, Lockstep, Env, Effects, no_effects,
  active_due, eq_bytes, first_diff, each_slot,
}
pub mod Tick
pub mod Round
pub mod Compare
pub mod Body
pub mod Past
pub mod Safety
