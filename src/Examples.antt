-- ===== src/Examples.antt =====
-- The theorems at concrete inputs: a wire format, a device with one bonded machine, a joystick.
mod Samples
mod Control
mod Network
mod Panel
mod Counters
mod Requests
mod Remote
mod Uploads
mod Pads
mod Shared
