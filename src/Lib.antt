-- ===== src/Lib.antt =====
-- Verification of the firmware in this repository: the protective stop remote
-- (applications/protective_stop/src), the joystick's teleoperation
-- (applications/joystick_controller/src), the camera's upload loop (applications/prusa_cam/src),
-- the key pad (applications/codex_keys/src), and the clock and the reset reasons that the applications
-- share (applications/common).
--
-- The remote samples two e-stop loops every 100 ms, decides OK or STOP on each, encodes the verdict
-- twice for every machine, compares the two encodings, and sends a frame only if they agree. Machines
-- answer; a session per machine bonds, heartbeats, gives up and parks. Beside that the remote counts
-- presses and mismatches over its lifetime, keeps a board of warnings, shows its state on a ring of
-- LEDs and on a status pixel, and keeps the last log output in memory that survives a reset.
--
-- Which file models what. A C function that changes a structure takes it and returns the new one; a
-- field keeps its name; a call's result is part of what is returned.
-- - Common: lists as C arrays, fixed-width words, the integers of the joystick.
-- - Pstop: the message codes and the codec of pstop_c, a west module that is not in this repository.
--   They are parameters (`Codes`, `Wire`); theorems that need it assume that different codes differ
--   (`IsDistinct`) and that a frame tells the type of its message (`TellsType`).
-- - Estop: estop_verdict.c, and `estop_channel_sample` of estop_gpio.c, with the two readbacks of the
--   GPIO driver as arguments, an error being the bit pattern of a negative int.
-- - Session: session.c. `commit_send` is told whether the whole frame was taken, `poll` the datagrams
--   that wait, `session_open` what the socket calls answer.
-- - Lockstep: lockstep.c. `Lockstep` is the file's variables, an array over machines being a list of
--   `Slot` and an array over channels two fields; `Env` is what a tick reads from outside and
--   `Effects` what it sends. `tick` is `pstop_lockstep_tick`, which runs the samplers in turn;
--   `finish_round` is the end of a round of the threaded comparator.
-- - Ring: ring.c; Ring/Mismatch its purple filter, Ring/Status its status pixel.
-- - Health: health_logic.c in Blob (the persisted counters), Edge (the edge detector), Levels (the
--   thresholds) and Board (the warnings), and health.c in Store. A store is every variable of
--   health.c and the blob that the settings hold; the uptime, the outcome of a settings write, the
--   printed texts and the build's identity are arguments.
-- - LogRing: log_ring.c.
-- - Teleop: joystick_controller/src/teleop.c; `Floats` is the arithmetic of double.
-- - Http: applications/common/http_util/http_util.c: the number parsers, Query one value of a URL's
--   query, Auth the basic authentication; base64 is a parameter. A C string is the list of its bytes.
-- - Settings: app_settings.c. `Memory` is the file's variables and `saved` the records that the
--   settings library keeps, in the order written; loading replays them through the handler. An
--   argument tells how a write ends; a write that fails stores nothing.
-- - Wifi: wifi.c. `supervise` is one run of the work handler, with what the network library answers as
--   arguments and its requests as a list.
-- - Api: api.c. `Device` is the state that the handlers reach, `Host` what they take from the build
--   and from the libraries: snprintf's decimal digits, the JSON parser, base64. Api has the response
--   buffer and admin_ok, Api/Slots the table of machines, Api/Admin the routes behind the password and
--   the LED ring's, Api/Networks the list of networks; Whole, Access, Reconfigure and Masked have
--   their theorems. A handler answers the response and the state after it.
-- - Camera: applications/prusa_cam/src/connect.c, the upload loop, and what answers mean, the token and
--   the triggers of applications/common/prusa_camera/prusa_camera_proto.c. A turn takes the answer to
--   its request, and whether a kick comes in meanwhile.
-- - Codex: applications/codex_keys/src. Codex is what codex_hid.c sends, Codex.Receive what it puts
--   together, Codex.Json the walk of codex_json.c, Codex.Rpc the requests of codex_rpc.c, Codex.Keys
--   and Codex.Keys.Encoder the loop of main.c, Codex.Served their composition. Codex.Json.Syntax is an
--   independent description of JSON: values with the white space around their parts, and the text that
--   prints them. The loop over a text that is sent runs on fuel 512, the size
--   of its buffer, and each turn consumes at least one byte; the loop over the members of an object
--   runs on as much fuel as the text is long, and each member consumes at least two bytes.
-- - Support: Support.Time is applications/common/time/app_time.c, where a handler returns the calls
--   that it makes, and Support.Time.Alive adds what the work queue and the resolver were asked to call
--   back. Support.Resets is applications/common/reset_reason/app_reset_reason.c.
-- - Examples: the theorems at concrete inputs.
--
-- The components meet as they do in the code: Lockstep calls `estop_channel_sample` of Estop and the
-- operations of Session; Ring shows the states of Session; Health.Store counts what Lockstep's
-- observer is told, through Health.Edge, and publishes on Health.Board. Api reads queries by
-- Http.Query and Http, lets requests in by Http.Auth, and writes to Settings, Wifi and Health.Store;
-- its request bits are those that Lockstep serves at the start of a tick.
--
-- Words of 8, 16, 32 and 64 bits wrap as written (`u8`, `u32`, `sub32`, `sub64`). The loops are over
-- lists, but for the loop of `log_ring_write`, which runs on fuel 4097 (a write is cut to 4096 bytes
-- first and each turn consumes at least one of them), and the two loops of Codex.
--
-- Not modelled: the threads of the samplers with their semaphores (the synchronous tick and the end
-- of a threaded round are), spin locks, logging, pin configuration, the two telemetry bodies
-- (`pstop_api_state`, `pstop_api_health`), the glue of the HTTP server, the uplink, and the other applications of the repository, which are mostly drivers, bindings and
-- user interface.
pub mod Common
pub mod Pstop
pub mod Estop
pub mod Session
pub mod Settings
pub mod Wifi
pub mod Lockstep
pub mod Ring
pub mod Health
pub mod Api
pub mod Teleop
pub mod LogRing
pub mod Http
pub mod Camera
pub mod Codex
pub mod Support
pub mod Examples
