-- ===== src/Support/Time/Twice.antt =====
-- A link that comes up again while a query is in flight.
use zephyr_applications.Common.{◌≡◌, refl, true, false, some, ℕ, [], ◌∷◌, arith}
use zephyr_applications.Support.Time.{
  Config, Clock, Answers, Server, family_len, sync_work_handler, start_sntp_query, start_or_retry,
  parse_sntp_server_addr, init_query, send_query, reschedule_timeout,
}
use zephyr_applications.Support.Time.Alive.{Waiting, link, step}

parsed_literal :
    (cfg : Config) (st : Clock) (a : Answers) (server : Server) (len : ℕ)
    → cfg.literal ≡ some server
    → family_len cfg server.family ≡ some len
    → a.port_fails ≡ false
    → parse_sntp_server_addr cfg st a
      ≡ (record st { sntp_addr = some server; sntp_addrlen = len }, true)
unfolding parse_sntp_server_addr
parsed_literal cfg st a server len l f p = ground (arith, l, f, p)

query_started :
    (cfg : Config) (st : Clock) (a : Answers)
    → a.init_fails ≡ false
    → a.send_fails ≡ false
    → start_or_retry cfg st a
      ≡ init_query st.sntp_addr st.sntp_addrlen
        ∷ send_query
        ∷ reschedule_timeout cfg.timeout_ms
        ∷ []
unfolding start_sntp_query
query_started cfg st a i s = rw (i, s) refl

-- While the timeout of a query is awaited, a link that comes up has the sync work run, which starts
-- a second query. The server is given by its address, and nothing fails.
pub second_query :
    (cfg : Config) (st : Clock) (w : Waiting) (a : Answers) (server : Server) (len : ℕ)
    → w.timeout ≡ true
    → cfg.literal ≡ some server
    → family_len cfg server.family ≡ some len
    → a.port_fails ≡ false
    → a.init_fails ≡ false
    → a.send_fails ≡ false
    → (let (up, next) = step cfg (st, w) (link true) in
        (next.timeout ≡ true)
        × (next.sync ≡ true)
        × ((sync_work_handler cfg up a).1
            ≡ init_query (some server) len ∷ send_query ∷ reschedule_timeout cfg.timeout_ms ∷ []))
unfolding sync_work_handler
second_query cfg st w a server len t l f p i s =
    let up = record st { ipv4_up = true } in
    let found = record up { sntp_addr = some server; sntp_addrlen = len } in
    (t, refl, rw (parsed_literal cfg up a server len l f p) (query_started cfg found a i s))
