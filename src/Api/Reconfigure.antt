-- ===== src/Api/Reconfigure.antt =====
-- The settings of the machines and the comparator that uses them.
use zephyr_applications.Common.{
  ◌%◌, ◌^◌, zero, suc, subst, ℕ, ◌≡◌, ◌<◌, ◌⊎◌, inl, inr, refl, sym, Bool, true, false, List, [],
  ◌∷◌, get_or, set, length, arith, leb, Bool-cases, Option-cases, get_or-set_self, get_or-set_ne,
  ◌==◌,
}
use zephyr_applications.Common.Text.{codes}
use zephyr_applications.Http.{http_parse_u32}
use zephyr_applications.Http.Query.{http_query_get}
use zephyr_applications.Settings.{
  Name, Image, save_one, peers_name, peer_image, no_peer, put_peer, app_settings_set_peer,
  app_settings_clear_peer, Peer,
}
use zephyr_applications.Api.{request_reconfigure, Host, Device}
use zephyr_applications.Api.Slots.{
  parsed, slot_fields, set_slot, clear_slot, peers_of, pstop_api_pstop_peer, pstop_api_pstop_peers,
  Fields, fields, refused,
}

-- The comparator is told: slot `j` is as it was, or is waiting to be read again; and no request is
-- lost.
abbrev pub IsTold : ℕ → Device → Device → Type 0
IsTold j dev after =
    ((get_or after.settings.mem.peers j no_peer ≡ get_or dev.settings.mem.peers j no_peer)
      ⊎ (get_or after.reconfigure j false ≡ true))
    × ((get_or dev.reconfigure j false ≡ false) ⊎ (get_or after.reconfigure j false ≡ true))

kept : (bits : List Bool) (j : ℕ) → (get_or bits j false ≡ false) ⊎ (get_or bits j false ≡ true)
kept bits j = elim (Bool-cases (get_or bits j false)) [ inl e ↦ inr e | inr e ↦ inl e ]

set-true :
    (bits : List Bool) (i j : ℕ)
    → (get_or bits j false ≡ false) ⊎ (get_or (set bits i true) j false ≡ true)
set-true [] i j = inl refl
set-true (b ∷ bits) zero zero = inr refl
set-true (true ∷ bits) zero (suc j) = kept bits j
set-true (false ∷ bits) zero (suc j) = kept bits j
set-true (b ∷ bits) (suc i) zero = kept (b ∷ bits) zero
set-true (b ∷ bits) (suc i) (suc j) = set-true bits i j

-- A slot that is written and asked to be read again.
abbrev written : Device → ℕ → Peer → List (Name × Image) → Device
written dev slot p saved =
    request_reconfigure
      (record dev {
        settings = record {
          mem = record dev.settings.mem { peers = set dev.settings.mem.peers slot p };
          saved = saved;
        };
      })
      slot

-- What a request leaves of the state: nothing changed, or one slot written.
abbrev Written : Device → ℕ → Device → Type 0
Written dev slot after =
    (after ≡ dev)
    ⊎ ((slot < 4) × (p : Peer) × (saved : List (Name × Image)) × (after ≡ written dev slot p saved))

Written-IsTold :
    (dev after : Device) (slot j : ℕ)
    → length dev.reconfigure ≡ 4
    → Written dev slot after
    → IsTold j dev after
Written-IsTold dev after slot j n (inl e) =
    subst (λ d. IsTold j dev d) (sym e) (inl refl, kept dev.reconfigure j)
Written-IsTold dev after slot j n (inr (small, p, saved, e)) =
    subst (λ d. IsTold j dev d) (sym e)
      (
        elim (Bool-cases (slot == j)) [
          | inl same ↦ inr (
              subst (λ i. get_or (set dev.reconfigure slot true) i false ≡ true) (ground arith)
                (get_or-set_self dev.reconfigure slot true false (omega (arith, n))))
          | inr apart ↦
              inl (get_or-set_ne dev.settings.mem.peers slot j p no_peer (λ e. ground arith))
        ],
        set-true dev.reconfigure slot j,
      )

clear_slot-Written :
    (dev : Device) (slot : ℕ) (failed : Bool) → Written dev slot (clear_slot dev slot failed).1
unfolding clear_slot app_settings_clear_peer put_peer
clear_slot-Written dev slot true = inl (ground arith)
clear_slot-Written dev slot false = elim (Bool-cases (leb 4 slot)) [
  | inl out ↦ inl (ground (arith, out))
  | inr inside ↦ inr (
    ground arith,
    no_peer,
    save_one dev.settings (peers_name slot) (peer_image no_peer),
    ground (arith, inside),
  )
]

Fields-cases :
    (f : Fields)
    → ((err : List ℕ) × (f ≡ refused err))
      ⊎ ((ip : ℕ) × (port : ℕ) × (id : ℕ) × (f ≡ fields ip port id))
Fields-cases (refused err) = inl (err, refl)
Fields-cases (fields ip port id) = inr (ip, port, id, refl)

set_slot-Written :
    (dev : Device) (slot : ℕ) (url : List ℕ) (failed : Bool)
    → Written dev slot (set_slot dev slot url failed).1
unfolding set_slot app_settings_set_peer put_peer
set_slot-Written dev slot url failed = elim (Fields-cases (slot_fields url)) [
  | inl (err, e) ↦ inl (ground (arith, e))
  | inr (ip, port, id, e) ↦ elim (Bool-cases failed) [
    | inl f ↦ inl (ground (arith, e, f))
    | inr f ↦ elim (Bool-cases (leb 4 slot)) [
      | inl out ↦ inl (ground (arith, e, out))
      | inr inside ↦
          let p : Peer = record { ip = ip; port = port % 2 ^ 16; id = id; configured = true } in
          inr (
            ground arith,
            p,
            save_one dev.settings (peers_name slot) (peer_image p),
            ground (arith, e, f, inside),
          )
    ]
  ]
]

peers_of-IsTold :
    (h : Host) (dev : Device) (slot : ℕ) (url : List ℕ) (failed : Bool) (j : ℕ)
    → length dev.reconfigure ≡ 4
    → IsTold j dev (peers_of h dev slot url failed).1
unfolding peers_of
peers_of-IsTold h dev slot url failed j n =
    let cleared =
      Written-IsTold dev (clear_slot dev slot failed).1 slot j n
        (clear_slot-Written dev slot failed) in
    let put =
      Written-IsTold dev (set_slot dev slot url failed).1 slot j n
        (set_slot-Written dev slot url failed) in
    ground (arith, cleared, put)

peer-IsTold :
    (h : Host) (dev : Device) (url : List ℕ) (failed : Bool) (j : ℕ)
    → length dev.reconfigure ≡ 4
    → IsTold j dev (pstop_api_pstop_peer h dev url failed).1
unfolding pstop_api_pstop_peer
peer-IsTold h dev url failed j n =
    let cleared =
      Written-IsTold dev (clear_slot dev 0 failed).1 0 j n (clear_slot-Written dev 0 failed) in
    let put =
      Written-IsTold dev (set_slot dev 0 url failed).1 0 j n (set_slot-Written dev 0 url failed) in
    ground (arith, cleared, put)

-- Whatever a request to the table of machines asks and whatever the writes answer, the comparator
-- never goes on with a machine that the settings no longer name: a slot whose stored machine the
-- request changes is marked to be read again, and no mark is lost. There is a mark for each of the
-- four slots.
pub pstop_api_pstop_peers-IsTold :
    (h : Host) (dev : Device) (url : List ℕ) (failed : Bool) (j : ℕ)
    → length dev.reconfigure ≡ 4
    → IsTold j dev (pstop_api_pstop_peers h dev url failed).1
      × IsTold j dev (pstop_api_pstop_peer h dev url failed).1
unfolding pstop_api_pstop_peers
pstop_api_pstop_peers-IsTold h dev url failed j n = (
  elim (Option-cases (parsed http_parse_u32 (http_query_get url (codes "slot") 8))) [
    | inl missing ↦ ground (arith, missing)
    | inr (slot, e) ↦ ground (arith, e, peers_of-IsTold h dev slot url failed j n)
  ],
  peer-IsTold h dev url failed j n,
)
