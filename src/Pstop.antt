-- ===== src/Pstop.antt =====
-- What the firmware takes from pstop_c, the protocol library (a west module, not part of this
-- repository): its message codes, its message constructors and its codec. They are parameters.
use zephyr_applications.Common.{◌<◌, ◌^◌, ◌≡◌, ℕ, ◌≢◌, List}

-- PSTOP_MESSAGE_OK and its siblings.
pub record Codes : Type 0 where
  pub ok : ℕ
  pub stop : ℕ
  pub bond : ℕ
  pub unbond : ℕ
  pub unknown : ℕ

-- Codes of different messages differ, as the values of an enumeration do.
pub record IsDistinct (c : Codes) : Type 0 where
  pub ok_ne_stop : c.ok ≢ c.stop
  pub ok_ne_bond : c.ok ≢ c.bond
  pub ok_ne_unbond : c.ok ≢ c.unbond
  pub stop_ne_bond : c.stop ≢ c.bond
  pub stop_ne_unbond : c.stop ≢ c.unbond
  pub bond_ne_unbond : c.bond ≢ c.unbond

-- The fields of a decoded `pstop_msg_t` that the firmware reads.
pub record Reply : Type 0 where
  pub message : ℕ
  pub counter : ℕ
  pub stamp : ℕ
  pub heartbeat_timeout : ℕ
  pub checksum : ℕ
  pub calculated_checksum : ℕ

-- The fields of `protocol_data_t` that the firmware reads or writes.
pub record Proto : Type 0 where
  pub msg_counter : ℕ
  pub last_received_counter : ℕ
  pub last_received_stamp : ℕ
  pub remote_id : ℕ

-- A `pstop_msg_t` and an encoded frame are lists of bytes, a `device_id_t` is a number; nothing is
-- assumed of how the library lays them out.
pub record Wire : Type 0 where
  -- pstop_create_bond_message: now, me, remote, counter
  pub create_bond : ℕ → ℕ → ℕ → ℕ → List ℕ
  -- pstop_create_generic_message: type, now, received stamp, me, remote, counter, received counter
  pub create_generic : ℕ → ℕ → ℕ → ℕ → ℕ → ℕ → ℕ → List ℕ
  -- pstop_aux_encode_role
  pub encode_role : List ℕ → ℕ → List ℕ
  -- pstop_message_encode and pstop_message_decode
  pub encode : List ℕ → List ℕ
  pub decode : List ℕ → Reply
  -- protocol_data_init and device_id_set
  pub proto_init : Proto
  pub device_id : ℕ → ℕ

-- A frame tells the type of its message: two frames that differ in nothing else have the same type.
-- (The type is a byte of the message, and the codec can be decoded.)
pub record TellsType (w : Wire) : Type 0 where
  pub type_injective :
      (a b now stamp me remote counter received role : ℕ)
      → w.encode (w.encode_role (w.create_generic a now stamp me remote counter received) role)
        ≡ w.encode (w.encode_role (w.create_generic b now stamp me remote counter received) role)
      → a ≡ b

-- A frame that is decoded has the counter of the message that was encoded, a word of 32 bits.
pub record KeepsCounter (w : Wire) : Type 0 where
  pub bond_counter :
      (now me remote counter role : ℕ)
      → counter < 2 ^ 32
      → (w.decode (w.encode (w.encode_role (w.create_bond now me remote counter) role))).counter
        ≡ counter
  pub generic_counter :
      (type now stamp me remote counter received role : ℕ)
      → counter < 2 ^ 32
      → (w.decode (
          w.encode (
            w.encode_role
              (w.create_generic type now stamp me remote counter received)
              role))).counter
        ≡ counter
