-- ===== src/Message.antt =====
-- mercury/Message.h and mercury/Message.cpp: the header that every message begins with. Types are
-- numbered in the order of `RegisterMessageTypes`; those from the sentinel on belong to the
-- application, and their headers have no hub.
pub mod Wire
pub mod Ring
pub mod Successors
pub mod Join
pub mod JoinResponse
pub mod Routing
pub mod Transfer
pub mod Protocol
use distributed_games.Base.{ℕ, ◌+◌, Bool, ◌==◌, ltb, if◌then◌else◌}
use distributed_games.Packet.{
  M, pure, fault, ◌>>=◌, ◌>>◌, write_byte, read_byte, write_short, read_short, write_int, read_int,
}
use distributed_games.Address.{IpEndPoint, sid_none}
use distributed_games.Address

-- `type` is what `GetType` returns. The time of receipt serves measurement and is left out.
pub record Message : Type 0 where
  pub type : ℕ
  pub sender : IpEndPoint
  pub hub_id : ℕ
  pub hop_count : ℕ
  pub nonce : ℕ

abbrev pub msg_invalid : ℕ
msg_invalid = 255

abbrev pub msg_mercury_sentinel : ℕ
msg_mercury_sentinel = 46

abbrev pub is_merc_msg : ℕ → Bool
is_merc_msg t = ltb t msg_mercury_sentinel

-- The constructor from a hub and a sender, with its ASSERT; `nonce` is what `CreateNonce` gave.
pub new_message : ℕ → ℕ → IpEndPoint → ℕ → M Message
new_message type hub_id sender nonce =
    if is_merc_msg type
    then pure
        (record { type = type; sender = sender; hub_id = hub_id; hop_count = 0; nonce = nonce })
    else fault

serialize_hub_id : Message → M (Unit {0})
serialize_hub_id m = if is_merc_msg m.type then write_byte m.hub_id else pure tt

pub serialize : Message → M (Unit {0})
serialize m = if m.type == msg_invalid then fault else do
  write_byte m.type
  Address.serialize m.sender
  serialize_hub_id m
  write_short m.hop_count
  write_int m.nonce

-- The hub is read if the type that was just read is one of Mercury's, and is not set otherwise.
construct_hub_id : ℕ → M ℕ
construct_hub_id type = if is_merc_msg type then read_byte else pure 0

pub construct : M Message
construct = do
  type ← read_byte
  sender ← Address.construct
  hub_id ← construct_hub_id type
  hop_count ← read_short
  nonce ← read_int
  pure (record {
    type = type;
    sender = sender;
    hub_id = hub_id;
    hop_count = hop_count;
    nonce = nonce;
  })

pub get_length : Message → ℕ
get_length m = 1 + (Address.get_length m.sender + ((if is_merc_msg m.type then 1 else 0) + (2 + 4)))
