-- ===== src/Address.antt =====
-- mercury/IPEndPoint.h, mercury/IPEndPoint.cpp, mercury/ID_common.h and mercury/ID.cpp: the address
-- of a node (also its SID) and the GUID of an object. Name lookup is the system's and not modelled.
pub mod Wire
use distributed_games.Base.{ℕ, ◌+◌, ◌%◌, Bool, ◌&&◌, ◌==◌, Option, none, some, if◌then◌else◌}
use distributed_games.Packet.{
  M, pure, ◌>>=◌, ◌>>◌, write_int, read_int, write_short, read_short, write_int_no_swap,
  read_int_no_swap,
}

-- The IP in network byte order, the port in the host's.
pub record IpEndPoint : Type 0 where
  pub ip : ℕ
  pub port : ℕ

abbrev pub sid_none : IpEndPoint
sid_none = record { ip = 0; port = 0 }

unfoldable pub equals : IpEndPoint → IpEndPoint → Bool
equals s1 s2 = s1.ip == s2.ip && s1.port == s2.port

-- `ConstructFromString`: the address that the resolver found, or what `inet_addr` made of the text,
-- 2^32 - 1 if it is none. The port goes from an `int` to 16 bits.
pub construct_from_string : Option ℕ → ℕ → ℕ → IpEndPoint
construct_from_string resolved inet_addr port =
    let ip : ℕ = elim resolved [ some a ↦ a | none ↦ inet_addr ] in
    if ip == 4294967295 then sid_none else record { ip = ip; port = port % 65536 }

pub serialize : IpEndPoint → M (Unit {0})
serialize e = do write_int_no_swap e.ip; write_short e.port

pub construct : M IpEndPoint
construct = do ip ← read_int_no_swap; port ← read_short; pure (record { ip = ip; port = port })

pub get_length : IpEndPoint → ℕ
get_length e = 4 + 2

pub record Guid : Type 0 where
  pub ip : ℕ
  pub port : ℕ
  pub local_oid : ℕ

abbrev pub guid_none : Guid
guid_none = record { ip = 0; port = 0; local_oid = 0 }

pub equals_guid : Guid → Guid → Bool
equals_guid g1 g2 = g1.ip == g2.ip && (g1.port == g2.port && g1.local_oid == g2.local_oid)

pub serialize_guid : Guid → M (Unit {0})
serialize_guid g = do write_int g.ip; write_short g.port; write_int g.local_oid

pub construct_guid : M Guid
construct_guid = do
  ip ← read_int
  port ← read_short
  local_oid ← read_int
  pure (record { ip = ip; port = port; local_oid = local_oid })

pub get_length_guid : Guid → ℕ
get_length_guid g = 4 + 2 + 4
