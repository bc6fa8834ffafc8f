-- ===== src/Message/Join.antt =====
-- `MsgJoinRequest` (mercury/Message.h), with the field of `LOADBAL_TEST`, which the build defines.
use distributed_games.Base.{
  ℕ, ◌+◌, ◌≡◌, Bool, false, Bool-cases, inl, inr, List, [], ◌∷◌, ◌++◌, if◌then◌else◌, refl, length,
  pos, ◌≤◌, some,
}
use distributed_games.Packet.{M, pure, ◌>>=◌, ◌>>◌, bool_byte, write_bool, read_bool}
use distributed_games.Packet.Codec.{Begins, Begins-append, IsCodec, length-then, round_trip}
use distributed_games.Packet.Transmit.{arrives}
use distributed_games.Packet.Writes.{Writes, Writes-then, Writes-bool, Writes-pure}
use distributed_games.Packet.Reads.{Reads, Reads-bind, Reads-map, Reads-pure, Reads-bool}
use distributed_games.Value.{Value}
use distributed_games.Value
use distributed_games.Value.Wire as ValueWire
use distributed_games.Message.{Message}
use distributed_games.Message
use distributed_games.Message.Wire as HeaderWire

pub record JoinRequest : Type 0 where
  pub header : Message
  pub usedesired : Bool
  pub desiredmax : Value
  pub is_lb_leavejoin : Bool

serialize_desired : JoinRequest → M (Unit {0})
serialize_desired m = if m.usedesired then Value.serialize m.desiredmax else pure tt

pub serialize_join_request : JoinRequest → M (Unit {0})
serialize_join_request m = do
  Message.serialize m.header
  write_bool m.usedesired
  serialize_desired m
  write_bool m.is_lb_leavejoin

-- A value that is not sent is the 0 of its constructor.
construct_desired : Bool → M Value
construct_desired usedesired = if usedesired then Value.construct else pure (pos 0)

pub construct_join_request : M JoinRequest
construct_join_request = do
  header ← Message.construct
  usedesired ← read_bool
  desiredmax ← construct_desired usedesired
  is_lb_leavejoin ← read_bool
  pure (record {
    header = header;
    usedesired = usedesired;
    desiredmax = desiredmax;
    is_lb_leavejoin = is_lb_leavejoin;
  })

get_length_desired : JoinRequest → ℕ
get_length_desired m = if m.usedesired then Value.get_length m.desiredmax else 0

pub get_length_join_request : JoinRequest → ℕ
get_length_join_request m = Message.get_length m.header + (1 + (get_length_desired m + 1))

abbrev pub IsWireJoinRequest : JoinRequest → Type 0
IsWireJoinRequest m =
    HeaderWire.IsWire m.header
    × ValueWire.IsWire m.desiredmax
    × (m.usedesired ≡ false → m.desiredmax ≡ pos 0)

desired_bytes : JoinRequest → List ℕ
desired_bytes m = if m.usedesired then ValueWire.codec.bytes m.desiredmax else []

Writes-desired :
    (m : JoinRequest) → IsWireJoinRequest m → Writes (serialize_desired m) (desired_bytes m)
unfolding serialize_desired desired_bytes
Writes-desired m h = elim (Bool-cases m.usedesired) [
  | inl e ↦ rw e (ValueWire.codec.writes m.desiredmax h.1)
  | inr e ↦ rw e Writes-pure
]

Reads-desired :
    (m : JoinRequest)
    → IsWireJoinRequest m
    → Reads (construct_desired m.usedesired) (desired_bytes m) m.desiredmax
unfolding construct_desired desired_bytes
Reads-desired m h = elim (Bool-cases m.usedesired) [
  | inl e ↦ rw e (ValueWire.codec.reads m.desiredmax h.1)
  | inr e ↦ rw (e, h.2 e) (Reads-pure (pos 0))
]

length-desired_bytes :
    (m : JoinRequest) → IsWireJoinRequest m → length (desired_bytes m) ≡ get_length_desired m
unfolding desired_bytes get_length_desired
length-desired_bytes m h = elim (Bool-cases m.usedesired) [
  | inl e ↦ rw e (ValueWire.codec.sized m.desiredmax h.1)
  | inr e ↦ rw e refl
]

pub join_request_codec :
    IsCodec serialize_join_request construct_join_request get_length_join_request IsWireJoinRequest
unfolding serialize_join_request construct_join_request get_length_join_request
join_request_codec = record {
  bytes = λ m.
      HeaderWire.codec.bytes m.header
      ++ ((bool_byte m.usedesired ∷ []) ++ (desired_bytes m ++ (bool_byte m.is_lb_leavejoin ∷ [])));
  writes = λ m h. Writes-then (HeaderWire.codec.writes m.header h.0) (
      Writes-then (Writes-bool m.usedesired)
        (Writes-then (Writes-desired m h) (Writes-bool m.is_lb_leavejoin)));
  reads = λ m h. Reads-bind _ (HeaderWire.codec.reads m.header h.0) (
      Reads-bind _ (Reads-bool m.usedesired)
        (Reads-bind _ (Reads-desired m h) (Reads-map _ (Reads-bool m.is_lb_leavejoin))));
  sized = λ m h. length-then _ _ (HeaderWire.codec.sized m.header h.0) (
      length-then (bool_byte m.usedesired ∷ []) _ refl
        (length-then _ _ (length-desired_bytes m h) refl));
}

pub join_request_codec-Begins :
    (m : JoinRequest) → Begins m.header.type (join_request_codec.bytes m)
unfolding join_request_codec
join_request_codec-Begins m = Begins-append _ (HeaderWire.codec-Begins m.header)

-- A join request arrives as it was, with its wish for a range or without, in a packet with the room
-- that it asks for. Fields are in their ranges.
pub join_request_round_trip :
    (n : ℕ) (m : JoinRequest)
    → IsWireJoinRequest m
    → get_length_join_request m ≤ n
    → arrives n (serialize_join_request m) construct_join_request ≡ some m
join_request_round_trip n m h fits = round_trip join_request_codec n m h fits
