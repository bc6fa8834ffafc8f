-- ===== src/Message/JoinResponse/Codec.antt =====
-- `MsgJoinResponse` (mercury/Message.cpp) as bytes, where it assigns a range.
use distributed_games.Base.{ℕ, ◌≡◌, none, some, List, [], ◌∷◌, ◌++◌, arith, length-append}
use distributed_games.Packet.Codec.{IsCodec, Begins, Begins-append}
use distributed_games.Packet.Writes.{Writes-then, Writes-byte}
use distributed_games.Packet.Reads.{Reads-bind, Reads-byte}
use distributed_games.Constraint.{NodeRange}
use distributed_games.Message.Wire as HeaderWire
use distributed_games.Message.JoinResponse.{
  JoinResponse, serialize_join_response, construct_join_response, get_length_join_response,
  assigned_bytes, IsAssigned, Writes-answer, Reads-answer, length-answer,
}

abbrev pub IsWireAssigned : JoinResponse → Type 0
IsWireAssigned m = HeaderWire.IsWire m.header × ((range : NodeRange) × IsAssigned m range)

abbrev answer_bytes : JoinResponse → List ℕ
answer_bytes m = elim m.assigned_range [ none ↦ [] | some range ↦ assigned_bytes m range ]

answer_bytes_lem :
    (m : JoinResponse) (range : NodeRange)
    → IsAssigned m range
    → answer_bytes m ≡ assigned_bytes m range
answer_bytes_lem m range h = ground (arith, h.1)

pub join_response_codec :
    IsCodec serialize_join_response construct_join_response get_length_join_response IsWireAssigned
unfolding serialize_join_response construct_join_response
join_response_codec = record {
  bytes = λ m. HeaderWire.codec.bytes m.header ++ ((m.e_error ∷ []) ++ answer_bytes m);
  writes = λ m h.
      let (hm, (range, assigned)) = h in
      rw (answer_bytes_lem m range assigned) (
        Writes-then (HeaderWire.codec.writes m.header hm)
          (Writes-then (Writes-byte m.e_error) (Writes-answer m hm range assigned)));
  reads = λ m h.
      let (hm, (range, assigned)) = h in
      rw (answer_bytes_lem m range assigned) (
        Reads-bind _ (HeaderWire.codec.reads m.header hm)
          (Reads-bind _ (Reads-byte m.e_error) (Reads-answer m hm range assigned)));
  sized = λ m h.
      let (hm, (range, assigned)) = h in
      rw (answer_bytes_lem m range assigned) (
        omega (
          arith,
          length-answer m hm range assigned,
          length-append (HeaderWire.codec.bytes m.header) (m.e_error ∷ assigned_bytes m range),
          HeaderWire.codec.sized m.header hm,
        ));
}

pub join_response_codec-Begins :
    (m : JoinResponse) → Begins m.header.type (join_response_codec.bytes m)
unfolding join_response_codec
join_response_codec-Begins m = Begins-append _ (HeaderWire.codec-Begins m.header)
