-- ===== src/Message/JoinResponse.antt =====
-- `MsgJoinResponse` (mercury/Message.h, mercury/Message.cpp): the answer to a join request, an error or
-- the range that the new node gets, with the successors of the node that answers.
pub mod Codec
use distributed_games.Base.{
  ℕ, ◌+◌, ◌≤◌, ◌<◌, ◌≡◌, ◌≢◌, Bool, false, Option, none, some, List, [], ◌∷◌, ◌++◌, ◌==◌,
  if◌then◌else◌, arith, refl, ap, sym, length-append, length,
}
use distributed_games.Packet.{
  M, pure, fault, ◌>>=◌, ◌>>◌, bool_byte, int_bytes, write_byte, read_byte, write_bool, read_bool,
  write_float, read_float, write_list, read_list_int, lengths,
}
use distributed_games.Packet.Codec.{FitsInt, list_codec_int, length-then}
use distributed_games.Packet.Transmit.{arrives, arrives_lem}
use distributed_games.Packet.Writes.{
  Writes, Writes-then, Writes-byte, Writes-bool, Writes-float, Writes-pure, length-int_bytes,
}
use distributed_games.Packet.Reads.{
  Reads, Reads-eq, Reads-bind, Reads-map, Reads-pure, Reads-byte, Reads-bool, Reads-float,
}
use distributed_games.Constraint.{NodeRange, range_none}
use distributed_games.Constraint
use distributed_games.Constraint.Wire as ConstraintWire
use distributed_games.Message.{Message}
use distributed_games.Message
use distributed_games.Message.Wire as HeaderWire
use distributed_games.Message.Successors.{
  PeerInfo, serialize_peer_info, construct_peer_info, get_length_peer_info, IsWirePeerInfo,
  peer_info_codec,
}

-- `MsgJoinResponse`: `e_error` is 0 for `JOIN_NO_ERROR` and 1 for `JOIN_AM_UNJOINED`, and
-- `assigned_range` a pointer. `load` is a float.
pub record JoinResponse : Type 0 where
  pub header : Message
  pub e_error : ℕ
  pub assigned_range : Option NodeRange
  pub succ_is_only_node : Bool
  pub sil : List PeerInfo
  pub is_lb_leavejoin : Bool
  pub load : ℕ

serialize_assigned : JoinResponse → NodeRange → M (Unit {0})
serialize_assigned m range = do
  Constraint.serialize range
  write_bool m.succ_is_only_node
  write_list serialize_peer_info m.sil
  write_bool m.is_lb_leavejoin
  write_float m.load

-- A null `assigned_range` is dereferenced.
serialize_answer : JoinResponse → M (Unit {0})
serialize_answer m =
    if m.e_error == 0
    then elim m.assigned_range [ none ↦ fault | some range ↦ serialize_assigned m range ]
    else pure tt

pub serialize_join_response : JoinResponse → M (Unit {0})
serialize_join_response m = do Message.serialize m.header; write_byte m.e_error; serialize_answer m

construct_assigned : Message → ℕ → M JoinResponse
construct_assigned header e_error = do
  range ← Constraint.construct
  succ_is_only_node ← read_bool
  sil ← read_list_int construct_peer_info
  is_lb_leavejoin ← read_bool
  load ← read_float
  pure (record {
    header = header;
    e_error = e_error;
    assigned_range = some range;
    succ_is_only_node = succ_is_only_node;
    sil = sil;
    is_lb_leavejoin = is_lb_leavejoin;
    load = load;
  })

-- After an error the last three fields are as memory held them, here `false` and 0.
abbrev pub construct_denied : Message → ℕ → JoinResponse
construct_denied header e_error = record {
  header = header;
  e_error = e_error;
  assigned_range = none;
  succ_is_only_node = false;
  sil = [];
  is_lb_leavejoin = false;
  load = 0;
}

construct_answer : Message → ℕ → M JoinResponse
construct_answer header e_error =
    if e_error == 0
    then construct_assigned header e_error
    else pure (construct_denied header e_error)

pub construct_join_response : M JoinResponse
construct_join_response = do
  header ← Message.construct
  e_error ← read_byte
  construct_answer header e_error

-- After an error it counts `sizeof (eError)`, 4 bytes.
pub get_length_join_response : JoinResponse → ℕ
get_length_join_response m =
    if m.e_error == 0
    then Message.get_length m.header
      + (1
          + (elim m.assigned_range [ none ↦ 0 | some range ↦ Constraint.get_length range ]
              + (1 + ((4 + lengths get_length_peer_info m.sil) + (1 + 4)))))
    else Message.get_length m.header + 4

-- A response that assigns a range.
abbrev pub IsAssigned : JoinResponse → NodeRange → Type 0
IsAssigned m range =
    (m.e_error ≡ 0)
    × (m.assigned_range ≡ some range)
    × ConstraintWire.IsWire range
    × (m.load < 4294967296)
    × FitsInt IsWirePeerInfo m.sil

-- A response that reports an error holds nothing else.
abbrev pub IsDenied : JoinResponse → Type 0
IsDenied m = (m.e_error ≢ 0) × (m ≡ construct_denied m.header m.e_error)

assigned_bytes : JoinResponse → NodeRange → List ℕ
assigned_bytes m range =
    ConstraintWire.codec.bytes range
    ++ ((bool_byte m.succ_is_only_node ∷ [])
        ++ ((list_codec_int peer_info_codec).bytes m.sil
            ++ ((bool_byte m.is_lb_leavejoin ∷ []) ++ int_bytes m.load)))

not_zero : (k : ℕ) → k ≢ 0 → (k == 0) ≡ false
not_zero k h = ground arith

answer_assigned :
    (header : Message) (e_error : ℕ)
    → e_error ≡ 0
    → construct_answer header e_error ≡ construct_assigned header e_error
unfolding construct_answer
answer_assigned header e_error e = rw e refl

answer_denied :
    (header : Message) (e_error : ℕ)
    → e_error ≢ 0
    → construct_answer header e_error ≡ pure (construct_denied header e_error)
unfolding construct_answer
answer_denied header e_error e = rw (not_zero e_error e) refl

module _ (m : JoinResponse) (hm : HeaderWire.IsWire m.header) where
  module _ (range : NodeRange) (h : IsAssigned m range) where
    Writes-answer : Writes (serialize_answer m) (assigned_bytes m range)
    unfolding serialize_answer serialize_assigned assigned_bytes
    Writes-answer =
        rw (h.0, h.1)
          (Writes-then (ConstraintWire.codec.writes range h.2) (
            Writes-then (Writes-bool m.succ_is_only_node) (
              Writes-then ((list_codec_int peer_info_codec).writes m.sil h.4)
                (Writes-then (Writes-bool m.is_lb_leavejoin) (Writes-float m.load)))))

    Reads-answer : Reads (construct_answer m.header m.e_error) (assigned_bytes m range) m
    unfolding construct_answer construct_assigned assigned_bytes
    Reads-answer = rw (answer_assigned m.header m.e_error h.0) (
        Reads-eq (ap (λ o. record m { assigned_range = o }) (sym h.1)) (
          Reads-bind _ (ConstraintWire.codec.reads range h.2) (
            Reads-bind _ (Reads-bool m.succ_is_only_node) (
              Reads-bind _ ((list_codec_int peer_info_codec).reads m.sil h.4) (
                Reads-bind _ (Reads-bool m.is_lb_leavejoin)
                  (Reads-map _ (Reads-float m.load h.3)))))))

    length-answer :
        Message.get_length m.header + (1 + length (assigned_bytes m range))
        ≡ get_length_join_response m
    unfolding assigned_bytes get_length_join_response
    length-answer =
        rw (h.0, h.1)
          (ap (λ (k : ℕ). Message.get_length m.header + (1 + k))
            (length-then _ _ (ConstraintWire.codec.sized range h.2) (
              length-then (bool_byte m.succ_is_only_node ∷ []) _ refl (
                length-then _ _ ((list_codec_int peer_info_codec).sized m.sil h.4) (
                  length-then (bool_byte m.is_lb_leavejoin ∷ []) _ refl
                    (length-int_bytes m.load))))))

  module _ (h : IsDenied m) where
    Writes-denial : Writes (serialize_answer m) []
    unfolding serialize_answer
    Writes-denial = rw (not_zero m.e_error h.0) Writes-pure

    Reads-denial : Reads (construct_answer m.header m.e_error) [] m
    Reads-denial = rw (answer_denied m.header m.e_error h.0) (Reads-eq (sym h.1) (Reads-pure _))

    -- A response that reports an error arrives whole even in a packet 3 bytes smaller than the one
    -- that it asks for.
    pub denial_round_trip :
        (n : ℕ)
        → get_length_join_response m ≤ n + 3
        → arrives n (serialize_join_response m) construct_join_response ≡ some m
    unfolding serialize_join_response construct_join_response get_length_join_response
    denial_round_trip n fits =
        arrives_lem n
          (Writes-then (HeaderWire.codec.writes m.header hm)
            (Writes-then (Writes-byte m.e_error) Writes-denial))
          (Reads-bind _ (HeaderWire.codec.reads m.header hm)
            (Reads-bind _ (Reads-byte m.e_error) Reads-denial))
          (ground (
            arith,
            not_zero m.e_error h.0,
            length-append (HeaderWire.codec.bytes m.header) (m.e_error ∷ []),
            HeaderWire.codec.sized m.header hm,
          ))
