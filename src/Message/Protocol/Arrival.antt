-- ===== src/Message/Protocol/Arrival.antt =====
-- Messages of every modelled class on the wire.
use distributed_games.Base.{
  ℕ, ◌%◌, ◌+◌, ◌<◌, ◌≡◌, ap, ◌⊎◌, inl, inr, none, some, List, ◌∷◌, ltb, Bool-cases, if◌then◌else◌,
  arith, length, subst, sym, ◌∙◌,
}
use distributed_games.Packet.{M}
use distributed_games.Packet.Codec.{IsCodec, Begins}
use distributed_games.Packet.Writes.{Writes}
use distributed_games.Packet.Reads.{Reads, Reads-map}
use distributed_games.Packet.Transmit.{arrives, arrives_lem, arrives_short}
use distributed_games.AutoSerializer.{Reads-create_object}
use distributed_games.Message.Wire as HeaderWire
use distributed_games.Message.Ring.{
  heart_beat_codec, heart_beat_codec-Begins, ping_codec, ping_codec-Begins, pred_codec,
  pred_codec-Begins,
}
use distributed_games.Message.Successors.{successor_list_codec, successor_list_codec-Begins}
use distributed_games.Message.Join.{join_request_codec, join_request_codec-Begins}
use distributed_games.Message.JoinResponse.Codec.{join_response_codec, join_response_codec-Begins}
use distributed_games.Message.Routing.{
  publication_codec, publication_codec-Begins, linear_publication_codec,
  linear_publication_codec-Begins, subscription_codec, subscription_codec-Begins,
}
use distributed_games.Message.Transfer.{leave_codec, leave_codec-Begins}
use distributed_games.Message.Protocol.{
  AnyMessage, type_of, header_of, serialize_message, get_length_message, as_class,
  register_message_types, entry, typeinfo, create_message, IsWireMessage, heart_beat_msg,
  liveness_ping_msg, liveness_pong_msg, join_request_msg, join_response_msg, notify_successor_msg,
  get_pred_msg, pred_msg, get_successor_list_msg, successor_list_msg, link_break_msg,
  publication_msg, linear_publication_msg, ack_msg, subscription_msg, leave_msg,
}

-- A message is on the wire as some bytes that begin with its type.
abbrev IsSent : {O : Type 0} → (ℕ → M (AnyMessage ⊎ O)) → AnyMessage → Type 0
IsSent others m =
    (rest : List ℕ) × Writes (serialize_message m) (type_of m ∷ rest)
    × Reads (typeinfo others (type_of m)) (type_of m ∷ rest) (inl m)
    × (length (type_of m ∷ rest) ≡ get_length_message m)

wired :
    {A O : Type 0} {serialize : A → M (Unit {0})} {construct : M A} {get_length : A → ℕ}
    {IsWire : A → Type 0} (c : IsCodec serialize construct get_length IsWire) (f : A → AnyMessage)
    (a : A) {x t : ℕ}
    → IsWire a
    → x ≡ t
    → Begins x (c.bytes a)
    → (rest : List ℕ) × Writes (serialize a) (t ∷ rest)
      × Reads (as_class {O = O} f construct) (t ∷ rest) (inl (f a))
      × (length (t ∷ rest) ≡ get_length a)
unfolding as_class
wired {A} {O} {serialize} {construct} c f a h e (rest, begins) =
    let same = begins ∙ ap (λ y. y ∷ rest) e in
    (
      rest,
      subst (λ bs. Writes (serialize a) bs) same (c.writes a h),
      subst (λ bs. Reads (as_class {O = O} f construct) bs (inl (f a))) same
          (Reads-map (λ y. inl (f y)) (c.reads a h)),
      sym (ap length same) ∙ c.sized a h,
    )

module _ {O : Type 0} (others : ℕ → M (AnyMessage ⊎ O)) where
  IsSent-message :
      (m : AnyMessage) → (header_of m).type ≡ type_of m → IsWireMessage m → IsSent others m
  unfolding typeinfo register_message_types entry serialize_message type_of get_length_message
      header_of
  IsSent-message (heart_beat_msg m) e h =
      wired heart_beat_codec heart_beat_msg m h e (heart_beat_codec-Begins m)
  IsSent-message (liveness_ping_msg m) e h =
      wired ping_codec liveness_ping_msg m h e (ping_codec-Begins m)
  IsSent-message (liveness_pong_msg m) e h =
      wired ping_codec liveness_pong_msg m h e (ping_codec-Begins m)
  IsSent-message (join_request_msg m) e h =
      wired join_request_codec join_request_msg m h e (join_request_codec-Begins m)
  IsSent-message (join_response_msg m) e h =
      wired join_response_codec join_response_msg m h e (join_response_codec-Begins m)
  IsSent-message (notify_successor_msg m) e h =
      wired heart_beat_codec notify_successor_msg m h e (heart_beat_codec-Begins m)
  IsSent-message (get_pred_msg m) e h =
      wired HeaderWire.codec get_pred_msg m h e (HeaderWire.codec-Begins m)
  IsSent-message (pred_msg m) e h = wired pred_codec pred_msg m h e (pred_codec-Begins m)
  IsSent-message (get_successor_list_msg m) e h =
      wired HeaderWire.codec get_successor_list_msg m h e (HeaderWire.codec-Begins m)
  IsSent-message (successor_list_msg m) e h =
      wired successor_list_codec successor_list_msg m h e (successor_list_codec-Begins m)
  IsSent-message (link_break_msg m) e h =
      wired HeaderWire.codec link_break_msg m h e (HeaderWire.codec-Begins m)
  IsSent-message (publication_msg m) e h =
      wired publication_codec publication_msg m h e (publication_codec-Begins m)
  IsSent-message (linear_publication_msg m) e h =
      wired linear_publication_codec linear_publication_msg m h e
        (linear_publication_codec-Begins m)
  IsSent-message (ack_msg m) e h = wired heart_beat_codec ack_msg m h e (heart_beat_codec-Begins m)
  IsSent-message (subscription_msg m) e h =
      wired subscription_codec subscription_msg m h e (subscription_codec-Begins m)
  IsSent-message (leave_msg m) e h = wired leave_codec leave_msg m h e (leave_codec-Begins m)

  registered :
      (app_types : ℕ) (m : AnyMessage) → app_types < 209 → type_of m < (47 + app_types) % 256
  unfolding type_of
  registered app_types m few = ground arith

  -- A message of any of the classes of AnyMessage is read by the constructor of its own class and
  -- arrives as it was, in a packet with the room that it asks for; in a smaller packet it does not
  -- arrive. Its header has the type of its class, its fields are in their ranges, a response to a
  -- join request assigns a range, and the application has fewer than 209 classes of its own.
  pub message_round_trip :
      (app_types n : ℕ) (m : AnyMessage)
      → app_types < 209
      → (header_of m).type ≡ type_of m
      → IsWireMessage m
      → arrives n (serialize_message m) (create_message others app_types)
        ≡ (if ltb n (get_length_message m) then none else some (inl m))
  unfolding create_message
  message_round_trip app_types n m few e h =
      let w = IsSent-message m e h in
      let r =
        Reads-create_object ((47 + app_types) % 256) (typeinfo others) (type_of m)
          (registered app_types m few) w.2 in
      elim (Bool-cases (ltb n (get_length_message m))) [
        | inl short ↦ rw short (arrives_short n _ w.1 (ground (arith, w.3, short)))
        | inr fits ↦ rw fits (arrives_lem n w.1 r (ground (arith, w.3, fits)))
      ]
