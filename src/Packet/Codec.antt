-- ===== src/Packet/Codec.antt =====
-- The contract of `Serializable` (mercury/common.h): what `Serialize` writes, the constructor from
-- a packet reads back, and `GetLength` is the number of bytes.
use distributed_games.Base.{
  ℕ, ◌+◌, ◌≤◌, ◌<◌, ◌≡◌, List, [], ◌∷◌, ◌++◌, some, none, arith, length, length-append, refl, ap,
  if◌then◌else◌, ltb,
}
use distributed_games.Packet.{M, int_bytes, write_list, read_list, read_list_int, lengths}
use distributed_games.Packet.Writes.{
  Writes, Writes-then, Writes-int, Writes-each, length-int_bytes, concat_map, All,
}
use distributed_games.Packet.Reads.{Reads, Reads-bind, Reads-int, Reads-each}
use distributed_games.Packet.Transmit.{arrives, arrives_lem, arrives_short}

pub length-then :
    (bs cs : List ℕ) {m n : ℕ} → length bs ≡ m → length cs ≡ n → length (bs ++ cs) ≡ m + n
length-then bs cs h k = omega (arith, length-append bs cs)

abbrev pub Begins : ℕ → List ℕ → Type 0
Begins t bs = (rest : List ℕ) × (bs ≡ t ∷ rest)

pub Begins-append : {t : ℕ} {bs : List ℕ} (cs : List ℕ) → Begins t bs → Begins t (bs ++ cs)
Begins-append cs (rest, e) = (rest ++ cs, ap (λ bs. bs ++ cs) e)

count_kept : (n : ℕ) → n < 2147483648 → (if ltb n 2147483648 then n else 0) ≡ n
count_kept n h = ground arith

pub record IsCodec {A : Type 0} (serialize : A → M (Unit {0})) (construct : M A)
    (get_length : A → ℕ) (IsWire : A → Type 0) : Type 0 where
  pub bytes : A → List ℕ
  pub writes : (a : A) → IsWire a → Writes (serialize a) (bytes a)
  pub reads : (a : A) → IsWire a → Reads construct (bytes a) a
  pub sized : (a : A) → IsWire a → length (bytes a) ≡ get_length a

-- A list whose size, read as a 32-bit word or as an `int`, is right.
abbrev pub FitsWord : {A : Type 0} → (A → Type 0) → List A → Type 0
FitsWord P xs = (length xs < 4294967296) × All P xs

abbrev pub FitsInt : {A : Type 0} → (A → Type 0) → List A → Type 0
FitsInt P xs = (length xs < 2147483648) × All P xs

module _ {A : Type 0} {serialize : A → M (Unit {0})} {construct : M A} {get_length : A → ℕ}
    {IsWire : A → Type 0} (c : IsCodec serialize construct get_length IsWire) where
  -- An object arrives whole in a packet with the room that it asks for, and in no smaller one.
  pub round_trip :
      (n : ℕ) (a : A) → IsWire a → get_length a ≤ n → arrives n (serialize a) construct ≡ some a
  round_trip n a h fits = arrives_lem n (c.writes a h) (c.reads a h) (omega (arith, c.sized a h))

  pub no_room :
      (n : ℕ) (a : A) → IsWire a → n < get_length a → arrives n (serialize a) construct ≡ none
  no_room n a h short = arrives_short n construct (c.writes a h) (omega (arith, c.sized a h))

  length-concat_map :
      (xs : List A) → All IsWire xs → length (concat_map c.bytes xs) ≡ lengths get_length xs
  unfolding lengths
  length-concat_map [] hs = refl
  length-concat_map (x ∷ xs) hs = length-then _ _ (c.sized x hs.0) (length-concat_map xs hs.1)

  -- A container whose size is a 32-bit word.
  pub list_codec :
      IsCodec
        (write_list serialize)
        (read_list construct)
        (λ xs. 4 + lengths get_length xs)
        (FitsWord IsWire)
  unfolding write_list read_list
  list_codec = record {
    bytes = λ xs. int_bytes (length xs) ++ concat_map c.bytes xs;
    writes = λ xs h.
        Writes-then (Writes-int (length xs)) (Writes-each serialize c.bytes IsWire c.writes xs h.1);
    reads = λ xs h.
        Reads-bind _ (Reads-int (length xs) h.0)
          (Reads-each construct c.bytes IsWire c.reads xs h.1);
    sized = λ xs h. length-then _ _ (length-int_bytes (length xs)) (length-concat_map xs h.1);
  }

  -- The same when the size is read as an `int`.
  pub list_codec_int :
      IsCodec
        (write_list serialize)
        (read_list_int construct)
        (λ xs. 4 + lengths get_length xs)
        (FitsInt IsWire)
  unfolding write_list read_list_int
  list_codec_int = record {
    bytes = λ xs. int_bytes (length xs) ++ concat_map c.bytes xs;
    writes = λ xs h.
        Writes-then (Writes-int (length xs)) (Writes-each serialize c.bytes IsWire c.writes xs h.1);
    reads = λ xs h.
        Reads-bind _ (Reads-int (length xs) (omega (arith, h.0)))
          (rw (count_kept (length xs) h.0) (Reads-each construct c.bytes IsWire c.reads xs h.1));
    sized = λ xs h. length-then _ _ (length-int_bytes (length xs)) (length-concat_map xs h.1);
  }
