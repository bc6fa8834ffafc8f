-- ===== src/AutoSerializer.antt =====
-- mercury/AutoSerializer.h: types registered in one order on every node are numbered by it; an
-- object begins with the number of its type, which says what constructor reads it.
use distributed_games.Base.{ℕ, ◌<◌, List, ◌∷◌, ◌++◌, ltb, if◌then◌else◌, arith}
use distributed_games.Packet.{M, fault, ◌>>=◌, peek_byte}
use distributed_games.Packet.Reads.{Reads, peek_byte_lem}

-- `CreateObject`: `constructors` is the table, of which `num_dtypes` entries are in use.
pub create_object : {A : Type 0} → ℕ → (ℕ → M A) → M A
unfolding ◌>>=◌ fault
create_object num_dtypes constructors = do
  id_byte ← peek_byte
  if ltb id_byte num_dtypes then constructors id_byte else fault

-- An object whose type is registered is read by the constructor of the type.
pub Reads-create_object :
    {A : Type 0} (num_dtypes : ℕ) (constructors : ℕ → M A) (t : ℕ) {bs : List ℕ} {a : A}
    → t < num_dtypes
    → Reads (constructors t) (t ∷ bs) a
    → Reads (create_object num_dtypes constructors) (t ∷ bs) a
unfolding create_object ◌>>=◌
Reads-create_object num_dtypes constructors t {bs} h x = record {
  run = λ p rest v e.
      rw (peek_byte_lem t p (bs ++ rest) v e, ◌>>=◌) (ground (arith, x.run p rest v e));
}
