-- ===== src/Packet/Writes.antt =====
-- What a serialiser does: it writes a list of bytes, or fails because they do not fit.
use distributed_games.Base.{
  ℕ, ◌≤◌, ◌≡◌, refl, Bool, List, [], ◌∷◌, ◌++◌, arith, length, length-append,
}
use distributed_games.Packet.{
  Packet, M, pure, ◌>>◌, put_bytes, write_buffer, write_byte, write_bool, bool_byte, write_short,
  short_bytes, write_int, int_bytes, write_int_no_swap, native_bytes, write_float, write_string,
  write_each,
}
use distributed_games.Packet.Memory.{
  IsValid, put_bytes-IsValid, put_bytes-put_bytes, position-put_bytes, put_bytes-nil,
}

pub record Writes (w : M (Unit {0})) (bs : List ℕ) : Type 0 where
  pub run : (p : Packet) → IsValid p → p.buf_position ≤ p.used → w p ≡ write_buffer bs p

pub Writes-byte : (b : ℕ) → Writes (write_byte b) (b ∷ [])
unfolding write_byte write_buffer
Writes-byte b = record { run = λ p v u. ground arith }

pub Writes-bool : (b : Bool) → Writes (write_bool b) (bool_byte b ∷ [])
unfolding write_bool
Writes-bool b = Writes-byte (bool_byte b)

pub Writes-short : (s : ℕ) → Writes (write_short s) (short_bytes s)
unfolding write_short write_buffer short_bytes
Writes-short s = record { run = λ p v u. ground arith }

pub Writes-int : (i : ℕ) → Writes (write_int i) (int_bytes i)
unfolding write_int write_buffer int_bytes
Writes-int i = record { run = λ p v u. ground arith }

pub Writes-float : (f : ℕ) → Writes (write_float f) (int_bytes f)
unfolding write_float write_buffer int_bytes
Writes-float f = record { run = λ p v u. ground arith }

pub Writes-int_no_swap : (i : ℕ) → Writes (write_int_no_swap i) (native_bytes i)
unfolding write_int_no_swap write_buffer native_bytes
Writes-int_no_swap i = record { run = λ p v u. ground arith }

pub Writes-buffer : (bs : List ℕ) → Writes (write_buffer bs) bs
Writes-buffer bs = record { run = λ p v u. refl }

module _ {w k : M (Unit {0})} {bs cs : List ℕ} where
  -- Two writes in turn fail together or write both lists.
  pub Writes-then : Writes w bs → Writes k cs → Writes (w >> k) (bs ++ cs)
  unfolding ◌>>◌ write_buffer
  Writes-then f g = record {
    run = λ p v u. ground (
      arith,
      f.run p v,
      g.run (put_bytes bs p),
      put_bytes-IsValid bs v,
      position-put_bytes bs p,
      put_bytes-put_bytes v bs cs,
      length-append bs cs,
    );
  }

pub Writes-string : (s : List ℕ) → Writes (write_string s) (int_bytes (length s) ++ s)
unfolding write_string
Writes-string s = Writes-then (Writes-int (length s)) (Writes-buffer s)

abbrev pub concat_map : {A : Type 0} → (A → List ℕ) → List A → List ℕ
concat_map f [] = []
concat_map f (x ∷ xs) = f x ++ concat_map f xs

pub Writes-pure : Writes (pure tt) []
unfolding pure write_buffer
Writes-pure = record { run = λ p v u. ground (arith, put_bytes-nil v u) }

-- All elements satisfy `P`.
abbrev pub All : {A : Type 0} → (A → Type 0) → List A → Type 0
All P [] = Unit {0}
All P (x ∷ xs) = P x × All P xs

pub Writes-each :
    {A : Type 0} (serialize : A → M (Unit {0})) (bytes : A → List ℕ) (P : A → Type 0)
    → ((x : A) → P x → Writes (serialize x) (bytes x))
    → (xs : List A) → All P xs
    → Writes (write_each serialize xs) (concat_map bytes xs)
unfolding write_each
Writes-each serialize bytes P h [] hs = Writes-pure
Writes-each serialize bytes P h (x ∷ xs) hs =
    Writes-then (h x hs.0) (Writes-each serialize bytes P h xs hs.1)

pub length-int_bytes : (i : ℕ) → length (int_bytes i) ≡ 4
unfolding int_bytes
length-int_bytes i = refl

pub length-short_bytes : (s : ℕ) → length (short_bytes s) ≡ 2
unfolding short_bytes
length-short_bytes s = refl

pub length-native_bytes : (i : ℕ) → length (native_bytes i) ≡ 4
unfolding native_bytes
length-native_bytes i = refl

pub ruleset byte_counts = (length-int_bytes, length-short_bytes, length-native_bytes, length-append)
