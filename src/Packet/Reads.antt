-- ===== src/Packet/Reads.antt =====
-- What a constructor from a packet does: it takes a value off a list of bytes.
use distributed_games.Base.{
  ℕ, ◌+◌, ◌≤◌, ◌<◌, ◌≡◌, ap, sym, ◌∙◌, Bool, true, false, List, [], ◌∷◌, ◌++◌, some, arith, subst,
  length, append_assoc, length-append, take-append_length, drop-append_length, take, drop,
}
use distributed_games.Packet.{
  Packet, M, pure, ◌>>=◌, unread, advance, read_buffer, read_byte, first_byte, read_bool, bool_byte,
  read_short, of_short_bytes, short_bytes, read_int, of_int_bytes, int_bytes, read_int_no_swap,
  of_native_bytes, native_bytes, read_float, read_string, read_each, peek_byte,
}
use distributed_games.Packet.Memory.{IsValid, length-unread, unread-advance, advance-IsValid}
use distributed_games.Packet.Writes.{concat_map, All}

pub record Reads {A : Type 0} (r : M A) (bs : List ℕ) (a : A) : Type 0 where
  pub run :
      (p : Packet) (rest : List ℕ)
      → IsValid p
      → unread p ≡ bs ++ rest
      → r p ≡ some (a, advance (length bs) p)

-- The room that the bytes to be read take up.
unread_room :
    {p : Packet} (bs rest : List ℕ)
    → IsValid p
    → unread p ≡ bs ++ rest
    → p.buf_position + length bs ≤ p.size
unread_room bs rest v e = omega (arith, ap length e, length-append bs rest, length-unread v)

pub Reads-byte : (b : ℕ) → Reads read_byte (b ∷ []) b
unfolding read_byte first_byte
Reads-byte b = record {
  run = λ p rest v e. ground (arith, unread_room (b ∷ []) rest v e, ap first_byte e);
}

pub Reads-short : (s : ℕ) → s < 65536 → Reads read_short (short_bytes s) s
unfolding read_short of_short_bytes short_bytes
Reads-short s h = record {
  run = λ p rest v e. ground (
    arith,
    unread_room (short_bytes s) rest v e,
    ap (λ (l : List ℕ). of_short_bytes (take 2 l)) e,
  );
}

pub Reads-int : (i : ℕ) → i < 4294967296 → Reads read_int (int_bytes i) i
unfolding read_int of_int_bytes int_bytes
Reads-int i h = record {
  run = λ p rest v e.
      ground
        (arith, unread_room (int_bytes i) rest v e, ap (λ (l : List ℕ). of_int_bytes (take 4 l)) e);
}

pub Reads-float : (i : ℕ) → i < 4294967296 → Reads read_float (int_bytes i) i
unfolding read_float of_int_bytes int_bytes
Reads-float i h = record {
  run = λ p rest v e.
      ground
        (arith, unread_room (int_bytes i) rest v e, ap (λ (l : List ℕ). of_int_bytes (take 4 l)) e);
}

pub Reads-int_no_swap : (i : ℕ) → i < 4294967296 → Reads read_int_no_swap (native_bytes i) i
unfolding read_int_no_swap of_native_bytes native_bytes
Reads-int_no_swap i h = record {
  run = λ p rest v e. ground (
    arith,
    unread_room (native_bytes i) rest v e,
    ap (λ (l : List ℕ). of_native_bytes (take 4 l)) e,
  );
}

pub Reads-buffer : (bs : List ℕ) → Reads (read_buffer (length bs)) bs bs
unfolding read_buffer
Reads-buffer bs = record {
  run = λ p rest v e.
      ground (arith, unread_room bs rest v e, ap (take (length bs)) e, take-append_length bs rest);
}

pub Reads-buffer_sized : (n : ℕ) (bs : List ℕ) → length bs ≡ n → Reads (read_buffer n) bs bs
Reads-buffer_sized n bs e = rw (← e) (Reads-buffer bs)

pub Reads-pure : {A : Type 0} (a : A) → Reads (pure a) [] a
unfolding pure advance
Reads-pure a = record { run = λ p rest v e. ground arith }

advance-advance : (m n : ℕ) (p : Packet) → advance n (advance m p) ≡ advance (m + n) p
unfolding advance
advance-advance m n p = ground arith

-- A read after a read: `f` is what the rest of the constructor does with the first value.
pub Reads-bind :
    {A B : Type 0} {r : M A} (f : A → M B) {bs cs : List ℕ} {a : A} {b : B}
    → Reads r bs a
    → Reads (f a) cs b
    → Reads (r >>= f) (bs ++ cs) b
unfolding ◌>>=◌
Reads-bind f {bs} {cs} {b} x y = record {
  run = λ p rest v e.
      let e1 : unread p ≡ bs ++ (cs ++ rest) = e ∙ append_assoc bs cs rest in
      let e2 : unread (advance (length bs) p) ≡ cs ++ rest =
        unread-advance p (length bs)
        ∙ ap (drop (length bs)) e1
        ∙ drop-append_length bs (cs ++ rest) in
      rw (x.run p (cs ++ rest) v e1, ◌>>=◌)
        (y.run (advance (length bs) p) rest
            (advance-IsValid (length bs) v (unread_room bs (cs ++ rest) v e1)) e2
          ∙ ap (λ q. some (b, q))
              (advance-advance (length bs) (length cs) p
                ∙ ap (λ (k : ℕ). advance k p) (sym (length-append bs cs))));
}

pub Reads-map :
    {A B : Type 0} {r : M A} (f : A → B) {bs : List ℕ} {a : A}
    → Reads r bs a
    → Reads (r >>= λ x. pure (f x)) bs (f a)
unfolding ◌>>=◌ pure
Reads-map f x = record { run = λ p rest v e. rw (x.run p rest v e, ◌>>=◌) }

pub Reads-bool : (b : Bool) → Reads read_bool (bool_byte b ∷ []) b
unfolding read_bool bool_byte ◌>>=◌ pure
Reads-bool true = record { run = λ p rest v e. rw ((Reads-byte 1).run p rest v e, ◌>>=◌) }
Reads-bool false = record { run = λ p rest v e. rw ((Reads-byte 0).run p rest v e, ◌>>=◌) }

pub Reads-string :
    (s : List ℕ) → length s < 4294967296 → Reads read_string (int_bytes (length s) ++ s) s
unfolding read_string
Reads-string s h = Reads-bind read_buffer (Reads-int (length s) h) (Reads-buffer s)

pub Reads-each :
    {A : Type 0} (construct : M A) (bytes : A → List ℕ) (P : A → Type 0)
    → ((x : A) → P x → Reads construct (bytes x) x)
    → (xs : List A) → All P xs
    → Reads (read_each construct (length xs)) (concat_map bytes xs) xs
unfolding read_each
Reads-each construct bytes P h [] hs = Reads-pure []
Reads-each construct bytes P h (x ∷ xs) hs =
    Reads-bind _ (h x hs.0) (Reads-map (λ ys. x ∷ ys) (Reads-each construct bytes P h xs hs.1))

pub Reads-eq : {A : Type 0} {r : M A} {bs : List ℕ} {a b : A} → a ≡ b → Reads r bs a → Reads r bs b
Reads-eq {r} {bs} e x = subst (λ t. Reads r bs t) e x

-- `PeekByte` leaves the position where it is.
pub peek_byte_lem :
    (b : ℕ) (p : Packet) (rest : List ℕ)
    → IsValid p
    → unread p ≡ b ∷ rest
    → peek_byte p ≡ some (b, p)
unfolding peek_byte first_byte
peek_byte_lem b p rest v e = ground (arith, unread_room (b ∷ []) rest v e, ap first_byte e)
