-- ===== src/Hub/Table/Subset.antt =====
-- Lists of addresses as sets, and their lengths.
use distributed_games.Base.{◌+◌, ◌≤◌, ◌≡◌, true, List, [], ◌∷◌, length, arith, Bool-cases, inl, inr}
use distributed_games.Address.{IpEndPoint}
use distributed_games.Hub.Table.{contains, erase_first}
use distributed_games.Hub.Table.Finding.{equals-eq, equals_self}
use distributed_games.Hub.Table.Consistent.{
  IsDistinct, contains-erase_first, erase_first-IsDistinct, contains_same,
}

abbrev pub Includes : List IpEndPoint → List IpEndPoint → Type 0
Includes ys xs = (b : IpEndPoint) → contains b xs ≡ true → contains b ys ≡ true

length-erase_first :
    (a : IpEndPoint) (xs : List IpEndPoint)
    → contains a xs ≡ true
    → length (erase_first a xs) + 1 ≡ length xs
unfolding erase_first
length-erase_first a [] h = absurd (ground arith)
length-erase_first a (x ∷ xs) h = ground (arith, length-erase_first a xs)

pub length-Includes :
    (xs ys : List IpEndPoint)
    → IsDistinct xs
    → IsDistinct ys
    → Includes ys xs
    → length xs ≤ length ys
length-Includes [] ys d e h = omega arith
length-Includes (x ∷ xs) ys d e h =
    let here : contains x ys ≡ true = h x (ground (arith, equals_self x)) in
    let left : Includes (erase_first x ys) xs =
      λ b m. ground (arith, contains-erase_first x b ys e, h b, m, contains_same x b xs) in
    omega (
      arith,
      length-erase_first x ys here,
      length-Includes xs (erase_first x ys) d.1 (erase_first-IsDistinct x ys e) left,
    )

-- A list that another one includes includes it, if it is not shorter.
pub Includes-back :
    (xs ys : List IpEndPoint)
    → IsDistinct xs
    → IsDistinct ys
    → Includes ys xs
    → length ys ≤ length xs
    → Includes xs ys
Includes-back xs ys d e h l b m = elim (Bool-cases (contains b xs)) [
  | inl c ↦ c
  | inr c ↦
      let more : Includes ys (b ∷ xs) = λ a n. ground (arith, h a, equals-eq b a, m) in
      absurd (omega (arith, length-Includes (b ∷ xs) ys (c, d) e more))
]
