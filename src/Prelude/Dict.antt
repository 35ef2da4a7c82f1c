-- ===== src/Prelude/Dict.antt =====
-- A table with a key: SQL's tables with a TEXT primary key and Rust's `HashMap<String, V>`.
use construct_tui.Prelude.{◌≡◌, Option, none, some, List, [], ◌∷◌, arith, if◌then◌else◌}
use construct_tui.Prelude.Bytes.{Bytes, ◌=b◌, =b_iff}

abbrev pub Dict {ℓ} : Type ℓ → Type ℓ
Dict V = List (Bytes × V)

module _ {ℓ} {V : Type ℓ} where
  unfoldable pub lookup : Bytes → Dict V → Option V
  lookup k [] = none
  lookup k ((j, v) ∷ d) = if j =b k then some v else lookup k d

  unfoldable pub remove : Bytes → Dict V → Dict V
  remove k [] = []
  remove k ((j, v) ∷ d) = let rest = remove k d in if j =b k then rest else (j, v) ∷ rest

  unfoldable pub insert : Bytes → V → Dict V → Dict V
  insert k v d = (k, v) ∷ remove k d

  pub lookup-remove :
      (k j : Bytes) (d : Dict V) → lookup j (remove k d) ≡ (if k =b j then none else lookup j d)
  unfolding lookup remove
  lookup-remove k j [] = ground arith
  lookup-remove k j ((i, v) ∷ d) =
      ground (arith, lookup-remove k j d, =b_iff i k, =b_iff i j, =b_iff k j)

  pub lookup-insert :
      (k j : Bytes) (v : V) (d : Dict V)
      → lookup j (insert k v d) ≡ (if k =b j then some v else lookup j d)
  unfolding lookup insert
  lookup-insert k j v d = ground (arith, lookup-remove k j d)

pub ruleset dict_laws = (lookup-remove, lookup-insert)
