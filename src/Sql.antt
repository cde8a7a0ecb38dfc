-- ===== src/Sql.antt =====
-- What the repositories use of a PostgreSQL table: a list of rows with a key, read by `First`
-- (the first row with a key) and written by `UPDATE … WHERE` (every row that meets the test).
pub mod Laws
use meta_posting.Prelude.{
  ℕ, ◌+◌, ◌≢◌, Bool, false, ◌||◌, Option, none, some, List, [], ◌∷◌, ◌==◌, All, if◌then◌else◌,
}

-- `UPDATE t SET … WHERE p`.
unfoldable pub update_where {ℓ} : {A : Type ℓ} → (A → Bool) → (A → A) → List A → List A
update_where p f [] = []
update_where p f (x ∷ xs) = (if p x then f x else x) ∷ update_where p f xs

-- Whether any row meets the test: `RowsAffected > 0` of the same update.
unfoldable pub any_row {ℓ} : {A : Type ℓ} → (A → Bool) → List A → Bool
any_row p [] = false
any_row p (x ∷ xs) = p x || any_row p xs

-- `SELECT … WHERE p`, and the rows that `UPDATE … RETURNING *` hands back.
unfoldable pub select_where {ℓ} : {A : Type ℓ} → (A → Bool) → List A → List A
select_where p [] = []
select_where p (x ∷ xs) = let rest = select_where p xs in if p x then x ∷ rest else rest

unfoldable pub count_where {ℓ} : {A : Type ℓ} → (A → Bool) → List A → ℕ
count_where p [] = 0
count_where p (x ∷ xs) = (if p x then 1 else 0) + count_where p xs

unfoldable pub find_where {ℓ} : {A : Type ℓ} → (A → Bool) → List A → Option A
find_where p [] = none
find_where p (x ∷ xs) = let rest = find_where p xs in if p x then some x else rest

module _ {ℓ} {A : Type ℓ} (key : A → ℕ) where
  -- `First(&row, "id = ?", k)`.
  unfoldable pub find_key : ℕ → List A → Option A
  find_key k [] = none
  find_key k (x ∷ xs) = let rest = find_key k xs in if key x == k then some x else rest

  -- The primary key: no two rows have one key.
  abbrev pub UniqueKeys : List A → Type 0
  UniqueKeys [] = Unit
  UniqueKeys (x ∷ xs) = All (λ y. key y ≢ key x) xs × UniqueKeys xs
