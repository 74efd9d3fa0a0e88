-- ===== src/Store/Rows.antt =====
-- Rows by their identifier: what `SELECT`, `INSERT`, `UPDATE` and `DELETE` with `WHERE id = ?` do to
-- a table, and the laws that relate them.
pub mod Keys
use investment_portfolio_man.Base.{
  ℕ, ◌+◌, ◌≡◌, refl, false, not, List, [], ◌∷◌, ◌++◌, Option, none, some, arith, keep, find?,
  count_by, ◌==◌, if◌then◌else◌,
}
use investment_portfolio_man.Model.{Ident}

module _ {A : Type 0} (key : A → Ident) where
  abbrev pub find_row : Ident → List A → Option A
  find_row i = find? (λ x. key x == i)

  abbrev pub delete_rows : Ident → List A → List A
  delete_rows i = keep (λ x. not (key x == i))

  abbrev pub count_rows : Ident → List A → ℕ
  count_rows i = count_by (λ x. key x == i)

  abbrev pub replace_rows : A → List A → List A
  replace_rows r [] = []
  replace_rows r (x ∷ xs) = (if key x == key r then r else x) ∷ replace_rows r xs

  abbrev pub or_row : A → Ident → Option A → Option A
  or_row r i (some x) = some x
  or_row r i none = if key r == i then some r else none

  abbrev pub replaced : A → Option A → Option A
  replaced r none = none
  replaced r (some x) = some r

  pub find_row-insert :
      (i : Ident) (r : A) (xs : List A) → find_row i (xs ++ (r ∷ [])) ≡ or_row r i (find_row i xs)
  find_row-insert i r [] = refl
  find_row-insert i r (x ∷ xs) = ground (arith, find_row-insert i r xs)

  pub find_row-delete :
      (i j : Ident) (xs : List A)
      → find_row i (delete_rows j xs) ≡ (if i == j then none else find_row i xs)
  find_row-delete i j [] = ground arith
  find_row-delete i j (x ∷ xs) = ground (arith, find_row-delete i j xs)

  pub find_row-replace :
      (i : Ident) (r : A) (xs : List A)
      → find_row i (replace_rows r xs)
        ≡ (if key r == i then replaced r (find_row i xs) else find_row i xs)
  find_row-replace i r [] = ground arith
  find_row-replace i r (x ∷ xs) = ground (arith, find_row-replace i r xs)

  pub count_rows-insert :
      (i : Ident) (r : A) (xs : List A)
      → count_rows i (xs ++ (r ∷ [])) ≡ count_rows i xs + (if key r == i then 1 else 0)
  count_rows-insert i r [] = ground arith
  count_rows-insert i r (x ∷ xs) = ground (arith, count_rows-insert i r xs)

  pub count_rows-delete :
      (i j : Ident) (xs : List A)
      → count_rows i (delete_rows j xs) ≡ (if i == j then 0 else count_rows i xs)
  count_rows-delete i j [] = ground arith
  count_rows-delete i j (x ∷ xs) = ground (arith, count_rows-delete i j xs)

  pub key-find_row : (i : Ident) (xs : List A) (r : A) → find_row i xs ≡ some r → key r ≡ i
  key-find_row i [] r h = cc
  key-find_row i (x ∷ xs) r h = ground (arith, key-find_row i xs r)

  -- The laws of one row, and of all others.
  pub find_row-insert-else :
      (i : Ident) (r : A) (xs : List A)
      → (key r == i) ≡ false
      → find_row i (xs ++ (r ∷ [])) ≡ find_row i xs
  find_row-insert-else i r [] e = rw e refl
  find_row-insert-else i r (x ∷ xs) e = ground (arith, find_row-insert-else i r xs)

  pub find_row-delete-else :
      (i j : Ident) (xs : List A) → (j == i) ≡ false → find_row i (delete_rows j xs) ≡ find_row i xs
  find_row-delete-else i j xs e = ground (arith, find_row-delete i j xs)

  pub count_rows-delete-else :
      (i j : Ident) (xs : List A)
      → (j == i) ≡ false
      → count_rows i (delete_rows j xs) ≡ count_rows i xs
  count_rows-delete-else i j xs e = ground (arith, count_rows-delete i j xs)

  pub count_rows-delete-all : (i : Ident) (xs : List A) → count_rows i (delete_rows i xs) ≡ 0
  count_rows-delete-all i xs = ground (arith, count_rows-delete i i xs)

  pub find_row-delete-all : (i : Ident) (xs : List A) → find_row i (delete_rows i xs) ≡ none
  find_row-delete-all i xs = ground (arith, find_row-delete i i xs)

  pub count_rows-insert-else :
      (i : Ident) (r : A) (xs : List A)
      → (key r == i) ≡ false
      → count_rows i (xs ++ (r ∷ [])) ≡ count_rows i xs
  count_rows-insert-else i r xs e = ground (arith, count_rows-insert i r xs)

  pub count_rows-insert-one :
      (r : A) (xs : List A) → count_rows (key r) (xs ++ (r ∷ [])) ≡ count_rows (key r) xs + 1
  count_rows-insert-one r xs = ground (arith, count_rows-insert (key r) r xs)

  pub find_row-replace-else :
      (i : Ident) (r : A) (xs : List A)
      → (key r == i) ≡ false
      → find_row i (replace_rows r xs) ≡ find_row i xs
  find_row-replace-else i r xs e = ground (arith, find_row-replace i r xs)

  pub find_row-replace-one :
      (r : A) (xs : List A)
      → find_row (key r) (replace_rows r xs) ≡ replaced r (find_row (key r) xs)
  find_row-replace-one r xs = ground (arith, find_row-replace (key r) r xs)

  pub find_row-insert-new :
      (r : A) (xs : List A)
      → find_row (key r) xs ≡ none
      → find_row (key r) (xs ++ (r ∷ [])) ≡ some r
  find_row-insert-new r xs e = ground (arith, find_row-insert (key r) r xs)
