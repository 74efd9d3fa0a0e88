-- ===== src/Store/Rows/Keys.antt =====
-- Rows with two keys: the allocations by their IBKR transaction and by their transaction.
use mathlib.Core.Option.{some-injective}
use investment_portfolio_man.Base.{
  ℕ, none, some, ◌+◌, ◌≤◌, ◌≡◌, refl, not, List, [], ◌∷◌, map, arith, keep, count_by, All, All-mono,
  ◌&&◌, ◌==◌, if◌then◌else◌, true, false, Bool-cases, inl, inr, ap, Bool, ==_refl, subst,
}
use investment_portfolio_man.Model.{Ident}
use investment_portfolio_man.Store.Rows.{delete_rows, count_rows, find_row, replace_rows}

module _ {A : Type 0} (key : A → Ident) where
  pub delete_rows-none :
      (i : Ident) (xs : List A) → count_rows key i xs ≡ 0 → delete_rows key i xs ≡ xs
  delete_rows-none i [] h = refl
  delete_rows-none i (x ∷ xs) h = elim (Bool-cases (key x == i)) [
    | inl e ↦ absurd (ground arith)
    | inr e ↦ rw e (ap (λ ys. x ∷ ys) (delete_rows-none i xs (ground arith)))
  ]

  pub count_rows-delete-le :
      (other : A → Ident) (i j : Ident) (xs : List A)
      → count_rows key i (delete_rows other j xs) ≤ count_rows key i xs
  count_rows-delete-le other i j [] = ground arith
  count_rows-delete-le other i j (x ∷ xs) = ground (arith, count_rows-delete-le other i j xs)

  count_rows-split :
      (other : A → Ident) (j x : Ident) (xs : List A)
      → count_rows key x (delete_rows other j xs) + count_by (λ y. other y == j && key y == x) xs
        ≡ count_rows key x xs
  count_rows-split other j x [] = refl
  count_rows-split other j x (y ∷ xs) = ground (arith, count_rows-split other j x xs)

  map-key-if :
      (P : Ident → Type 0) (b : Bool) (z : A) (zs : List A)
      → (b ≡ true → P (key z))
      → All P (map key zs)
      → All P (map key (if b then z ∷ zs else zs))
  map-key-if P true z zs h k = (h refl, k)
  map-key-if P false z zs h k = k

  kept-counted :
      (other : A → Ident) (j : Ident) (xs : List A)
      → All
          (λ x. 1 ≤ count_by (λ y. other y == j && key y == x) xs)
          (map key (keep (λ y. other y == j && not (key y == 0)) xs))
  kept-counted other j [] = tt
  kept-counted other j (z ∷ xs) =
      let rest : All (λ x. 1 ≤ count_by (λ y. other y == j && key y == x) (z ∷ xs))
          (map key (keep (λ y. other y == j && not (key y == 0)) xs)) =
        All-mono (λ x. 1 ≤ count_by (λ y. other y == j && key y == x) xs)
          (λ x. 1 ≤ count_by (λ y. other y == j && key y == x) (z ∷ xs)) (λ x h. ground arith) _
          (kept-counted other j xs) in
      map-key-if (λ x. 1 ≤ count_by (λ y. other y == j && key y == x) (z ∷ xs)) _ z _
        (λ e. ground (arith, ==_refl (key z))) rest

  -- If a key's rows are one at most, the keys of the rows that are deleted are gone.
  pub kept-gone :
      (other : A → Ident) (j : Ident) (xs : List A)
      → ((x : Ident) → count_rows key x xs ≤ 1)
      → All
          (λ x. count_rows key x (delete_rows other j xs) ≡ 0)
          (map key (keep (λ y. other y == j && not (key y == 0)) xs))
  kept-gone other j xs h =
      All-mono (λ x. 1 ≤ count_by (λ y. other y == j && key y == x) xs)
        (λ x. count_rows key x (delete_rows other j xs) ≡ 0)
        (λ x k. gone (count_rows-split other j x xs) (h x) k) _ (kept-counted other j xs)
    where
      gone : {a b c : ℕ} → a + b ≡ c → c ≤ 1 → 1 ≤ b → a ≡ 0
      gone e k l = omega arith

  pub count_rows-none :
      (i : Ident) (xs : List A) → find_row key i xs ≡ none → count_rows key i xs ≡ 0
  count_rows-none i [] h = refl
  count_rows-none i (x ∷ xs) h = ground (arith, count_rows-none i xs)

  -- The only row of a key goes.
  pub count_rows-delete-only :
      (other : A → Ident) (i j : Ident) (xs : List A) (r : A)
      → count_rows key i xs ≤ 1
      → find_row key i xs ≡ some r
      → count_rows other j (delete_rows key i xs) + (if other r == j then 1 else 0)
        ≡ count_rows other j xs
  count_rows-delete-only other i j [] r h e = cc
  count_rows-delete-only other i j (x ∷ xs) r h e = elim (Bool-cases (key x == i)) [
    | inl same ↦
        let gone : count_rows key i xs ≡ 0 = alone (rw same at h) in
        let found : some x ≡ some r = rw same at e in
        rw (same, delete_rows-none i xs gone)
          (subst
            (λ y.
              count_rows other j xs + (if other y == j then 1 else 0)
              ≡ (if other x == j then 1 else 0) + count_rows other j xs)
            (some-injective x r found) (omega arith))
    | inr new ↦
        ground (arith, count_rows-delete-only other i j xs r (below (rw new at h)) (rw new at e))
  ]
    where
      alone : {n : ℕ} → 1 + n ≤ 1 → n ≡ 0
      alone k = omega arith

      below : {n : ℕ} → 0 + n ≤ 1 → n ≤ 1
      below k = omega arith

pub All-replace :
    {A : Type 0} (key : A → Ident) (P : A → Type 0) (r : A) (xs : List A)
    → P r
    → All P xs
    → All P (replace_rows key r xs)
All-replace key P r [] p h = tt
All-replace key P r (x ∷ xs) p h = ground (arith, All-replace key P r xs p h.1)
