-- ===== src/Base/Order.antt =====
-- ORDER BY and sort(): the result is in order, and a list in order stays as it is.
use wa_runtime.Base.Tests.{leb, if_split}
use wa_runtime.Base.Lists.{All, All-map}
use wa_runtime.Base.Sql.{insert_by, order_by}
use Prim.Native.Nat.{ℕ, ◌≤◌}
use mathlib.Core.Path.{◌≡◌, refl}
use mathlib.Core.List.{List, [], ◌∷◌}
use native.Mathlib.Omega.{arith}

module _ {ℓ} {A : Type ℓ} (key : A → ℕ) where
  abbrev pub Sorted : List A → Type 0
  Sorted [] = Unit
  Sorted (x ∷ xs) = All (λ y. key x ≤ key y) xs × Sorted xs

  insert_by-All :
      (k : ℕ) (x : A) (ys : List A)
      → k ≤ key x
      → All (λ y. k ≤ key y) ys
      → All (λ y. k ≤ key y) (insert_by key x ys)
  unfolding insert_by
  insert_by-All k x [] h hs = (h, tt)
  insert_by-All k x (y ∷ ys) h hs =
      if_split (All (λ z. k ≤ key z)) (leb (key x) (key y)) (λ b. (h, hs))
        (λ b. (hs.0, insert_by-All k x ys h hs.1))

  insert_by-Sorted : (x : A) (ys : List A) → Sorted ys → Sorted (insert_by key x ys)
  unfolding insert_by
  insert_by-Sorted x [] s = (tt, tt)
  insert_by-Sorted x (y ∷ ys) s =
      if_split Sorted (leb (key x) (key y))
        (λ b.
          let low : key x ≤ key y = ground arith in
          ((low, All-map _ _ ys (λ z k. omega (arith, k, low)) s.0), s))
        (λ b. (insert_by-All (key y) x ys (ground arith) s.0, insert_by-Sorted x ys s.1))

  pub order_by-Sorted : (xs : List A) → Sorted (order_by key xs)
  unfolding order_by
  order_by-Sorted [] = tt
  order_by-Sorted (x ∷ xs) = insert_by-Sorted x (order_by key xs) (order_by-Sorted xs)

  insert_by-least :
      (x : A) (ys : List A) → All (λ y. key x ≤ key y) ys → insert_by key x ys ≡ x ∷ ys
  unfolding insert_by
  insert_by-least x [] h = refl
  insert_by-least x (y ∷ ys) h = ground (arith, h.0)

  pub Sorted-order_by : (xs : List A) → Sorted xs → order_by key xs ≡ xs
  unfolding order_by
  Sorted-order_by [] s = refl
  Sorted-order_by (x ∷ xs) s = rw (Sorted-order_by xs s.1) (insert_by-least x xs s.0)

  pub order_by_idem : (xs : List A) → order_by key (order_by key xs) ≡ order_by key xs
  order_by_idem xs = Sorted-order_by (order_by key xs) (order_by-Sorted xs)
