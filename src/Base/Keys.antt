-- ===== src/Base/Keys.antt =====
-- A primary key: no two rows of a table have the same one.
use wa_runtime.Base.Tests.{if◌then◌else◌, ◌==◌, ==-refl, Bool-cases}
use wa_runtime.Base.Lists.{All, filter, take, member}
use wa_runtime.Base.Sql.{update_where, delete_where, order_by, insert_by, first_row, row_count}
use Prim.Native.Nat.{ℕ, zero, suc, ◌≤◌}
use mathlib.Core.Path.{◌≡◌, refl}
use mathlib.Core.Logic.{inl, inr}
use mathlib.Core.Option.{some}
use mathlib.Core.Bool.{Bool, true, false, ◌||◌}
use mathlib.Core.List.{List, [], ◌∷◌, ◌++◌, map}
use native.Mathlib.Omega.{arith}

module _ {ℓ} {A : Type ℓ} (key : A → ℕ) where
  abbrev pub keys : List A → List ℕ
  keys xs = map key xs

  abbrev pub has_key : ℕ → List A → Bool
  has_key k [] = false
  has_key k (x ∷ xs) = key x == k || has_key k xs

  abbrev pub Distinct : List A → Type 0
  Distinct [] = Unit
  Distinct (x ∷ xs) = (has_key (key x) xs ≡ false) × Distinct xs

  pub has_key-filter :
      (k : ℕ) (p : A → Bool) (xs : List A) → has_key k (filter p xs) ≡ true → has_key k xs ≡ true
  has_key-filter k p [] h = h
  has_key-filter k p (x ∷ xs) h = ground (arith, has_key-filter k p xs)

  pub has_key-take : (k n : ℕ) (xs : List A) → has_key k (take n xs) ≡ true → has_key k xs ≡ true
  has_key-take k zero xs h = absurd (ground arith)
  has_key-take k (suc n) [] h = h
  has_key-take k (suc n) (x ∷ xs) h = ground (arith, has_key-take k n xs)

  has_key-insert_by :
      (k : ℕ) (f : A → ℕ) (x : A) (xs : List A)
      → has_key k (insert_by f x xs) ≡ (key x == k || has_key k xs)
  unfolding insert_by
  has_key-insert_by k f x [] = refl
  has_key-insert_by k f x (y ∷ ys) = ground (arith, has_key-insert_by k f x ys)

  pub has_key-order_by :
      (k : ℕ) (f : A → ℕ) (xs : List A) → has_key k (order_by f xs) ≡ has_key k xs
  unfolding order_by
  has_key-order_by k f [] = refl
  has_key-order_by k f (x ∷ xs) =
      ground (arith, has_key-insert_by k f x (order_by f xs), has_key-order_by k f xs)

  pub member-keys : (k : ℕ) (xs : List A) → member k (keys xs) ≡ has_key k xs
  member-keys k [] = refl
  member-keys k (x ∷ xs) = ground (arith, member-keys k xs)

  -- Where keys are distinct, a row whose key is among those of the selected rows is selected itself.
  pub selected_by_key :
      (p : A → Bool) (xs : List A)
      → Distinct xs
      → All (λ x. has_key (key x) (filter p xs) ≡ true → p x ≡ true) xs
  selected_by_key p [] d = tt
  selected_by_key p (x ∷ xs) d = (own, weaken xs d.1 d.0 (selected_by_key p xs d.1))
    where
      own : has_key (key x) (filter p (x ∷ xs)) ≡ true → p x ≡ true
      own h = ground (arith, has_key-filter (key x) p xs)

      weaken :
          (ys : List A)
          → Distinct ys
          → has_key (key x) ys ≡ false
          → All (λ y. has_key (key y) (filter p xs) ≡ true → p y ≡ true) ys
          → All (λ y. has_key (key y) (filter p (x ∷ xs)) ≡ true → p y ≡ true) ys
      weaken [] e f h = tt
      weaken (y ∷ ys) e f h = ((λ k. ground arith), weaken ys e.1 (ground arith) h.1)

  pub has_key-update_where :
      (k : ℕ) (p : A → Bool) (f : A → A) (xs : List A)
      → ((x : A) → key (f x) ≡ key x)
      → has_key k (update_where p f xs) ≡ has_key k xs
  has_key-update_where k p f [] same = refl
  has_key-update_where k p f (x ∷ xs) same =
      ground (arith, same x, has_key-update_where k p f xs same)

  pub Distinct-update_where :
      (p : A → Bool) (f : A → A) (xs : List A)
      → ((x : A) → key (f x) ≡ key x)
      → Distinct xs
      → Distinct (update_where p f xs)
  Distinct-update_where p f [] same d = tt
  Distinct-update_where p f (x ∷ xs) same d = (
    ground (arith, same x, has_key-update_where (key x) p f xs same),
    Distinct-update_where p f xs same d.1,
  )

  has_key-delete_where :
      (k : ℕ) (p : A → Bool) (xs : List A)
      → has_key k xs ≡ false
      → has_key k (delete_where p xs) ≡ false
  has_key-delete_where k p [] h = h
  has_key-delete_where k p (x ∷ xs) h = ground (arith, has_key-delete_where k p xs)

  pub Distinct-delete_where :
      (p : A → Bool) (xs : List A) → Distinct xs → Distinct (delete_where p xs)
  Distinct-delete_where p [] d = tt
  Distinct-delete_where p (x ∷ xs) d =
      row (has_key-delete_where (key x) p xs d.0) (Distinct-delete_where p xs d.1) (p x)
    where
      row :
          has_key (key x) (delete_where p xs) ≡ false
          → Distinct (delete_where p xs)
          → (b : Bool) → Distinct (if b then delete_where p xs else x ∷ delete_where p xs)
      row fresh rest true = rest
      row fresh rest false = (fresh, rest)

  has_key-append_one :
      (k : ℕ) (xs : List A) (y : A) → has_key k (xs ++ y ∷ []) ≡ (has_key k xs || key y == k)
  has_key-append_one k [] y = ground arith
  has_key-append_one k (x ∷ xs) y = ground (arith, has_key-append_one k xs y)

  pub Distinct-append_one :
      (xs : List A) (y : A) → has_key (key y) xs ≡ false → Distinct xs → Distinct (xs ++ y ∷ [])
  Distinct-append_one [] y fresh d = (refl, tt)
  Distinct-append_one (x ∷ xs) y fresh d =
      (ground (arith, has_key-append_one (key x) xs y), Distinct-append_one xs y (ground arith) d.1)

  first_row-key :
      (k : ℕ) (p : A → Bool) (xs : List A) {i : A}
      → ((x : A) → p x ≡ true → key x ≡ k)
      → first_row p xs ≡ some i
      → has_key k xs ≡ true
  first_row-key k p [] own h = absurd (ground arith)
  first_row-key k p (x ∷ xs) {i} own h = elim (Bool-cases (p x)) [
    | inl e ↦ ground (arith, own x e, ==-refl k)
    | inr e ↦ ground (arith, first_row-key k p xs {i = i} own (ground arith))
  ]

  none_with :
      (k : ℕ) (q : A → Bool) (xs : List A) (i : A)
      → ((x : A) → q x ≡ true → key x ≡ k)
      → has_key k xs ≡ false
      → All (λ j. q j ≡ true → j ≡ i) xs
  none_with k q [] i own h = tt
  none_with k q (x ∷ xs) i own h =
      ((λ e. absurd (ground (arith, own x e, ==-refl k))), none_with k q xs i own (ground arith))

  -- Where keys are distinct, two selections by one key select one row.
  pub first_row_unique :
      (k : ℕ) (p q : A → Bool) (xs : List A) {i : A}
      → Distinct xs
      → ((x : A) → p x ≡ true → key x ≡ k)
      → ((x : A) → q x ≡ true → key x ≡ k)
      → first_row p xs ≡ some i
      → All (λ j. q j ≡ true → j ≡ i) xs
  first_row_unique k p q [] d own_p own_q h = tt
  first_row_unique k p q (x ∷ xs) {i} d own_p own_q h = elim (Bool-cases (p x)) [
    | inl e ↦ ((λ sel. ground arith), none_with k q xs i own_q (rw⁻¹ (own_p x e) d.0))
    | inr e ↦
        let rest : first_row p xs ≡ some i = ground arith in
        (
          (λ sel.
              absurd (ground (arith, d.0, own_q x sel, first_row-key k p xs {i = i} own_p rest))),
          first_row_unique k p q xs {i = i} d.1 own_p own_q rest,
        )
  ]

  -- A selected row shows its key among the selected rows.
  pub has_key-selected :
      (k : ℕ) (p : A → Bool) (xs : List A)
      → ((x : A) → p x ≡ true → key x ≡ k)
      → 1 ≤ row_count p xs
      → has_key k (filter p xs) ≡ true
  has_key-selected k p [] own h = absurd (omega (arith, h))
  has_key-selected k p (x ∷ xs) own h = elim (Bool-cases (p x)) [
    | inl e ↦ ground (arith, own x e, ==-refl k)
    | inr e ↦ ground (arith, has_key-selected k p xs own (ground arith))
  ]
