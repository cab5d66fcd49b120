-- ===== src/Base/Sql.antt =====
-- A table is the list of its rows in the order of insertion. An UPDATE changes the rows that its
-- WHERE clause selects; RETURNING gives their new values and rowCount their number.
use Prim.Native.Nat.{ℕ, suc, ◌+◌, ◌≤◌}
use native.Mathlib.Omega.{arith}
use mathlib.Core.Logic.{inl, inr}
use mathlib.Core.Path.{◌≡◌, refl, subst}
use mathlib.Core.Bool.{Bool, true, false}
use mathlib.Core.Option.{Option, none, some}
use mathlib.Core.List.{List, [], ◌∷◌, ◌++◌}
use wa_runtime.Base.Tests.{if◌then◌else◌, leb, Bool-cases}
use wa_runtime.Base.Lists.{All}

module _ {ℓ} {A : Type ℓ} where
  abbrev pub update_row : (A → Bool) → (A → A) → A → A
  update_row p f x = if p x then f x else x

  -- UPDATE … SET f WHERE p.
  abbrev pub update_where : (A → Bool) → (A → A) → List A → List A
  update_where p f [] = []
  update_where p f (x ∷ xs) = update_row p f x ∷ update_where p f xs

  -- The rowCount of an UPDATE or a SELECT with this WHERE clause.
  abbrev pub row_count : (A → Bool) → List A → ℕ
  row_count p [] = 0
  row_count p (x ∷ xs) = let rest = row_count p xs in if p x then suc rest else rest

  -- The first selected row: `rows[0]`.
  abbrev pub first_row : (A → Bool) → List A → Option A
  first_row p [] = none
  first_row p (x ∷ xs) = let rest = first_row p xs in if p x then some x else rest

  unfoldable pub insert_by : (A → ℕ) → A → List A → List A
  insert_by key x [] = x ∷ []
  insert_by key x (y ∷ ys) =
      let later = insert_by key x ys in if leb (key x) (key y) then x ∷ y ∷ ys else y ∷ later

  -- ORDER BY key: rows with one key keep their order.
  unfoldable pub order_by : (A → ℕ) → List A → List A
  unfolding insert_by
  order_by key [] = []
  order_by key (x ∷ xs) = insert_by key x (order_by key xs)

  -- DELETE … WHERE p.
  abbrev pub delete_where : (A → Bool) → List A → List A
  delete_where p [] = []
  delete_where p (x ∷ xs) = let rest = delete_where p xs in if p x then rest else x ∷ rest

  pub All-update_where {κ} :
      (P : A → Type κ) (p : A → Bool) (f : A → A) (xs : List A)
      → All (λ x. p x ≡ true → P x → P (f x)) xs
      → All P xs
      → All P (update_where p f xs)
  All-update_where P p f [] keep h = tt
  All-update_where P p f (x ∷ xs) keep h = (row (p x) refl, All-update_where P p f xs keep.1 h.1)
    where
      row : (b : Bool) → p x ≡ b → P (if b then f x else x)
      row true e = keep.0 e h.0
      row false e = h.0

  pub All-delete_where {κ} :
      (P : A → Type κ) (p : A → Bool) (xs : List A) → All P xs → All P (delete_where p xs)
  All-delete_where P p [] h = tt
  All-delete_where P p (x ∷ xs) h = row (All-delete_where P p xs h.1) (p x)
    where
      row :
          All P (delete_where p xs)
          → (b : Bool) → All P (if b then delete_where p xs else x ∷ delete_where p xs)
      row rest true = rest
      row rest false = (h.0, rest)

  -- The second table has every row of the first, moved by R, and perhaps more rows behind them.
  abbrev pub Grows : (A → A → Type 0) → List A → List A → Type 0
  Grows R [] ys = Unit
  Grows R (x ∷ xs) [] = ⊥
  Grows R (x ∷ xs) (y ∷ ys) = R x y × Grows R xs ys

  pub Grows-update_where :
      (R : A → A → Type 0) (p : A → Bool) (f : A → A) (xs : List A)
      → ((x : A) → R x x)
      → All (λ x. p x ≡ true → R x (f x)) xs
      → Grows R xs (update_where p f xs)
  Grows-update_where R p f [] same moved = tt
  Grows-update_where R p f (x ∷ xs) same moved =
      (row (p x) refl, Grows-update_where R p f xs same moved.1)
    where
      row : (b : Bool) → p x ≡ b → R x (if b then f x else x)
      row true e = moved.0 e
      row false e = same x

  pub Grows-append :
      (R : A → A → Type 0) (xs ys : List A) → ((x : A) → R x x) → Grows R xs (xs ++ ys)
  Grows-append R [] ys same = tt
  Grows-append R (x ∷ xs) ys same = (same x, Grows-append R xs ys same)

  pub Grows-refl : (R : A → A → Type 0) (xs : List A) → ((x : A) → R x x) → Grows R xs xs
  Grows-refl R [] same = tt
  Grows-refl R (x ∷ xs) same = (same x, Grows-refl R xs same)

  pub Grows-trans :
      (R : A → A → Type 0) (xs ys zs : List A)
      → ((x y z : A) → R x y → R y z → R x z)
      → Grows R xs ys
      → Grows R ys zs
      → Grows R xs zs
  Grows-trans R [] ys zs trans h k = tt
  Grows-trans R (x ∷ xs) [] zs trans h k = absurd h
  Grows-trans R (x ∷ xs) (y ∷ ys) [] trans h k = absurd k
  Grows-trans R (x ∷ xs) (y ∷ ys) (z ∷ zs) trans h k =
      (trans x y z h.0 k.0, Grows-trans R xs ys zs trans h.1 k.1)

  -- Counting the rows of a table that is updated or extended.
  pub row_count-update_where :
      (q p : A → Bool) (f : A → A) (xs : List A)
      → ((x : A) → q (f x) ≡ q x)
      → row_count q (update_where p f xs) ≡ row_count q xs
  row_count-update_where q p f [] same = refl
  row_count-update_where q p f (x ∷ xs) same =
      ground (arith, same x, row_count-update_where q p f xs same)

  pub row_count-append_one :
      (q : A → Bool) (xs : List A) (y : A)
      → row_count q (xs ++ y ∷ []) ≡ row_count q xs + row_count q (y ∷ [])
  row_count-append_one q [] y = ground arith
  row_count-append_one q (x ∷ xs) y = ground (arith, row_count-append_one q xs y)

  pub row_count-first_row :
      (q : A → Bool) (xs : List A) → first_row q xs ≡ none → row_count q xs ≡ 0
  row_count-first_row q [] h = refl
  row_count-first_row q (x ∷ xs) h = ground (arith, row_count-first_row q xs)

  pub first_row-selected :
      (q : A → Bool) (xs : List A) {x : A} → first_row q xs ≡ some x → q x ≡ true
  first_row-selected q [] h = absurd (ground arith)
  first_row-selected q (x ∷ xs) h = elim (Bool-cases (q x)) [
    | inl e ↦ ground arith
    | inr e ↦ first_row-selected q xs (ground arith)
  ]

  -- The first row that `q` selects is the same row after the table has grown.
  pub first_row-Grows :
      (R : A → A → Type 0) (q : A → Bool) (xs ys : List A) {x : A}
      → ((a b : A) → R a b → q b ≡ q a)
      → Grows R xs ys
      → first_row q xs ≡ some x
      → (y : A) × (first_row q ys ≡ some y) × R x y
  first_row-Grows R q [] ys same g h = absurd (ground arith)
  first_row-Grows R q (a ∷ xs) [] same g h = absurd g
  first_row-Grows R q (a ∷ xs) (b ∷ ys) {x} same g h = elim (Bool-cases (q a)) [
    | inl e ↦ (b, ground (arith, same a b g.0), subst (λ z. R z b) (ground arith) g.0)
    | inr e ↦
        let (y, found, moved) = first_row-Grows R q xs ys {x = x} same g.1 (ground arith) in
        (y, ground (arith, same a b g.0), moved)
  ]

  pub first_row-delete_spared :
      (q p : A → Bool) (xs : List A) {x : A}
      → p x ≡ false
      → first_row q xs ≡ some x
      → first_row q (delete_where p xs) ≡ some x
  first_row-delete_spared q p [] spared h = h
  first_row-delete_spared q p (y ∷ ys) {x} spared h =
      ground (arith, first_row-delete_spared q p ys {x = x} spared)

  pub row_count-delete_where :
      (q p : A → Bool) (xs : List A) → row_count q (delete_where p xs) ≤ row_count q xs
  row_count-delete_where q p [] = omega arith
  row_count-delete_where q p (x ∷ xs) = ground (arith, row_count-delete_where q p xs)

  pub update_where-unselected :
      (p : A → Bool) (f : A → A) (xs : List A) → first_row p xs ≡ none → update_where p f xs ≡ xs
  update_where-unselected p f [] h = refl
  update_where-unselected p f (x ∷ xs) h = ground (arith, update_where-unselected p f xs)

  pub All-updated {κ μ} :
      (P : A → Type κ) (Q : A → Type μ) (p : A → Bool) (f : A → A) (xs : List A)
      → ((x : A) → P x → Q (update_row p f x))
      → All P xs
      → All Q (update_where p f xs)
  All-updated P Q p f [] row h = tt
  All-updated P Q p f (x ∷ xs) row h = (row x h.0, All-updated P Q p f xs row h.1)
