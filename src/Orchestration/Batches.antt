-- ===== src/Orchestration/Batches.antt =====
-- A batch of src/modules/orchestration/data-retention.tick.ts: one that deletes fewer rows than its limit
-- leaves no row that it would have deleted.
use wa_runtime.Base.{
  ℕ, zero, suc, ◌≤◌, ◌<◌, Bool, true, false, ◌||◌, List, [], ◌∷◌, ◌≡◌, refl, inl, inr, arith, ◌==◌,
  ==-eq, ==-refl, ltb, leb, filter, take, length, All, All-map, Bool-cases, any, if_split,
}
use wa_runtime.Base.Sql.{row_count, order_by, insert_by, delete_where}
use wa_runtime.Base.Keys.{Distinct, has_key, has_key-filter, has_key-take, has_key-order_by}
use wa_runtime.Orchestration.Retention.{candidates, delete_batch}

module _ {ℓ} {A : Type ℓ} where
  length-insert_by : (f : A → ℕ) (x : A) (xs : List A) → length (insert_by f x xs) ≡ suc (length xs)
  unfolding insert_by
  length-insert_by f x [] = refl
  length-insert_by f x (y ∷ ys) = ground (arith, length-insert_by f x ys)

  length-order_by : (f : A → ℕ) (xs : List A) → length (order_by f xs) ≡ length xs
  unfolding order_by
  length-order_by f [] = refl
  length-order_by f (x ∷ xs) =
      ground (arith, length-insert_by f x (order_by f xs), length-order_by f xs)

  take_all : (n : ℕ) (xs : List A) → length (take n xs) < n → take n xs ≡ xs
  take_all zero xs h = absurd (omega (arith, h))
  take_all (suc n) [] h = refl
  take_all (suc n) (x ∷ xs) h = rw (take_all n xs (omega (arith, h))) refl

  pub All-delete_where_map {κ μ} :
      (P : A → Type κ) (Q : A → Type μ) (p : A → Bool) (xs : List A)
      → ((x : A) → p x ≡ false → P x → Q x)
      → All P xs
      → All Q (delete_where p xs)
  All-delete_where_map P Q p [] keep h = tt
  All-delete_where_map P Q p (x ∷ xs) keep h =
      if_split (All Q) (p x) (λ out. All-delete_where_map P Q p xs keep h.1)
        (λ stays. (keep x stays h.0, All-delete_where_map P Q p xs keep h.1))

  pub any-delete_where :
      (q p : A → Bool) (xs : List A) → any q (delete_where p xs) ≡ true → any q xs ≡ true
  any-delete_where q p [] h = h
  any-delete_where q p (x ∷ xs) h = ground (arith, any-delete_where q p xs)

module _ {ℓ} {A : Type ℓ} (key : A → ℕ) where
  Distinct-filter : (p : A → Bool) (xs : List A) → Distinct key xs → Distinct key (filter p xs)
  Distinct-filter p [] d = tt
  Distinct-filter p (x ∷ xs) d =
      if_split (Distinct key) (p x)
        (λ t. (ground (arith, d.0, has_key-filter key (key x) p xs), Distinct-filter p xs d.1))
        (λ f. Distinct-filter p xs d.1)

  has_key-inserted :
      (k : ℕ) (f : A → ℕ) (x : A) (xs : List A)
      → has_key key k (insert_by f x xs) ≡ (key x == k || has_key key k xs)
  unfolding insert_by
  has_key-inserted k f x [] = refl
  has_key-inserted k f x (y ∷ ys) = ground (arith, has_key-inserted k f x ys)

  Distinct-insert_by :
      (f : A → ℕ) (x : A) (xs : List A)
      → has_key key (key x) xs ≡ false
      → Distinct key xs
      → Distinct key (insert_by f x xs)
  unfolding insert_by
  Distinct-insert_by f x [] fresh d = (refl, tt)
  Distinct-insert_by f x (y ∷ ys) fresh d =
      if_split (Distinct key) (leb (f x) (f y)) (λ t. (fresh, d))
        (λ t. (
          ground (arith, d.0, has_key-inserted (key y) f x ys, flip),
          Distinct-insert_by f x ys (ground arith) d.1,
        ))
    where
      flip : (key x == key y) ≡ false
      flip = elim (Bool-cases (key x == key y)) [
        | inl e ↦ absurd (ground (arith, ==-eq (key x) (key y) e, ==-refl (key y)))
        | inr e ↦ e
      ]

  Distinct-order_by : (f : A → ℕ) (xs : List A) → Distinct key xs → Distinct key (order_by f xs)
  unfolding order_by
  Distinct-order_by f [] d = tt
  Distinct-order_by f (x ∷ xs) d =
      Distinct-insert_by f x (order_by f xs) (rw (has_key-order_by key (key x) f xs) d.0)
        (Distinct-order_by f xs d.1)

  Distinct-take : (n : ℕ) (xs : List A) → Distinct key xs → Distinct key (take n xs)
  Distinct-take zero xs d = tt
  Distinct-take (suc n) [] d = tt
  Distinct-take (suc n) (x ∷ xs) d =
      (ground (arith, d.0, has_key-take key (key x) n xs), Distinct-take n xs d.1)

  absent-key :
      (k : ℕ) (c : List A) (x : A)
      → has_key key k c ≡ false
      → (key x == k) ≡ true
      → has_key key (key x) c ≡ false
  absent-key k c x out same = rw (==-eq (key x) k same) out

  count-grows :
      (k : ℕ) (c xs : List A)
      → row_count (λ x. has_key key (key x) c) xs
        ≤ row_count (λ x. k == key x || has_key key (key x) c) xs
  count-grows k c [] = omega arith
  count-grows k c (x ∷ xs) = ground (arith, count-grows k c xs)

  one_more :
      (k : ℕ) (c xs : List A)
      → has_key key k c ≡ false
      → has_key key k xs ≡ true
      → row_count (λ x. has_key key (key x) c) xs
        < row_count (λ x. k == key x || has_key key (key x) c) xs
  one_more k c [] out found = absurd (ground arith)
  one_more k c (x ∷ xs) out found = elim (Bool-cases (key x == k)) [
    | inl same ↦
        let e = ==-eq (key x) k same in
        ground (arith, absent-key k c x out same, e, ==-refl k, count-grows k c xs)
    | inr other ↦ ground (arith, one_more k c xs out (ground arith))
  ]

  -- At least as many rows have a key of `c` as `c` has rows.
  counted :
      (c xs : List A)
      → Distinct key c
      → ((k : ℕ) → has_key key k c ≡ true → has_key key k xs ≡ true)
      → length c ≤ row_count (λ x. has_key key (key x) c) xs
  counted [] xs d sub = omega arith
  counted (a ∷ c) xs d sub = omega (
    arith,
    counted c xs d.1 (λ k h. sub k (ground (arith, h))),
    one_more (key a) c xs d.0 (sub (key a) (ground (arith, ==-refl (key a)))),
  )

  selected_found :
      (p : A → Bool) (xs : List A)
      → All (λ x. p x ≡ true → has_key key (key x) (filter p xs) ≡ true) xs
  selected_found p [] = tt
  selected_found p (x ∷ xs) = (
    (λ sel. ground (arith, ==-refl (key x))),
    All-map _ _ xs (λ y h sel. ground (arith, h sel)) (selected_found p xs),
  )

  -- Where keys are distinct, a batch that deletes fewer rows than its limit deletes every selected row.
  pub delete_batch-drains :
      (age : A → ℕ) (p : A → Bool) (limit : ℕ) (xs : List A)
      → Distinct key xs
      → ltb (delete_batch key age p limit xs).0 limit ≡ true
      → All (λ x. p x ≡ false) (delete_batch key age p limit xs).1
  unfolding delete_batch candidates
  delete_batch-drains age p limit xs d under =
      All-delete_where_map _ _ _ xs
        (λ x out h. elim (Bool-cases (p x)) [
          | inl sel ↦ absurd (ground (arith, h sel, out, shown (key x)))
          | inr e ↦ e
        ])
        (selected_found p xs)
    where
      sorted : List A
      sorted = order_by age (order_by key (filter p xs))

      within : (k : ℕ) → has_key key k sorted ≡ true → has_key key k (filter p xs) ≡ true
      within k h = ground (
        arith,
        h,
        has_key-order_by key k age (order_by key (filter p xs)),
        has_key-order_by key k key (filter p xs),
      )

      taken_all : take limit sorted ≡ sorted
      taken_all = take_all limit sorted (
          ground (
            arith,
            under,
            counted (take limit sorted) xs
                (Distinct-take limit sorted
                  (Distinct-order_by age _ (Distinct-order_by key _ (Distinct-filter p xs d))))
                (λ k h. has_key-filter key k p xs (within k (has_key-take key k limit sorted h))),
          ))

      shown : (k : ℕ) → has_key key k (take limit sorted) ≡ has_key key k (filter p xs)
      shown k = rw taken_all (
          ground (
            arith,
            has_key-order_by key k age (order_by key (filter p xs)),
            has_key-order_by key k key (filter p xs),
          ))

  has_key-deleted :
      (k : ℕ) (p : A → Bool) (xs : List A)
      → has_key key k xs ≡ false
      → has_key key k (delete_where p xs) ≡ false
  has_key-deleted k p [] h = refl
  has_key-deleted k p (x ∷ xs) h = ground (arith, has_key-deleted k p xs)

  pub Distinct-deleted :
      (p : A → Bool) (xs : List A) → Distinct key xs → Distinct key (delete_where p xs)
  Distinct-deleted p [] d = tt
  Distinct-deleted p (x ∷ xs) d =
      if_split (Distinct key) (p x) (λ out. Distinct-deleted p xs d.1)
        (λ stays. (has_key-deleted (key x) p xs d.0, Distinct-deleted p xs d.1))
