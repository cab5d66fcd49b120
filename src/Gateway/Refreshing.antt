-- ===== src/Gateway/Refreshing.antt =====
-- refreshParent of src/modules/gateway/gateway-sync-item.repository.ts: after items were written, the runs that
-- had them are brought in line.
use wa_runtime.Base.{
  ℕ, ◌≤◌, String, Bool, true, false, not, none, some, List, [], ◌∷◌, ◌≡◌, ◌⊎◌, refl, inl, inr,
  arith, ◌==◌, ==-eq, ==-refl, All, All-of, ◌∙◌, All-map, Bool-cases, member, filter,
}
use wa_runtime.Base.Sql.{update_where, row_count, first_row, All-updated, update_row}
use wa_runtime.Gateway.SyncRun.{SyncRun, refresh_progress, refreshed_row}
use wa_runtime.Gateway.SyncItem.{
  SyncItem, Sync, of_run, with_status, is_outstanding, aggregate, refresh_parent, refresh_all,
  distinct,
}
use wa_runtime.Gateway.Coherence.{Coherent, Working, Ended, Unleased, remaining, item_count}

row_count-kept {ℓ} :
    {A : Type ℓ} (q p : A → Bool) (f : A → A) (xs : List A)
    → All (λ x. p x ≡ true → q (f x) ≡ q x) xs
    → row_count q (update_where p f xs) ≡ row_count q xs
row_count-kept q p f [] h = refl
row_count-kept q p f (x ∷ xs) h = elim (Bool-cases (p x)) [
  | inl e ↦ ground (arith, h.0 e, row_count-kept q p f xs h.1)
  | inr e ↦ ground (arith, row_count-kept q p f xs h.1)
]

-- A run that may be refreshed.
abbrev Due : List SyncItem → SyncRun → Type 0
Due items r = Unleased r ⊎ (Working items r ⊎ Ended items r)

-- The runs that wait for a refresh may be refreshed; the others are coherent.
abbrev pub Pend : List ℕ → List SyncItem → SyncRun → Type 0
Pend runs items r =
    (member r.id runs ≡ true → Due items r) × (member r.id runs ≡ false → Coherent items r)

abbrev refreshed : ℕ → List SyncItem → (ℕ → String) → ℕ → SyncRun → SyncRun
refreshed run items say now r =
    refreshed_row (aggregate run items) (say (aggregate run items).failures) now r

refreshed-Ended :
    (run : ℕ) (items : List SyncItem) (say : ℕ → String) (now : ℕ) (r : SyncRun)
    → r.id ≡ run
    → r.lease_token ≡ none
    → remaining run items ≡ 0
    → Ended items (refreshed run items say now r)
unfolding aggregate
refreshed-Ended run items say now r same free z =
    (ground (arith, z), ground (arith, z), free, rw same z)

refreshed-Unleased :
    (run : ℕ) (items : List SyncItem) (say : ℕ → String) (now : ℕ) (r : SyncRun)
    → r.id ≡ run
    → Unleased r
    → Working items (refreshed run items say now r) ⊎ Ended items (refreshed run items say now r)
unfolding aggregate
refreshed-Unleased run items say now r same u = elim (Bool-cases (remaining run items == 0)) [
  | inl e ↦ inr (refreshed-Ended run items say now r same u.1 (==-eq (remaining run items) 0 e))
  | inr e ↦ inl (ground (arith, e), (ground (arith, e, u.0), u.1, u.2), rw same (ground (arith, e)))
]

refreshed_lem :
    (run : ℕ) (items : List SyncItem) (say : ℕ → String) (now : ℕ) (r : SyncRun)
    → r.id ≡ run
    → Due items r
    → Working items (refreshed run items say now r) ⊎ Ended items (refreshed run items say now r)
refreshed_lem run items say now r same (inl u) = refreshed-Unleased run items say now r same u
refreshed_lem run items say now r same (inr (inl w)) =
    refreshed-Unleased run items say now r same w.1
refreshed_lem run items say now r same (inr (inr d)) =
    inr (refreshed-Ended run items say now r same d.2 (rw⁻¹ same d.3))

refreshed-Pend :
    (run : ℕ) (runs : List ℕ) (items : List SyncItem) (say : ℕ → String) (now : ℕ) (r : SyncRun)
    → Pend (run ∷ runs) items r
    → Pend runs items (update_row (λ (x : SyncRun). x.id == run) (refreshed run items say now) r)
refreshed-Pend run runs items say now r h = elim (Bool-cases (r.id == run)) [
  | inl own ↦
      let same = ==-eq r.id run own in
      let k = refreshed_lem run items say now r same (h.0 (ground (arith, same, ==-refl run))) in
      rw own ((λ e. inr k), (λ e. inr k))
  | inr other ↦ rw other ((λ e. h.0 (ground (arith, e))), (λ e. h.1 (differs other e)))
]
  where
    differs : (r.id == run) ≡ false → member r.id runs ≡ false → member r.id (run ∷ runs) ≡ false
    differs other e = elim (Bool-cases (run == r.id)) [
      | inl same ↦ absurd (ground (arith, ==-eq run r.id same, ==-refl run))
      | inr differ ↦ ground (arith, e)
    ]

refresh_all-Coherent :
    (say : ℕ → String) (runs : List ℕ) (now : ℕ) (s : Sync)
    → All (Pend runs s.items) s.db.runs
    → All (Coherent s.items) (refresh_all say runs now s).db.runs
unfolding refresh_all refresh_parent refresh_progress
refresh_all-Coherent say [] now s h = All-map _ _ s.db.runs (λ r k. k.1 refl) h
refresh_all-Coherent say (run ∷ runs) now s h =
    refresh_all-Coherent say runs now (refresh_parent say run now s) (
      All-updated (Pend (run ∷ runs) s.items) (Pend runs s.items) (λ x. x.id == run)
        (refreshed run s.items say now) s.db.runs (refreshed-Pend run runs s.items say now) h)

member-filter :
    (k x : ℕ) (ys : List ℕ)
    → (k == x) ≡ false
    → member k (filter (λ y. not (y == x)) ys) ≡ member k ys
member-filter k x [] h = refl
member-filter k x (y ∷ ys) h = elim (Bool-cases (y == k)) [
  | inl e ↦ ground (arith, ==-eq y k e, member-filter k x ys h)
  | inr e ↦ ground (arith, member-filter k x ys h)
]

pub member-distinct : (k : ℕ) (xs : List ℕ) → member k (distinct xs) ≡ member k xs
unfolding distinct
member-distinct k [] = refl
member-distinct k (x ∷ xs) = elim (Bool-cases (k == x)) [
  | inl e ↦ ground (arith, ==-eq k x e, ==-refl x)
  | inr e ↦ ground (arith, member-filter k x (distinct xs) e, member-distinct k xs)
]

none_left : (k : ℕ) (items : List SyncItem) → item_count k items ≡ 0 → 1 ≤ remaining k items → ⊥
none_left k [] h t = omega (arith, t)
none_left k (i ∷ items) h t = ground (arith, none_left k items)

-- Items are written so that only runs that are then refreshed lose outstanding ones.
pub write_items-Coherent :
    (say : ℕ → String) (p : SyncItem → Bool) (f : SyncItem → SyncItem) (runs : List ℕ) (now : ℕ)
    (s : Sync)
    → ((i : SyncItem) → (f i).sync_run_id ≡ i.sync_run_id)
    → ((k : ℕ) → member k runs ≡ true → 1 ≤ remaining k s.items)
    → ((k : ℕ) → member k runs ≡ false → All (λ i. p i ≡ true → of_run k i ≡ false) s.items)
    → All (Coherent s.items) s.db.runs
    → let written = record s { items = update_where p f s.items } in
      All (Coherent written.items) (refresh_all say runs now written).db.runs
write_items-Coherent say p f runs now s same touched spared h =
    refresh_all-Coherent say runs now (record s { items = update_where p f s.items })
      (All-map (Coherent s.items) (Pend runs (update_where p f s.items)) s.db.runs
        (λ (r : SyncRun) k.
          ((λ e. inl (unleased r (touched r.id e) k)), (λ e. untouched r (spared r.id e) k)))
        h)
  where
    unleased : (r : SyncRun) → 1 ≤ remaining r.id s.items → Coherent s.items r → Unleased r
    unleased r t (inl o) = absurd (none_left r.id s.items o.1 t)
    unleased r t (inr (inl w)) = w.1
    unleased r t (inr (inr d)) = absurd (omega (arith, d.3, t))

    counts : (k : ℕ) → item_count k (update_where p f s.items) ≡ item_count k s.items
    counts k =
        row_count-kept (of_run k) p f s.items (All-of _ s.items (λ i sel. ground (arith, same i)))

    outstanding :
        (k : ℕ)
        → All (λ i. p i ≡ true → of_run k i ≡ false) s.items
        → remaining k (update_where p f s.items) ≡ remaining k s.items
    outstanding k sp =
        row_count-kept (with_status k is_outstanding) p f s.items
          (All-map _ _ s.items (λ (i : SyncItem) g sel. ground (arith, same i, g sel)) sp)

    untouched :
        (r : SyncRun)
        → All (λ i. p i ≡ true → of_run r.id i ≡ false) s.items
        → Coherent s.items r
        → Coherent (update_where p f s.items) r
    untouched r sp (inl o) = inl (o.0, counts r.id ∙ o.1, o.2)
    untouched r sp (inr (inl w)) = inr (inl (w.0, w.1, rw (outstanding r.id sp) w.2))
    untouched r sp (inr (inr d)) = inr (inr (d.0, d.1, d.2, outstanding r.id sp ∙ d.3))

pub row_count-some {ℓ} :
    {A : Type ℓ} (q p : A → Bool) (xs : List A) {x : A}
    → first_row p xs ≡ some x
    → q x ≡ true
    → 1 ≤ row_count q xs
row_count-some q p [] found e = absurd (ground arith)
row_count-some q p (y ∷ xs) {x} found e = elim (Bool-cases (p y)) [
  | inl sel ↦ ground (arith, e)
  | inr out ↦ ground (arith, row_count-some q p xs {x = x} (ground arith) e)
]

-- Items are written so that what is outstanding stays so.
pub keep_items-Coherent :
    (p : SyncItem → Bool) (f : SyncItem → SyncItem) (items : List SyncItem) (rs : List SyncRun)
    → ((i : SyncItem) → (f i).sync_run_id ≡ i.sync_run_id)
    → ((i : SyncItem) → p i ≡ true → is_outstanding (f i).status ≡ is_outstanding i.status)
    → All (Coherent items) rs
    → All (Coherent (update_where p f items)) rs
keep_items-Coherent p f items rs same kept h = All-map (Coherent items) _ rs row h
  where
    counts : (k : ℕ) → item_count k (update_where p f items) ≡ item_count k items
    counts k =
        row_count-kept (of_run k) p f items (All-of _ items (λ i sel. ground (arith, same i)))

    outstanding : (k : ℕ) → remaining k (update_where p f items) ≡ remaining k items
    outstanding k =
        row_count-kept (with_status k is_outstanding) p f items
          (All-of _ items (λ i sel. ground (arith, same i, kept i sel)))

    row : (r : SyncRun) → Coherent items r → Coherent (update_where p f items) r
    row r (inl o) = inl (o.0, counts r.id ∙ o.1, o.2)
    row r (inr (inl w)) = inr (inl (w.0, w.1, rw (outstanding r.id) w.2))
    row r (inr (inr d)) = inr (inr (d.0, d.1, d.2, outstanding r.id ∙ d.3))

pub refresh_all-items :
    (say : ℕ → String) (runs : List ℕ) (now : ℕ) (s : Sync)
    → (refresh_all say runs now s).items ≡ s.items
unfolding refresh_all refresh_parent
refresh_all-items say [] now s = refl
refresh_all-items say (run ∷ runs) now s =
    refresh_all-items say runs now (refresh_parent say run now s)
