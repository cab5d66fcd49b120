-- ===== src/Gateway/Working.antt =====
-- The operations on items of src/modules/gateway/gateway-sync-item.repository.ts keep runs and items coherent.
use wa_runtime.Base.{
  is_null, ltb, ℕ, ◌≤◌, String, Bool, true, false, some, List, [], ◌∷◌, ◌≡◌, refl, inl, inr, arith,
  ◌==◌, ==-eq, All, All-map, All-of, Bool-cases, Option-cases, member, filter, if_split,
}
use wa_runtime.Base.Sql.{update_where, first_row, first_row-selected, All-update_where}
use wa_runtime.Base.Keys.{Distinct, Distinct-update_where, first_row_unique}
use wa_runtime.Gateway.RateLimit.{Config, FailurePolicy, RateLimit, ensure, ready_and_rate, renew}
use wa_runtime.Gateway.SyncRun.{run_id, refresh_progress}
use wa_runtime.Gateway.SyncItem.{
  SyncItem, Sync, item_id, of_run, with_status, is_outstanding, is_waiting, in_progress,
  refresh_parent, refresh_all, distinct, runs_of, claimable, claim_row, claim, claim_at,
  claim_ready, claim_joined, claim_candidate, owned, renew_row, renew_lease, renew_on, complete_row,
  complete, complete_on, skip_row, skip, skip_on, tokened, fail_row, retries, retry_ms, fail,
  fail_on, lease_expired, recover_row, recover_expired, running_run,
}
use wa_runtime.Gateway.Coherence.{Coherent, remaining}
use wa_runtime.Gateway.Refreshing.{
  write_items-Coherent, member-distinct, refresh_all-items, keep_items-Coherent, row_count-some,
}

-- A waiting item may be claimed once more, and a RUNNING one has a lease that ends.
abbrev pub Movable : Config → SyncItem → Type 0
Movable cfg i =
    (is_waiting i.status ≡ true → ltb i.attempt_count cfg.item_max_attempts ≡ true)
    × (in_progress i.status ≡ true → is_null i.lease_expires_at ≡ false)

pub record Sound (cfg : Config) (s : Sync) : Type 0 where
  pub unique_runs : Distinct run_id s.db.runs
  pub unique_items : Distinct item_id s.items
  pub coherent : All (Coherent s.items) s.db.runs
  pub movable : All (Movable cfg) s.items

refresh_all-Distinct :
    (say : ℕ → String) (runs : List ℕ) (now : ℕ) (s : Sync)
    → Distinct run_id s.db.runs
    → Distinct run_id (refresh_all say runs now s).db.runs
unfolding refresh_all refresh_parent refresh_progress
refresh_all-Distinct say [] now s d = d
refresh_all-Distinct say (run ∷ runs) now s d =
    refresh_all-Distinct say runs now (refresh_parent say run now s)
      (Distinct-update_where run_id (λ x. x.id == run) _ s.db.runs (λ r. refl) d)

-- Items are written, and the runs that lost outstanding ones are refreshed.
write-Sound :
    (say : ℕ → String) (cfg : Config) (p : SyncItem → Bool) (f : SyncItem → SyncItem)
    (runs : List ℕ) (now : ℕ) (s : Sync)
    → ((i : SyncItem) → ((f i).sync_run_id ≡ i.sync_run_id) × ((f i).id ≡ i.id))
    → All (λ i. p i ≡ true → Movable cfg i → Movable cfg (f i)) s.items
    → ((k : ℕ) → member k runs ≡ true → 1 ≤ remaining k s.items)
    → ((k : ℕ) → member k runs ≡ false → All (λ i. p i ≡ true → of_run k i ≡ false) s.items)
    → Sound cfg s
    → Sound cfg (refresh_all say runs now (record s { items = update_where p f s.items }))
write-Sound say cfg p f runs now s same move touched spared h =
    let written = record s { items = update_where p f s.items } in
    record {
      unique_runs = refresh_all-Distinct say runs now written h.unique_runs;
      unique_items =
          rw (refresh_all-items say runs now written)
            (Distinct-update_where item_id p f s.items (λ i. (same i).1) h.unique_items);
      coherent =
          rw (refresh_all-items say runs now written)
            (write_items-Coherent say p f runs now s (λ i. (same i).0) touched spared h.coherent);
      movable =
          rw (refresh_all-items say runs now written)
            (All-update_where (Movable cfg) p f s.items move h.movable);
    }

-- Items are written so that what is outstanding stays so.
keep-Sound :
    (cfg : Config) (p : SyncItem → Bool) (f : SyncItem → SyncItem) (s : Sync)
    → ((i : SyncItem) → ((f i).sync_run_id ≡ i.sync_run_id) × ((f i).id ≡ i.id))
    → ((i : SyncItem) → p i ≡ true → Movable cfg i → Movable cfg (f i))
    → ((i : SyncItem) → p i ≡ true → is_outstanding (f i).status ≡ is_outstanding i.status)
    → (limits : List RateLimit) → Sound cfg s
    → Sound cfg (record s { items = update_where p f s.items; limits = limits })
keep-Sound cfg p f s same move kept limits h = record {
  unique_runs = h.unique_runs;
  unique_items = Distinct-update_where item_id p f s.items (λ i. (same i).1) h.unique_items;
  coherent = keep_items-Coherent p f s.items s.db.runs (λ i. (same i).0) kept h.coherent;
  movable = All-update_where (Movable cfg) p f s.items (All-of _ s.items move) h.movable;
}

-- The rate limits play no part.
limits-Sound :
    (cfg : Config) (s : Sync) (limits : List RateLimit)
    → Sound cfg s
    → Sound cfg (record s { limits = limits })
limits-Sound cfg s limits h = record {
  unique_runs = h.unique_runs;
  unique_items = h.unique_items;
  coherent = h.coherent;
  movable = h.movable;
}

-- An item of a run is written, found by its id, and the run is refreshed.
one_item-Sound :
    (say : ℕ → String) (cfg : Config) (id : ℕ) (p q : SyncItem → Bool) (f : SyncItem → SyncItem)
    (now : ℕ) (s : Sync) {i : SyncItem}
    → ((j : SyncItem) → p j ≡ true → (j.id ≡ id) × (is_outstanding j.status ≡ true))
    → ((j : SyncItem) → q j ≡ true → j.id ≡ id)
    → ((j : SyncItem) → ((f j).sync_run_id ≡ j.sync_run_id) × ((f j).id ≡ j.id))
    → (All (λ j. q j ≡ true → j ≡ i) s.items
        → All (λ j. q j ≡ true → Movable cfg j → Movable cfg (f j)) s.items)
    → (limits : List RateLimit) → first_row p s.items ≡ some i
    → Sound cfg s
    → Sound cfg (
        refresh_all say
          (i.sync_run_id ∷ [])
          now
          (record s { items = update_where q f s.items; limits = limits }))
one_item-Sound say cfg id p q f now s {i} own_p own_q same move limits found h =
    write-Sound say cfg q f (i.sync_run_id ∷ []) now (record s { limits = limits }) same (move only)
      touched spared (limits-Sound cfg s limits h)
  where
    only : All (λ j. q j ≡ true → j ≡ i) s.items
    only =
        first_row_unique item_id id p q s.items h.unique_items (λ j sel. (own_p j sel).0) own_q
          found

    touched : (k : ℕ) → member k (i.sync_run_id ∷ []) ≡ true → 1 ≤ remaining k s.items
    touched k e =
        let sel = first_row-selected p s.items found in
        row_count-some (with_status k is_outstanding) p s.items found
          (ground (arith, e, (own_p i sel).1))

    spared :
        (k : ℕ)
        → member k (i.sync_run_id ∷ []) ≡ false
        → All (λ j. q j ≡ true → of_run k j ≡ false) s.items
    spared k e = All-map _ _ s.items (λ (j : SyncItem) g sel. rw (g sel) (ground (arith, e))) only

pub complete-Sound :
    (say : ℕ → String) (cfg : Config) (id token members now : ℕ) (s : Sync)
    → Sound cfg s
    → Sound cfg (complete say cfg id token members now s).1
unfolding complete complete_on refresh_all
complete-Sound say cfg id token members now s h =
    elim (Option-cases (first_row (owned id token now) s.items)) [
      | inl gone ↦ rw gone h
      | inr (i, found) ↦ rw found (
          one_item-Sound say cfg id (owned id token now) (owned id token now)
            (complete_row members now) now s (λ j sel. (==-eq j.id id (ground arith), ground arith))
            (λ j sel. ==-eq j.id id (ground arith)) (λ j. (refl, refl))
            (λ only. All-of _ s.items (λ j sel m. ground arith)) _ found h)
    ]

pub skip-Sound :
    (say : ℕ → String) (cfg : Config) (id token : ℕ) (error : String) (now : ℕ) (s : Sync)
    → Sound cfg s
    → Sound cfg (skip say id token error now s).1
unfolding skip skip_on refresh_all
skip-Sound say cfg id token error now s h =
    elim (Option-cases (first_row (owned id token now) s.items)) [
      | inl gone ↦ rw gone h
      | inr (i, found) ↦ rw found (
          one_item-Sound say cfg id (owned id token now) (owned id token now) (skip_row error now)
            now s (λ j sel. (==-eq j.id id (ground arith), ground arith))
            (λ j sel. ==-eq j.id id (ground arith)) (λ j. (refl, refl))
            (λ only. All-of _ s.items (λ j sel m. ground arith)) _ found h)
    ]

pub fail-Sound :
    (say : ℕ → String) (cfg : Config) (policy : FailurePolicy) (id token : ℕ) (error : String)
    (jitter cool_ms now : ℕ) (s : Sync)
    → Sound cfg s
    → Sound cfg (fail say cfg policy id token error jitter cool_ms now s).1
unfolding fail fail_on refresh_all
fail-Sound say cfg policy id token error jitter cool_ms now s h =
    elim (Option-cases (first_row (owned id token now) s.items)) [
      | inl gone ↦ rw gone h
      | inr (i, found) ↦ rw found (
          one_item-Sound say cfg id (owned id token now) (tokened id token)
            (fail_row (retries cfg policy i) error (retry_ms i.attempt_count jitter) now) now s
            (λ j sel. (==-eq j.id id (ground arith), ground arith))
            (λ j sel. ==-eq j.id id (ground arith)) (λ j. (refl, refl))
            (λ only. All-map _ _ s.items (λ (j : SyncItem) g sel m. rw (g sel) (again i)) only) _
            found h)
    ]
  where
    again :
        (i : SyncItem)
        → Movable cfg
            (fail_row (retries cfg policy i) error (retry_ms i.attempt_count jitter) now i)
    again i = ground arith

pub renew-Sound :
    (cfg : Config) (id token now : ℕ) (s : Sync)
    → Sound cfg s
    → Sound cfg (renew_lease id token now s).1
unfolding renew_lease renew_on
renew-Sound cfg id token now s h = elim (Option-cases (first_row (owned id token now) s.items)) [
  | inl gone ↦ rw gone h
  | inr (i, found) ↦ rw found (
      if_split (λ (r : Bool × Sync). Sound cfg r.1) (renew i.session_id token now s.limits).0
        (λ t.
          keep-Sound cfg (owned id token now) (renew_row now) s (λ j. (refl, refl))
            (λ j sel m. ground (arith, m)) (λ j sel. refl) _ h)
        (λ f. h))
]

pub claim-Sound :
    (cfg : Config) (id token now : ℕ) (s : Sync)
    → Sound cfg s
    → Sound cfg (claim cfg id token now s).1
unfolding claim claim_candidate claim_joined claim_ready claim_at
claim-Sound cfg id token now s h =
    elim (Option-cases (first_row (λ (i : SyncItem). i.id == id) s.items)) [
      | inl gone ↦ rw gone h
      | inr (i, found) ↦
          rw found (elim (Option-cases (first_row (running_run i.sync_run_id) s.db.runs)) [
            | inl idle ↦ rw idle h
            | inr (r, running) ↦
                rw running
                  (elim (Option-cases
                    (ready_and_rate cfg i.session_id now (ensure cfg i.session_id now s.limits))) [
                      | inl held ↦ rw held (limits-Sound cfg s _ h)
                      | inr (rate, ready) ↦
                          rw ready
                            (elim (Option-cases (first_row (claimable cfg i.id now) s.items)) [
                              | inl late ↦ rw late (limits-Sound cfg s _ h)
                              | inr (c, taken) ↦ rw taken (
                                  keep-Sound cfg (claimable cfg i.id now) (claim_row token now) s
                                    (λ j. (refl, refl)) (λ j sel m. ground arith)
                                    (λ j sel. ground arith) _ h)
                            ])
                    ])
          ])
    ]

hit_runs :
    (k now : ℕ) (items : List SyncItem)
    → member k (runs_of (filter (lease_expired now) items)) ≡ true
    → 1 ≤ remaining k items
hit_runs k now [] h = absurd (ground arith)
hit_runs k now (i ∷ items) h = elim (Bool-cases (lease_expired now i)) [
  | inl e ↦ elim (Bool-cases (i.sync_run_id == k)) [
    | inl own ↦ ground arith
    | inr other ↦ ground (arith, hit_runs k now items (ground arith))
  ]
  | inr e ↦ ground (arith, hit_runs k now items (ground arith))
]

missed_runs :
    (k now : ℕ) (items : List SyncItem)
    → member k (runs_of (filter (lease_expired now) items)) ≡ false
    → All (λ i. lease_expired now i ≡ true → of_run k i ≡ false) items
missed_runs k now [] h = tt
missed_runs k now (i ∷ items) h = elim (Bool-cases (lease_expired now i)) [
  | inl e ↦ ((λ sel. ground arith), missed_runs k now items (ground arith))
  | inr e ↦ ((λ sel. absurd (ground arith)), missed_runs k now items (ground arith))
]

pub recover-Sound :
    (say : ℕ → String) (cfg : Config) (now : ℕ) (s : Sync)
    → Sound cfg s
    → Sound cfg (recover_expired say cfg now s).1
unfolding recover_expired
recover-Sound say cfg now s h =
    let hit = runs_of (filter (lease_expired now) s.items) in
    limits-Sound cfg _ _ (
      write-Sound say cfg (lease_expired now) (recover_row cfg now) (distinct hit) now s
        (λ i. (refl, refl)) (All-of _ s.items (λ i sel m. ground arith))
        (λ k e. hit_runs k now s.items (rw⁻¹ (member-distinct k hit) e))
        (λ k e. missed_runs k now s.items (rw⁻¹ (member-distinct k hit) e)) h)
