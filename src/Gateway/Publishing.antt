-- ===== src/Gateway/Publishing.antt =====
-- publishDiscovery of src/modules/gateway/gateway-sync-item.repository.ts keeps runs and items coherent: an
-- accepted snapshot either ends its run or gives it an outstanding item.
use wa_runtime.Base.{
  ℕ, ◌≤◌, Bool, true, false, ◌&&◌, Option, List, [], ◌∷◌, ◌++◌, ◌≡◌, refl, inl, inr, arith, ◌==◌,
  ==-eq, ==-refl, All, All-map, All-append, Bool-cases, any, if_split, length, ltb, ◌∙◌,
}
use wa_runtime.Base.Sql.{update_where, row_count, row_count-append_one}
use wa_runtime.Base.Keys.{Distinct, Distinct-update_where, selected_by_key, has_key-selected}
use wa_runtime.Gateway.SyncRun.{
  SyncRun, SyncMode, WriteFence, may_write, assert_sync_write_ownership, run_id, tokened, defer_row,
  defer_discovery, discovered_row, finish_discovery,
}
use wa_runtime.Gateway.SyncRun
use wa_runtime.Gateway.RateLimit.{Config}
use wa_runtime.Gateway.SyncItem.{item_id, SyncItem, Sync, of_run, with_status, is_outstanding}
use wa_runtime.Gateway.Groups.{Summary, summary_ids}
use wa_runtime.Gateway.Discovery.{
  World, DiscoveryConfig, Selected, Published, insert_items, new_item, item_for, is_empty,
  publish_discovery, publish_owned, put_off, accept, is_suspicious, baseline, confirmations,
  has_duplicate, select, after_publish,
}
use wa_runtime.Gateway.Coherence.{Coherent, Open, remaining, item_count, update-Coherent}
use wa_runtime.Gateway.Working.{Movable, Sound}

abbrev AllCoherent : Sync → Type 0
AllCoherent s = All (Coherent s.items) s.db.runs

module _ (run session : ℕ) (new_id : ℕ → ℕ) (now : ℕ) where
  insert-other :
      (q : SyncItem → Bool) (xs : List Selected) (items : List SyncItem)
      → ((x : Selected) → q (new_item run session x (new_id x.ordinal) now) ≡ false)
      → row_count q (insert_items run session xs new_id now items) ≡ row_count q items
  unfolding insert_items
  insert-other q [] items out = refl
  insert-other q (x ∷ xs) items out = elim (Bool-cases (any (item_for run x.group.id) items)) [
    | inl e ↦ rw e (insert-other q xs items out)
    | inr e ↦ rw e (insert-other q xs _ out ∙ one)
  ]
    where
      one :
          row_count q (items ++ new_item run session x (new_id x.ordinal) now ∷ [])
          ≡ row_count q items
      one = ground (
        arith,
        row_count-append_one q items (new_item run session x (new_id x.ordinal) now),
        out x,
      )

  insert-grows :
      (q : SyncItem → Bool) (xs : List Selected) (items : List SyncItem)
      → row_count q items ≤ row_count q (insert_items run session xs new_id now items)
  unfolding insert_items
  insert-grows q [] items = omega arith
  insert-grows q (x ∷ xs) items = elim (Bool-cases (any (item_for run x.group.id) items)) [
    | inl e ↦ rw e (insert-grows q xs items)
    | inr e ↦
        let added = items ++ new_item run session x (new_id x.ordinal) now ∷ [] in
        rw e (
          omega (
            arith,
            insert-grows q xs added,
            row_count-append_one q items (new_item run session x (new_id x.ordinal) now),
          ))
  ]

  none_for :
      (group : ℕ) (items : List SyncItem)
      → item_count run items ≡ 0
      → any (item_for run group) items ≡ false
  none_for group [] h = refl
  none_for group (i ∷ items) h = ground (arith, none_for group items)

  insert-own :
      (x : Selected) (xs : List Selected) (items : List SyncItem)
      → item_count run items ≡ 0
      → 1 ≤ remaining run (insert_items run session (x ∷ xs) new_id now items)
  unfolding insert_items
  insert-own x xs items h =
      let new = new_item run session x (new_id x.ordinal) now in
      rw (none_for x.group.id items h) (
        ground (
          arith,
          insert-grows (with_status run is_outstanding) xs (items ++ new ∷ []),
          row_count-append_one (with_status run is_outstanding) items new,
          ==-refl run,
        ))

leased-Open :
    (items : List SyncItem) (id token : ℕ) (r : SyncRun)
    → tokened id token r ≡ true
    → Coherent items r
    → Open items r
leased-Open items id token r sel (inl o) = o
leased-Open items id token r sel (inr (inl w)) = absurd (ground (arith, w.1.1))
leased-Open items id token r sel (inr (inr d)) = absurd (ground (arith, d.2))

remaining-none : (k : ℕ) (items : List SyncItem) → item_count k items ≡ 0 → remaining k items ≡ 0
remaining-none k [] h = refl
remaining-none k (i ∷ items) h = ground (arith, remaining-none k items)

put_off-Coherent :
    (cfg : DiscoveryConfig) (fence : WriteFence) (session : ℕ) (ms : List Summary) (now : ℕ)
    (w : World)
    → AllCoherent w.sync
    → AllCoherent (put_off cfg fence session ms now w).1.sync
unfolding put_off defer_discovery
put_off-Coherent cfg fence session ms now w h =
    update-Coherent (tokened fence.sync_run_id fence.token) (defer_row now) w.sync.items
      w.sync.db.runs
      (λ r sel k.
        let o = leased-Open w.sync.items fence.sync_run_id fence.token r sel k in
        inl (o.0, o.1, refl))
      h

-- The row that the fence names is the row that holds its token.
Fencing : WriteFence → SyncRun → Type 0
Fencing fence r =
    (r.id == fence.sync_run_id) ≡ true → tokened fence.sync_run_id fence.token r ≡ true

owner-Fencing :
    (session : ℕ) (fence : WriteFence) (now : ℕ) (rs : List SyncRun)
    → Distinct run_id rs
    → 1 ≤ row_count (may_write session fence now) rs
    → All (Fencing fence) rs
unfolding Fencing
owner-Fencing session fence now rs d one =
    let shown =
      has_key-selected run_id fence.sync_run_id (may_write session fence now) rs
        (λ r sel. ==-eq r.id fence.sync_run_id (ground arith)) one in
    All-map _ _ rs
      (λ (r : SyncRun) k own.
        let writes = k (rw (==-eq r.id fence.sync_run_id own) shown) in ground (arith, writes))
      (selected_by_key run_id (may_write session fence now) rs d)

accept-row :
    (fence : WriteFence) (session found : ℕ) (xs : List Selected) (new_id : ℕ → ℕ) (now : ℕ)
    (items : List SyncItem) (r : SyncRun)
    → tokened fence.sync_run_id fence.token r ≡ true
    → Open items r
    → Coherent
        (insert_items fence.sync_run_id session xs new_id now items)
        (discovered_row found (length xs) (is_empty xs) now r)
unfolding insert_items
accept-row fence session found [] new_id now items r sel o =
    inr (inr (refl, refl, refl, remaining-none r.id items o.1))
accept-row fence session found (x ∷ xs) new_id now items r sel o =
    let own : r.id ≡ fence.sync_run_id = ==-eq r.id fence.sync_run_id (ground arith) in
    inr (
      inl (
        refl,
        (ground (arith, o.2), refl, refl),
        rw own (insert-own fence.sync_run_id session new_id now x xs items (rw⁻¹ own o.1)),
      ))

other-row :
    (run session : ℕ) (xs : List Selected) (new_id : ℕ → ℕ) (now : ℕ) (items : List SyncItem)
    (r : SyncRun)
    → (r.id == run) ≡ false
    → Coherent items r
    → Coherent (insert_items run session xs new_id now items) r
other-row run session xs new_id now items r other = moved
  where
    counts : item_count r.id (insert_items run session xs new_id now items) ≡ item_count r.id items
    counts = insert-other run session new_id now (of_run r.id) xs items (λ x. ground arith)

    outstanding :
        remaining r.id (insert_items run session xs new_id now items) ≡ remaining r.id items
    outstanding =
        insert-other run session new_id now (with_status r.id is_outstanding) xs items
          (λ x. ground arith)

    moved : Coherent items r → Coherent (insert_items run session xs new_id now items) r
    moved (inl o) = inl (o.0, counts ∙ o.1, o.2)
    moved (inr (inl w)) = inr (inl (w.0, w.1, rw outstanding w.2))
    moved (inr (inr d)) = inr (inr (d.0, d.1, d.2, outstanding ∙ d.3))

accept-rows :
    (fence : WriteFence) (session found : ℕ) (xs : List Selected) (new_id : ℕ → ℕ) (now : ℕ)
    (items : List SyncItem) (rs : List SyncRun)
    → All (Fencing fence) rs
    → All (Coherent items) rs
    → All (Coherent (insert_items fence.sync_run_id session xs new_id now items)) (
        update_where
          (tokened fence.sync_run_id fence.token)
          (discovered_row found (length xs) (is_empty xs) now)
          rs)
unfolding Fencing
accept-rows fence session found xs new_id now items [] own h = tt
accept-rows fence session found xs new_id now items (r ∷ rs) own h = (
  if_split (Coherent (insert_items fence.sync_run_id session xs new_id now items))
      (tokened fence.sync_run_id fence.token r)
      (λ sel.
        accept-row fence session found xs new_id now items r sel
          (leased-Open items fence.sync_run_id fence.token r sel h.0))
      (λ out.
        other-row fence.sync_run_id session xs new_id now items r (ground (arith, own.0)) h.0),
  accept-rows fence session found xs new_id now items rs own.1 h.1,
)

writers :
    (session : ℕ) (fence : WriteFence) (now : ℕ) (db : SyncRun.Db)
    → assert_sync_write_ownership session fence now db ≡ true
    → 1 ≤ row_count (may_write session fence now) db.runs
unfolding assert_sync_write_ownership
writers session fence now db owner = ground (arith, owner)

insert-Movable :
    (cfg : Config) (run session : ℕ) (xs : List Selected) (new_id : ℕ → ℕ) (now : ℕ)
    (items : List SyncItem)
    → 1 ≤ cfg.item_max_attempts
    → All (Movable cfg) items
    → All (Movable cfg) (insert_items run session xs new_id now items)
unfolding insert_items
insert-Movable cfg run session [] new_id now items tries h = h
insert-Movable cfg run session (x ∷ xs) new_id now items tries h =
    insert-Movable cfg run session xs new_id now _ tries (
      if_split (All (Movable cfg)) (any (item_for run x.group.id) items) (λ t. h)
        (λ f.
          All-append (Movable cfg) items _ h
            (((λ w. ground (arith, tries)), (λ g. absurd (ground arith))), tt)))

-- new_id keeps the primary key of the items.
pub publish-Sound :
    (limits : Config) (cfg : DiscoveryConfig) (fence : WriteFence) (session : ℕ) (mode : SyncMode)
    (ms : List Summary) (new_id : ℕ → ℕ) (js_now now : ℕ) (w : World)
    → 1 ≤ limits.item_max_attempts
    → Distinct item_id (
        insert_items fence.sync_run_id session
          (select cfg mode session ms 0 js_now w.groups)
          new_id
          now
          w.sync.items)
    → Sound limits w.sync
    → Sound limits
        (after_publish (publish_discovery cfg fence session mode ms new_id js_now now w) w).sync
unfolding publish_discovery publish_owned put_off accept finish_discovery defer_discovery
publish-Sound limits cfg fence session mode ms new_id js_now now w tries fresh h =
    if_split Kept (assert_sync_write_ownership session fence now w.sync.db)
      (λ owner.
        if_split Kept
          (is_suspicious cfg (baseline session w) (length ms)
            && ltb (confirmations cfg session ms w) cfg.needed_confirmations)
          (λ t. record {
            unique_runs =
                Distinct-update_where run_id (tokened fence.sync_run_id fence.token) (defer_row now)
                  _ (λ r. refl) h.unique_runs;
            unique_items = h.unique_items;
            coherent = put_off-Coherent cfg fence session ms now w h.coherent;
            movable = h.movable;
          })
          (λ t.
            if_split Kept (has_duplicate (summary_ids ms)) (λ u. h)
              (λ u. record {
                unique_runs =
                    Distinct-update_where run_id (tokened fence.sync_run_id fence.token)
                      (discovered_row (length ms) (length selected) (is_empty selected) now) _
                      (λ r. refl) h.unique_runs;
                unique_items = fresh;
                coherent =
                    accept-rows fence session (length ms) selected new_id now w.sync.items
                      w.sync.db.runs
                      (owner-Fencing session fence now w.sync.db.runs h.unique_runs
                        (writers session fence now w.sync.db owner))
                      h.coherent;
                movable =
                    insert-Movable limits fence.sync_run_id session selected new_id now w.sync.items
                      tries h.movable;
              })))
      (λ f. h)
  where
    selected : List Selected
    selected = select cfg mode session ms 0 js_now w.groups

    Kept : Option (Published × World) → Type 0
    Kept o = Sound limits (after_publish o w).sync
