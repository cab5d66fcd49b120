-- ===== src/Gateway/Fencing.antt =====
-- The write fences of src/modules/gateway/gateway-sync-run.repository.ts and
-- gateway-write-fence.repository.ts over any interleaving of workers.
use wa_runtime.Base.{
  ℕ, ◌+◌, ◌≤◌, String, Bool, true, false, some, List, [], ◌∷◌, ◌++◌, ◌≡◌, refl, inl, inr, arith,
  ◌==◌, ==-eq, All, All-of, All-map, All-append, any, Bool-cases, Option-cases, subst, sym,
  if_split,
}
use wa_runtime.Base.Sql.{
  update_where, update_row, row_count, first_row, first_row-selected, All-update_where,
}
use wa_runtime.Base.Keys.{has_key, Distinct, Distinct-update_where, Distinct-append_one}
use wa_runtime.Gateway.SyncRun.{
  SyncRun, SyncMode, Fence, Db, Aggregate, run_id, is_running, running_in, fence_of, current_epoch,
  ensure_fence, active_run, set_epoch, create, new_run, recover_expired, claim, claimable,
  claim_row, renew_lease, complete, fail_attempt, defer_discovery, finish_discovery,
  refresh_progress,
}
use wa_runtime.Gateway.Running.{row_count-shrinks, claim-single, new_run-single}

pub data Step (d : Db) : Db → Type 0 where
  created :
      (session : ℕ) (mode : SyncMode) (new_id now : ℕ)
      → has_key run_id new_id d.runs ≡ false
      → Step d (create session mode new_id now d).1
  recovered : (now : ℕ) → Step d (recover_expired now d).1
  claimed : (id token now : ℕ) → Step d (claim id token now d).1
  renewed : (id token now : ℕ) → Step d (renew_lease id token now d).1
  finished : (id token groups members now : ℕ) → Step d (complete id token groups members now d).1
  attempt_failed :
      (id token groups members : ℕ) (error : String) (now : ℕ)
      → Step d (fail_attempt id token groups members error now d).1
  deferred : (id token now : ℕ) → Step d (defer_discovery id token now d)
  discovered :
      (id token found selected : ℕ) (done : Bool) (now : ℕ)
      → Step d (finish_discovery id token found selected done now d)
  refreshed :
      (id : ℕ) (a : Aggregate) (failures : String) (now : ℕ)
      → Step d (refresh_progress id a failures now d)

pub data Reach (d : Db) : Db → Type 0 where
  here : Reach d d
  next : {e f : Db} → Reach d e → Step e f → Reach d f

-- A running run has an attempt and carries its session's current epoch.
abbrev pub Fenced : List Fence → SyncRun → Type 0
Fenced fs r =
    (r.attempt_count ≤ 3)
    × (is_running r.status ≡ true → r.sync_epoch ≡ some (current_epoch r.session_id fs))

pub record IsSound (d : Db) : Type 0 where
  pub unique : Distinct run_id d.runs
  pub single : (session : ℕ) → row_count (running_in session) d.runs ≤ 1
  pub fenced : All (Fenced d.fences) d.runs

-- An UPDATE of sync_runs that starts no run and leaves the running ones their epochs.
pub update-IsSound :
    (p : SyncRun → Bool) (f : SyncRun → SyncRun) (d : Db)
    → ((r : SyncRun) → ((f r).id ≡ r.id) × ((f r).session_id ≡ r.session_id))
    → ((r : SyncRun) → p r ≡ true → is_running (f r).status ≡ true → is_running r.status ≡ true)
    → ((r : SyncRun)
        → p r ≡ true
        → ((f r).attempt_count ≤ r.attempt_count)
          × (is_running (f r).status ≡ true → (f r).sync_epoch ≡ r.sync_epoch))
    → IsSound d
    → IsSound (record d { runs = update_where p f d.runs })
update-IsSound p f d same stops keeps h = record {
  unique = Distinct-update_where run_id p f d.runs (λ r. (same r).0) h.unique;
  single = λ session. omega (
    arith,
    h.single session,
    row_count-shrinks (running_in session) p f d.runs
        (λ r sel k. ground (arith, stops r sel, (same r).1)),
  );
  fenced =
      All-update_where (Fenced d.fences) p f d.runs
        (All-of _ d.runs (λ r sel k. (
          omega (arith, (keeps r sel).0, k.0),
          λ run. rw ((keeps r sel).1 run, (same r).1) (k.1 (stops r sel run)),
        )))
        h.fenced;
}

pub create-IsSound :
    (session : ℕ) (mode : SyncMode) (new_id now : ℕ) (d : Db)
    → has_key run_id new_id d.runs ≡ false
    → IsSound d
    → IsSound (create session mode new_id now d).1
unfolding create
create-IsSound session mode new_id now d fresh h = elim (Option-cases (active_run session d.runs)) [
  | inl e ↦
      rw (e, create)
        (record {
          unique =
              Distinct-append_one run_id d.runs (new_run session mode new_id now) fresh h.unique;
          single = λ s. omega (arith, h.single s, new_run-single s session new_id now mode d.runs);
          fenced =
              All-append (Fenced d.fences) d.runs _ h.fenced
                ((ground arith, λ run. absurd (ground arith)), tt);
        })
  | inr (r, e) ↦ rw (e, create) h
]

-- The epochs that the two statements on gateway_sync_fences leave.
pub ensure-any : (t : ℕ) (fs : List Fence) → any (fence_of t) (ensure_fence t fs) ≡ true
unfolding ensure_fence
ensure-any t fs = elim (Bool-cases (any (fence_of t) fs)) [
  | inl e ↦ ground arith
  | inr e ↦ rw (e, ensure_fence) (appended fs)
]
  where
    appended :
        (gs : List Fence)
        → any (fence_of t) (gs ++ record { session_id = t; current_epoch = 0 } ∷ []) ≡ true
    appended [] = ground arith
    appended (g ∷ gs) = ground (arith, appended gs)

epoch-append :
    (s t : ℕ) (fs : List Fence)
    → current_epoch s (fs ++ record { session_id = t; current_epoch = 0 } ∷ []) ≡ current_epoch s fs
unfolding current_epoch
epoch-append s t [] = ground arith
epoch-append s t (f ∷ fs) = ground (arith, epoch-append s t fs)

ensure-epoch :
    (s t : ℕ) (fs : List Fence) → current_epoch s (ensure_fence t fs) ≡ current_epoch s fs
unfolding ensure_fence
ensure-epoch s t fs = elim (Bool-cases (any (fence_of t) fs)) [
  | inl e ↦ rw (e, ensure_fence) refl
  | inr e ↦ rw (e, ensure_fence) (epoch-append s t fs)
]

set_epoch-own :
    (t n : ℕ) (fs : List Fence)
    → any (fence_of t) fs ≡ true
    → current_epoch t (update_where (fence_of t) (set_epoch n) fs) ≡ n
unfolding current_epoch
set_epoch-own t n [] h = absurd (ground arith)
set_epoch-own t n (f ∷ fs) h = ground (arith, set_epoch-own t n fs)

set_epoch-other :
    (s t n : ℕ) (fs : List Fence)
    → (s == t) ≡ false
    → current_epoch s (update_where (fence_of t) (set_epoch n) fs) ≡ current_epoch s fs
unfolding current_epoch
set_epoch-other s t n [] h = refl
set_epoch-other s t n (f ∷ fs) h = ground (arith, set_epoch-other s t n fs h)

any-none : (q : SyncRun → Bool) (xs : List SyncRun) → any q xs ≡ false → All (λ x. q x ≡ false) xs
any-none q [] h = tt
any-none q (x ∷ xs) h = (ground arith, any-none q xs (ground arith))

pub All-first_row :
    (P : SyncRun → Type 0) (q : SyncRun → Bool) (xs : List SyncRun) {r : SyncRun}
    → All P xs
    → first_row q xs ≡ some r
    → P r
All-first_row P q [] h e = absurd (ground arith)
All-first_row P q (x ∷ xs) {r} h e = elim (Bool-cases (q x)) [
  | inl b ↦ subst P (ground arith) h.0
  | inr b ↦ All-first_row P q xs h.1 (ground arith)
]

absent-All :
    (id : ℕ) (xs : List SyncRun) → has_key run_id id xs ≡ false → All (λ x. (x.id == id) ≡ false) xs
absent-All id [] h = tt
absent-All id (x ∷ xs) h = (ground arith, absent-All id xs (ground arith))

-- The rows of an identifier are of the session of the first.
session_of_id :
    (id : ℕ) (xs : List SyncRun) {c : SyncRun}
    → Distinct run_id xs
    → first_row (λ r. r.id == id) xs ≡ some c
    → All (λ x. (x.id == id) ≡ true → x.session_id ≡ c.session_id) xs
session_of_id id [] d e = tt
session_of_id id (x ∷ xs) {c} d e = elim (Bool-cases (x.id == id)) [
  | inl b ↦ (
    (λ k. ground arith),
    All-map _ _ xs (λ y f k. absurd (ground (arith, f)))
        (absent-All id xs (ground (arith, d.0, ==-eq x.id id b))),
  )
  | inr b ↦ ((λ k. absurd (ground arith)), session_of_id id xs {c = c} d.1 (ground arith))
]

unfoldable pub claim_fences : ℕ → List Fence → List Fence
claim_fences t fs =
    update_where (fence_of t) (set_epoch (current_epoch t (ensure_fence t fs) + 1))
      (ensure_fence t fs)

pub claim_fences-own :
    (t : ℕ) (fs : List Fence) → current_epoch t (claim_fences t fs) ≡ current_epoch t fs + 1
unfolding claim_fences
claim_fences-own t fs =
    rw
      (
        set_epoch-own t (current_epoch t (ensure_fence t fs) + 1) (ensure_fence t fs)
            (ensure-any t fs),
        ensure-epoch t t fs,
      )
      refl

claim_fences-other :
    (s t : ℕ) (fs : List Fence)
    → (s == t) ≡ false
    → current_epoch s (claim_fences t fs) ≡ current_epoch s fs
unfolding claim_fences
claim_fences-other s t fs h =
    rw
      (
        set_epoch-other s t (current_epoch t (ensure_fence t fs) + 1) (ensure_fence t fs) h,
        ensure-epoch s t fs,
      )
      refl

claimed-Fenced :
    (id t token now : ℕ) (fs : List Fence) (runs : List SyncRun) (r : SyncRun)
    → Fenced fs r
    → ((r.id == id) ≡ true → r.session_id ≡ t)
    → running_in t r ≡ false
    → Fenced (claim_fences t fs) (
        update_row
          (claimable id now runs)
          (claim_row (current_epoch t (ensure_fence t fs) + 1) token now)
          r)
claimed-Fenced id t token now fs runs r h same idle =
    if_split (Fenced (claim_fences t fs)) (claimable id now runs r)
      (λ b. (
        ground arith,
        λ run. rw (same (ground arith), claim_fences-own t fs, ensure-epoch t t fs) refl,
      ))
      (λ b. (h.0, λ run. rw (claim_fences-other r.session_id t fs (ground arith)) (h.1 run)))

zip_claimed :
    (id t token now : ℕ) (fs : List Fence) (runs xs : List SyncRun)
    → All (Fenced fs) xs
    → All (λ x. (x.id == id) ≡ true → x.session_id ≡ t) xs
    → All (λ x. running_in t x ≡ false) xs
    → All (Fenced (claim_fences t fs)) (
        update_where
          (claimable id now runs)
          (claim_row (current_epoch t (ensure_fence t fs) + 1) token now)
          xs)
zip_claimed id t token now fs runs [] h same idle = tt
zip_claimed id t token now fs runs (x ∷ xs) h same idle = (
  claimed-Fenced id t token now fs runs x h.0 same.0 idle.0,
  zip_claimed id t token now fs runs xs h.1 same.1 idle.1,
)

ensured-IsSound :
    (t : ℕ) (d : Db) → IsSound d → IsSound (record d { fences = ensure_fence t d.fences })
ensured-IsSound t d h = record {
  unique = h.unique;
  single = h.single;
  fenced =
      All-map (Fenced d.fences) _ d.runs
        (λ r k. (k.0, λ run. rw (ensure-epoch r.session_id t d.fences) (k.1 run))) h.fenced;
}

pub claim-IsSound : (id token now : ℕ) (d : Db) → IsSound d → IsSound (claim id token now d).1
unfolding claim claim_fences
claim-IsSound id token now d h = elim (Option-cases (first_row (λ r. r.id == id) d.runs)) [
  | inl e ↦ rw (e, claim) h
  | inr (c, e) ↦ elim (Option-cases (first_row (claimable id now d.runs) d.runs)) [
    | inl k ↦ rw (e, k, claim) (ensured-IsSound c.session_id d h)
    | inr (r, k) ↦ rw (e, k, claim) (started c r e k)
  ]
]
  where
    idle :
        (c r : SyncRun)
        → first_row (λ x. x.id == id) d.runs ≡ some c
        → first_row (claimable id now d.runs) d.runs ≡ some r
        → any (running_in c.session_id) d.runs ≡ false
    idle c r e k =
        let picked = first_row-selected (claimable id now d.runs) d.runs {x = r} k in
        rw
          (sym (
            All-first_row (λ x. (x.id == id) ≡ true → x.session_id ≡ c.session_id)
              (claimable id now d.runs) d.runs {r = r} (session_of_id id d.runs {c = c} h.unique e)
              k (ground arith)))
          (ground arith)

    started :
        (c r : SyncRun)
        → first_row (λ x. x.id == id) d.runs ≡ some c
        → first_row (claimable id now d.runs) d.runs ≡ some r
        → IsSound (record {
          runs =
              update_where
                (claimable id now d.runs)
                (claim_row
                  (current_epoch c.session_id (ensure_fence c.session_id d.fences) + 1)
                  token
                  now)
                d.runs;
          fences = claim_fences c.session_id d.fences;
        })
    started c r e k = record {
      unique = Distinct-update_where run_id _ _ d.runs (λ x. refl) h.unique;
      single = λ s. claim-single s id now _ token d.runs h.unique (h.single s);
      fenced =
          zip_claimed id c.session_id token now d.fences d.runs d.runs h.fenced
            (session_of_id id d.runs {c = c} h.unique e)
            (any-none (running_in c.session_id) d.runs (idle c r e k));
    }
