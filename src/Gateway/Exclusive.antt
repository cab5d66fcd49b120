-- ===== src/Gateway/Exclusive.antt =====
-- Who may write under src/modules/gateway/gateway-write-fence.repository.ts: one run of a session at a
-- time, and never an earlier claim once a later one was granted.
use wa_runtime.Base.{
  ℕ, ◌+◌, ◌≤◌, ◌<◌, true, false, some, List, [], ◌∷◌, ◌++◌, ◌≡◌, refl, inl, inr, arith, ◌==◌, ==-eq,
  All, All-of, All-append, any, Bool-cases, Option-cases, sym,
}
use wa_runtime.Base.Sql.{update_where, row_count, first_row, All-update_where}
use wa_runtime.Gateway.SyncRun.{
  SyncRun, SyncMode, Fence, Db, ClaimedRun, WriteFence, running_in, fence_of, current_epoch,
  ensure_fence, set_epoch, active_run, create, recover_expired, lease_expired, give_back, claim,
  claimable, renew_lease, owned, renew_row, complete, complete_row, fail_attempt, fail_row,
  defer_discovery, tokened, defer_row, finish_discovery, discovered_row, refresh_progress,
  refreshed_row, assert_sync_write_ownership, at_epoch,
}
use wa_runtime.Gateway.Fencing.{
  Step, Reach, created, recovered, claimed, renewed, finished, attempt_failed, deferred, discovered,
  refreshed, here, next, Fenced, IsSound, ensure-any, update-IsSound, create-IsSound, claim-IsSound,
}

Step-IsSound : {d e : Db} → Step d e → IsSound d → IsSound e
unfolding recover_expired renew_lease complete fail_attempt defer_discovery finish_discovery
    refresh_progress
Step-IsSound {d} (created session mode new_id now fresh) h =
    create-IsSound session mode new_id now d fresh h
Step-IsSound {d} (recovered now) h =
    update-IsSound (lease_expired now) (give_back _ now now) d (λ r. (refl, refl))
      (λ r sel run. ground arith) (λ r sel. (omega arith, λ run. absurd (ground arith))) h
Step-IsSound {d} (claimed id token now) h = claim-IsSound id token now d h
Step-IsSound {d} (renewed id token now) h =
    update-IsSound (owned id token now) (renew_row now) d (λ r. (refl, refl)) (λ r sel run. run)
      (λ r sel. (omega arith, λ run. refl)) h
Step-IsSound {d} (finished id token groups members now) h =
    update-IsSound (owned id token now) (complete_row groups members now) d (λ r. (refl, refl))
      (λ r sel run. absurd (ground arith)) (λ r sel. (omega arith, λ run. refl)) h
Step-IsSound {d} (attempt_failed id token groups members error now) h =
    update-IsSound (owned id token now) (fail_row groups members error now) d (λ r. (refl, refl))
      (λ r sel run. absurd (ground arith)) (λ r sel. (omega arith, λ run. absurd (ground arith))) h
Step-IsSound {d} (deferred id token now) h =
    update-IsSound (tokened id token) (defer_row now) d (λ r. (refl, refl))
      (λ r sel run. absurd (ground arith)) (λ r sel. (omega arith, λ run. absurd (ground arith))) h
Step-IsSound {d} (discovered id token found selected done now) h =
    update-IsSound (tokened id token) (discovered_row found selected done now) d (λ r. (refl, refl))
      (λ r sel run. ground arith) (λ r sel. (omega arith, λ run. refl)) h
Step-IsSound {d} (refreshed id a failures now) h =
    update-IsSound (λ r. r.id == id) (refreshed_row a failures now) d (λ r. (refl, refl))
      (λ r sel run. ground arith) (λ r sel. (omega arith, λ run. refl)) h

abbrev pub empty : Db
empty = record { runs = []; fences = [] }

Reach-IsSound : {d e : Db} → Reach d e → IsSound d → IsSound e
Reach-IsSound here h = h
Reach-IsSound (next r st) h = Step-IsSound st (Reach-IsSound r h)

from_empty : {d : Db} → Reach empty d → IsSound d
from_empty r = Reach-IsSound r (record { unique = tt; single = λ s. omega arith; fenced = tt })

-- From empty tables, over any interleaving of requests, claims, recoveries, renewals, completions,
-- failures and discoveries, every run is counted at most three attempts, a RUNNING run carries its
-- session's current epoch, and no session has two RUNNING runs.
pub Reach-single :
    {d : Db}
    → Reach empty d
    → All (Fenced d.fences) d.runs × ((session : ℕ) → row_count (running_in session) d.runs ≤ 1)
Reach-single r = let h = from_empty r in (h.fenced, h.single)

-- Every fence of the session is at epoch n or later, and there is one.
abbrev Past : ℕ → ℕ → List Fence → Type 0
Past n s fs =
    (any (fence_of s) fs ≡ true) × All (λ f. (f.session_id == s) ≡ true → n ≤ f.current_epoch) fs

any-append :
    (s : ℕ) (fs gs : List Fence) → any (fence_of s) fs ≡ true → any (fence_of s) (fs ++ gs) ≡ true
any-append s [] gs h = absurd (ground arith)
any-append s (f ∷ fs) gs h = ground (arith, any-append s fs gs)

ensure-Past : (n s t : ℕ) (fs : List Fence) → Past n s fs → Past n s (ensure_fence t fs)
unfolding ensure_fence
ensure-Past n s t fs h = elim (Bool-cases (any (fence_of t) fs)) [
  | inl e ↦ rw (e, ensure_fence) h
  | inr e ↦
      rw (e, ensure_fence)
        (any-append s fs _ h.0, All-append _ fs _ h.1 ((λ k. absurd (clash k e)), tt))
]
  where
    clash : (t == s) ≡ true → any (fence_of t) fs ≡ false → ⊥
    clash k e = ground (arith, h.0, ==-eq t s k)

Past-epoch : (n s : ℕ) (fs : List Fence) → Past n s fs → n ≤ current_epoch s fs
unfolding current_epoch
Past-epoch n s [] h = absurd (ground arith)
Past-epoch n s (f ∷ fs) h = elim (Bool-cases (f.session_id == s)) [
  | inl e ↦ ground (arith, h.1.0 e)
  | inr e ↦ ground (arith, Past-epoch n s fs (ground arith, h.1.1))
]

any-set_epoch :
    (s t m : ℕ) (fs : List Fence)
    → any (fence_of s) (update_where (fence_of t) (set_epoch m) fs) ≡ any (fence_of s) fs
any-set_epoch s t m [] = refl
any-set_epoch s t m (f ∷ fs) = ground (arith, any-set_epoch s t m fs)

set-Past :
    (n s t : ℕ) (fs : List Fence)
    → Past n s fs
    → Past n s (update_where (fence_of t) (set_epoch (current_epoch t fs + 1)) fs)
set-Past n s t fs h = (
  rw (any-set_epoch s t (current_epoch t fs + 1) fs) h.0,
  All-update_where _ (fence_of t) (set_epoch (current_epoch t fs + 1)) fs
      (All-of _ fs (λ f own k same.
        rw (sym (==-eq f.session_id t own), ==-eq f.session_id s same)
          (omega (arith, Past-epoch n s fs h))))
      h.1,
)

claim-Past :
    (n s id token now : ℕ) (d : Db) → Past n s d.fences → Past n s (claim id token now d).1.fences
unfolding claim
claim-Past n s id token now d h = elim (Option-cases (first_row (λ r. r.id == id) d.runs)) [
  | inl e ↦ rw (e, claim) h
  | inr (c, e) ↦ elim (Option-cases (first_row (claimable id now d.runs) d.runs)) [
    | inl k ↦ rw (e, k, claim) (ensure-Past n s c.session_id d.fences h)
    | inr (r, k) ↦
        rw (e, k, claim)
          (set-Past n s c.session_id (ensure_fence c.session_id d.fences)
            (ensure-Past n s c.session_id d.fences h))
  ]
]

create-fences :
    (session : ℕ) (mode : SyncMode) (new_id now : ℕ) (d : Db)
    → (create session mode new_id now d).1.fences ≡ d.fences
unfolding create
create-fences session mode new_id now d = elim (Option-cases (active_run session d.runs)) [
  | inl e ↦ rw (e, create) refl
  | inr (r, e) ↦ rw (e, create) refl
]

Reach-Past : {d e : Db} (n s : ℕ) → Reach d e → Past n s d.fences → Past n s e.fences
unfolding recover_expired renew_lease complete fail_attempt defer_discovery finish_discovery
    refresh_progress
Reach-Past n s here h = h
Reach-Past n s (next {e = m} r (created session mode new_id now fresh)) h =
    rw (create-fences session mode new_id now m) (Reach-Past n s r h)
Reach-Past n s (next r (recovered now)) h = Reach-Past n s r h
Reach-Past n s (next {e = m} r (claimed id token now)) h =
    claim-Past n s id token now m (Reach-Past n s r h)
Reach-Past n s (next r (renewed id token now)) h = Reach-Past n s r h
Reach-Past n s (next r (finished id token groups members now)) h = Reach-Past n s r h
Reach-Past n s (next r (attempt_failed id token groups members error now)) h = Reach-Past n s r h
Reach-Past n s (next r (deferred id token now)) h = Reach-Past n s r h
Reach-Past n s (next r (discovered id token found selected done now)) h = Reach-Past n s r h
Reach-Past n s (next r (refreshed id a failures now)) h = Reach-Past n s r h

granted-Past :
    (id token now : ℕ) (d : Db) (c : ClaimedRun)
    → (claim id token now d).0 ≡ some c
    → Past c.epoch c.session (claim id token now d).1.fences
unfolding claim
granted-Past id token now d c h = elim (Option-cases (first_row (λ r. r.id == id) d.runs)) [
  | inl e ↦ absurd (ground arith)
  | inr (x, e) ↦ elim (Option-cases (first_row (claimable id now d.runs) d.runs)) [
    | inl k ↦ absurd (ground arith)
    | inr (r, k) ↦
        rw (e, k, claim)
          (rw (sym (session_is x r e k), sym (epoch_is x r e k))
            (fresh x.session_id (ensure_fence x.session_id d.fences)
              (ensure-any x.session_id d.fences)))
  ]
]
  where
    session_is :
        (x r : SyncRun)
        → first_row (λ y. y.id == id) d.runs ≡ some x
        → first_row (claimable id now d.runs) d.runs ≡ some r
        → x.session_id ≡ c.session
    session_is x r e k = ground arith

    epoch_is :
        (x r : SyncRun)
        → first_row (λ y. y.id == id) d.runs ≡ some x
        → first_row (claimable id now d.runs) d.runs ≡ some r
        → current_epoch x.session_id (ensure_fence x.session_id d.fences) + 1 ≡ c.epoch
    epoch_is x r e k = ground arith

    fresh :
        (t : ℕ) (fs : List Fence)
        → any (fence_of t) fs ≡ true
        → Past
            (current_epoch t fs + 1)
            t
            (update_where (fence_of t) (set_epoch (current_epoch t fs + 1)) fs)
    fresh t fs b = (rw (any-set_epoch t t (current_epoch t fs + 1) fs) b, raised fs)
      where
        raised :
            (gs : List Fence)
            → All
                (λ f. (f.session_id == t) ≡ true → current_epoch t fs + 1 ≤ f.current_epoch)
                (update_where (fence_of t) (set_epoch (current_epoch t fs + 1)) gs)
        raised [] = tt
        raised (g ∷ gs) = ((λ k. ground arith), raised gs)

past-refused :
    (n s epoch : ℕ) (fs : List Fence)
    → epoch < n
    → All (λ f. (f.session_id == s) ≡ true → n ≤ f.current_epoch) fs
    → row_count (at_epoch s epoch) fs ≡ 0
past-refused n s epoch [] old h = refl
past-refused n s epoch (f ∷ fs) old h =
    ground (arith, h.0, ==-eq f.current_epoch epoch, past-refused n s epoch fs old h.1)

-- Once a claim of a run is granted, and whatever happens after it, no write under an earlier epoch of
-- that session is admitted, at any time.
pub granted-fences_off :
    (id token now : ℕ) (d : Db) (c : ClaimedRun) {e : Db}
    → (claim id token now d).0 ≡ some c
    → Reach (claim id token now d).1 e
    → (w : WriteFence) (later : ℕ) → w.epoch < c.epoch
    → assert_sync_write_ownership c.session w later e ≡ false
unfolding assert_sync_write_ownership
granted-fences_off id token now d c {e} granted r w later old =
    let past = Reach-Past c.epoch c.session r (granted-Past id token now d c granted) in
    ground (arith, past-refused c.epoch c.session w.epoch e.fences old past.1)
