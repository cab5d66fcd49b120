-- ===== src/Gateway/Running.antt =====
-- Which runs are RUNNING: counts over the statements of src/modules/gateway that write sync_runs.
use wa_runtime.Base.{
  ℕ, ◌+◌, ◌≤◌, Bool, true, false, ◌&&◌, List, [], ◌∷◌, ◌++◌, ◌≡◌, refl, inl, inr, arith, ◌==◌,
  ==-eq, any, Bool-cases,
}
use wa_runtime.Base.Sql.{update_where, row_count, row_count-append_one}
use wa_runtime.Base.Keys.{has_key, Distinct}
use wa_runtime.Gateway.SyncRun.{
  SyncRun, SyncMode, run_id, running_in, claimable, claim_row, new_run,
}

-- An UPDATE that makes no row satisfy q that did not before.
pub row_count-shrinks :
    (q p : SyncRun → Bool) (f : SyncRun → SyncRun) (xs : List SyncRun)
    → ((r : SyncRun) → p r ≡ true → q (f r) ≡ true → q r ≡ true)
    → row_count q (update_where p f xs) ≤ row_count q xs
row_count-shrinks q p f [] keep = omega arith
row_count-shrinks q p f (x ∷ xs) keep = ground (arith, keep x, row_count-shrinks q p f xs keep)

row_count-any : (q : SyncRun → Bool) (xs : List SyncRun) → any q xs ≡ false → row_count q xs ≡ 0
row_count-any q [] h = refl
row_count-any q (x ∷ xs) h = ground (arith, row_count-any q xs)

row_count-absent :
    (id : ℕ) (q : SyncRun → Bool) (xs : List SyncRun)
    → ((r : SyncRun) → q r ≡ true → (r.id == id) ≡ true)
    → has_key run_id id xs ≡ false
    → row_count q xs ≡ 0
row_count-absent id q [] named h = refl
row_count-absent id q (x ∷ xs) named h = ground (arith, named x, row_count-absent id q xs named)

pub row_count-by_id :
    (id : ℕ) (q : SyncRun → Bool) (xs : List SyncRun)
    → ((r : SyncRun) → q r ≡ true → (r.id == id) ≡ true)
    → Distinct run_id xs
    → row_count q xs ≤ 1
row_count-by_id id q [] named d = omega arith
row_count-by_id id q (x ∷ xs) named d = elim (Bool-cases (x.id == id)) [
  | inl e ↦ ground (arith, row_count-absent id q xs named (ground (arith, d.0, ==-eq x.id id e)))
  | inr e ↦ ground (arith, named x, row_count-by_id id q xs named d.1)
]

-- A claim adds at most the rows that it selects.
claimed_in : ℕ → ℕ → ℕ → List SyncRun → SyncRun → Bool
claimed_in session id now runs r = claimable id now runs r && r.session_id == session

row_count-claimed :
    (session id now epoch token : ℕ) (runs xs : List SyncRun)
    → row_count
        (running_in session)
        (update_where (claimable id now runs) (claim_row epoch token now) xs)
      ≤ row_count (running_in session) xs + row_count (claimed_in session id now runs) xs
unfolding claimed_in
row_count-claimed session id now epoch token runs [] = omega arith
row_count-claimed session id now epoch token runs (x ∷ xs) =
    ground (arith, row_count-claimed session id now epoch token runs xs)

none_running :
    (session id now : ℕ) (runs xs : List SyncRun)
    → any (running_in session) runs ≡ true
    → row_count (claimed_in session id now runs) xs ≡ 0
unfolding claimed_in
none_running session id now runs [] h = refl
none_running session id now runs (x ∷ xs) h = elim (Bool-cases (x.session_id == session)) [
  | inl e ↦
      let same = ==-eq x.session_id session e in
      rw same (ground (arith, none_running session id now runs xs h))
  | inr e ↦ ground (arith, none_running session id now runs xs h)
]

pub claim-single :
    (session id now epoch token : ℕ) (runs : List SyncRun)
    → Distinct run_id runs
    → row_count (running_in session) runs ≤ 1
    → row_count
        (running_in session)
        (update_where (claimable id now runs) (claim_row epoch token now) runs)
      ≤ 1
unfolding claimed_in
claim-single session id now epoch token runs d h =
    elim (Bool-cases (any (running_in session) runs)) [
      | inl e ↦ omega (
        arith,
        row_count-claimed session id now epoch token runs runs,
        none_running session id now runs runs e,
      )
      | inr e ↦ omega (
        arith,
        row_count-claimed session id now epoch token runs runs,
        row_count-any (running_in session) runs e,
        row_count-by_id id (claimed_in session id now runs) runs (λ r sel. ground arith) d,
      )
    ]

pub new_run-single :
    (session new_session new_id now : ℕ) (mode : SyncMode) (runs : List SyncRun)
    → row_count (running_in session) (runs ++ new_run new_session mode new_id now ∷ [])
      ≡ row_count (running_in session) runs
new_run-single session new_session new_id now mode runs =
    ground
      (arith, row_count-append_one (running_in session) runs (new_run new_session mode new_id now))
