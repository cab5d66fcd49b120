-- ===== src/Gateway/Pending.antt =====
-- No request to reconcile a group is lost: gateway-group-intent.repository.ts over any interleaving of
-- requests and workers.
use wa_runtime.Base.{
  ℕ, ◌≤◌, ◌<◌, Bool, true, false, Option, none, some, List, [], ◌∷◌, ◌≡◌, refl, inl, inr, arith,
  ◌==◌, All, All-of, All-map, Bool-cases, Option-cases, is_null, subst, if_split,
}
use wa_runtime.Base.Sql.{
  update_where, row_count, first_row, All-update_where, row_count-update_where,
}
use wa_runtime.Gateway.RateLimit.{RateLimit, Config, FailurePolicy}
use wa_runtime.Gateway.GroupIntent.{
  Intent, IntentStatus, Db, pending, running, retry, completed, failed, of_group, schedule,
  request_again, claim, claimable, claim_row, renew_lease, owned, complete, settle_row,
  skip_missing, fail, fail_row, tokened, after_failure, expired, recover_row, recover_expired,
}

module _ (cfg : Config) where
  pub data Step (d : Db) : Db → Type 0 where
    requested : (session group reason now : ℕ) → Step d (schedule cfg session group reason now d).1
    claimed : (session group token now : ℕ) → Step d (claim cfg session group token now d).1
    renewed : (session group token now : ℕ) → Step d (renew_lease session group token now d).1
    finished :
        (session group token revision now : ℕ)
        → Step d (complete cfg session group token revision now d).1
    skipped :
        (not_found session group token revision now : ℕ)
        → Step d (skip_missing not_found session group token revision now d).1
    attempt_failed :
        (session group token revision : ℕ) (policy : FailurePolicy) (backoff cool_ms now : ℕ)
        → Step d (fail cfg session group token revision policy backoff cool_ms now d).1
    recovered : (lease_code now : ℕ) → Step d (recover_expired cfg lease_code now d).1
    paced : (limits : List RateLimit) → Step d (record d { limits = limits })

  pub data Reach (d : Db) : Db → Type 0 where
    here : Reach d d
    next : {e f : Db} → Reach d e → Step e f → Reach d f

-- A claim's revision is one that was requested.
abbrev ClaimedFits : Option ℕ → ℕ → Type 0
ClaimedFits none r = ⊥
ClaimedFits (some v) r = v ≤ r

-- The number of attempts allowed, the revisions requested, claimed and completed, the attempts made
-- and whether there is no lease, for each status.
abbrev pub Fits : IntentStatus → ℕ → ℕ → Option ℕ → ℕ → ℕ → Bool → Type 0
Fits pending most r c d n free = (d < r) × (n ≡ 0) × (c ≡ none) × (free ≡ true)
Fits running most r c d n free = (d < r) × (1 ≤ n) × (n ≤ most) × ClaimedFits c r × (free ≡ false)
Fits retry most r c d n free = (d < r) × (n < most) × (c ≡ none) × (free ≡ true)
Fits completed most r c d n free = (d ≡ r) × (c ≡ none) × (free ≡ true)
Fits failed most r c d n free = (d < r) × (c ≡ none) × (free ≡ true)

pub record Tracks (most : ℕ) (i : Intent) : Type 0 where
  pub state :
      Fits i.status most i.requested_revision i.claimed_revision i.completed_revision
        i.attempt_count
        (is_null i.lease_token)

abbrev pub Single : List Intent → Type 0
Single is = (session group : ℕ) → row_count (of_group session group) is ≤ 1

pub record IsSound (most : ℕ) (d : Db) : Type 0 where
  pub rows : All (Tracks most) d.intents
  pub single : Single d.intents

pub update-Tracks :
    (most : ℕ) (p : Intent → Bool) (f : Intent → Intent) (is : List Intent)
    → ((i : Intent) → p i ≡ true → Tracks most i → Tracks most (f i))
    → All (Tracks most) is
    → All (Tracks most) (update_where p f is)
update-Tracks most p f is keep h = All-update_where (Tracks most) p f is (All-of _ is keep) h

pub update-Single :
    (p : Intent → Bool) (f : Intent → Intent) (is : List Intent)
    → ((s g : ℕ) (i : Intent) → of_group s g (f i) ≡ of_group s g i)
    → Single is
    → Single (update_where p f is)
update-Single p f is same h s g =
    omega (arith, h s g, row_count-update_where (of_group s g) p f is (same s g))

pub request-Tracks :
    (cfg : Config) (reason now : ℕ) (i : Intent)
    → Tracks cfg.item_max_attempts i
    → Tracks cfg.item_max_attempts (request_again cfg reason now i)
request-Tracks cfg reason now i h = ground arith

pub claim-Tracks :
    (cfg : Config) (session group token now : ℕ) (i : Intent)
    → claimable cfg session group now i ≡ true
    → Tracks cfg.item_max_attempts i
    → Tracks cfg.item_max_attempts (claim_row token now i)
claim-Tracks cfg session group token now i sel h = ground arith

settle-Tracks :
    (most : ℕ) (code : Option ℕ) (session group token revision now : ℕ) (i : Intent)
    → owned session group token revision now i ≡ true
    → Tracks most i
    → Tracks most (settle_row code revision now i)
settle-Tracks most code session group token revision now i sel h = ground arith

pub recover-Tracks :
    (cfg : Config) (code now : ℕ) (i : Intent)
    → expired now i ≡ true
    → Tracks cfg.item_max_attempts i
    → Tracks cfg.item_max_attempts (recover_row cfg code now i)
recover-Tracks cfg code now i sel h = ground arith

fail-Tracks :
    (cfg : Config) (session group token revision : ℕ) (policy : FailurePolicy) (backoff now : ℕ)
    (i : Intent)
    → tokened session group token revision i ≡ true
    → Tracks cfg.item_max_attempts i
    → Tracks cfg.item_max_attempts
        (fail_row (after_failure cfg policy revision i) policy.code backoff now i)
fail-Tracks cfg session group token revision policy backoff now i sel h = ground arith

none_of : (q : Intent → Bool) (is : List Intent) → row_count q is ≡ 0 → All (λ i. q i ≡ false) is
none_of q [] h = tt
none_of q (i ∷ is) h = (ground arith, none_of q is (ground arith))

first_row-none :
    (q p : Intent → Bool) (is : List Intent)
    → ((i : Intent) → p i ≡ true → q i ≡ true)
    → row_count q is ≡ 0
    → first_row p is ≡ none
first_row-none q p [] narrow h = refl
first_row-none q p (i ∷ is) narrow h = ground (arith, narrow i, first_row-none q p is narrow)

-- Where q selects one row at most, the row that the narrower p finds is that one.
same_row :
    (q p : Intent → Bool) (is : List Intent) {i : Intent}
    → ((j : Intent) → p j ≡ true → q j ≡ true)
    → row_count q is ≤ 1
    → first_row p is ≡ some i
    → All (λ j. q j ≡ true → j ≡ i) is
same_row q p [] narrow h e = tt
same_row q p (j ∷ is) {i} narrow h e = elim (Bool-cases (q j)) [
  | inl b ↦
      let none_left : row_count q is ≡ 0 = ground arith in
      (
        (λ k. ground (arith, first_row-none q p is narrow none_left)),
        All-map _ _ is (λ x f k. absurd (ground arith)) (none_of q is none_left),
      )
  | inr b ↦ (
    (λ k. absurd (ground arith)),
    same_row q p is {i = i} narrow (ground arith) (ground (arith, narrow j)),
  )
]

pub fail-Sound :
    (cfg : Config) (session group token revision : ℕ) (policy : FailurePolicy)
    (backoff cool_ms now : ℕ) (d : Db)
    → IsSound cfg.item_max_attempts d
    → IsSound cfg.item_max_attempts
        (fail cfg session group token revision policy backoff cool_ms now d).1
unfolding fail
fail-Sound cfg session group token revision policy backoff cool_ms now d h =
    elim (Option-cases (first_row (owned session group token revision now) d.intents)) [
      | inl e ↦ rw (e, fail) h
      | inr (i, e) ↦
          rw (e, fail)
            (record {
              rows =
                  All-update_where (Tracks cfg.item_max_attempts)
                    (tokened session group token revision)
                    (fail_row (after_failure cfg policy revision i) policy.code backoff now)
                    d.intents
                    (All-map _ _ d.intents (λ j same sel k. found i j (same (ground arith)) sel k)
                      (same_row (of_group session group) (owned session group token revision now)
                        d.intents {i = i} (λ j sel. ground arith) (h.single session group) e))
                    h.rows;
              single = update-Single _ _ d.intents (λ s g j. refl) h.single;
            })
    ]
  where
    found :
        (i j : Intent)
        → j ≡ i
        → tokened session group token revision j ≡ true
        → Tracks cfg.item_max_attempts j
        → Tracks cfg.item_max_attempts
            (fail_row (after_failure cfg policy revision i) policy.code backoff now j)
    found i j same sel k =
        subst
          (λ x.
            Tracks cfg.item_max_attempts
              (fail_row (after_failure cfg policy revision x) policy.code backoff now j))
          same (fail-Tracks cfg session group token revision policy backoff now j sel k)

pub complete-Sound :
    (cfg : Config) (session group token revision now : ℕ) (d : Db)
    → IsSound cfg.item_max_attempts d
    → IsSound cfg.item_max_attempts (complete cfg session group token revision now d).1
unfolding complete
complete-Sound cfg session group token revision now d h =
    elim (Option-cases (first_row (owned session group token revision now) d.intents)) [
      | inl e ↦ rw (e, complete) h
      | inr (i, e) ↦
          rw (e, complete)
            (record {
              rows =
                  update-Tracks cfg.item_max_attempts _ (settle_row none revision now) d.intents
                    (settle-Tracks cfg.item_max_attempts none session group token revision now)
                    h.rows;
              single = update-Single _ _ d.intents (λ s g j. refl) h.single;
            })
    ]

pub skip-Sound :
    (most not_found session group token revision now : ℕ) (d : Db)
    → IsSound most d
    → IsSound most (skip_missing not_found session group token revision now d).1
unfolding skip_missing
skip-Sound most not_found session group token revision now d h =
    if_split Kept (row_count (owned session group token revision now) d.intents == 1)
      (λ b. record { rows = rows; single = single }) (λ b. record { rows = rows; single = single })
  where
    Kept : Bool × Db → Type 0
    Kept r = IsSound most r.1

    rows : All (Tracks most) (
        update_where
          (owned session group token revision now)
          (settle_row (some not_found) revision now)
          d.intents)
    rows =
        update-Tracks most (owned session group token revision now)
          (settle_row (some not_found) revision now) d.intents
          (settle-Tracks most (some not_found) session group token revision now) h.rows

    single : Single (
        update_where
          (owned session group token revision now)
          (settle_row (some not_found) revision now)
          d.intents)
    single = update-Single _ _ d.intents (λ s g j. refl) h.single
