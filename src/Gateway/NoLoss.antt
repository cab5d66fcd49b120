-- ===== src/Gateway/NoLoss.antt =====
-- The lasting promise of src/modules/gateway/gateway-group-intent.repository.ts about every intent.
use wa_runtime.Base.{
  ℕ, Bool, false, ◌&&◌, List, [], ◌∷◌, ◌++◌, ◌≡◌, refl, inl, inr, arith, ◌==◌, ==-eq, All,
  All-append, any, Bool-cases, Option-cases, if_split, sym, &&-left, &&-right,
}
use wa_runtime.Base.Sql.{row_count, first_row, row_count-append_one}
use wa_runtime.Gateway.RateLimit.{Config, ensure, ready_and_rate, renew}
use wa_runtime.Gateway.GroupIntent.{
  Intent, Db, of_group, schedule, new_intent, request_again, claim, claimable, claim_row,
  renew_lease, leased, extend_row, expired, recover_row, recover_expired,
}
use wa_runtime.Gateway.Pending.{
  Step, Reach, here, next, requested, claimed, renewed, finished, skipped, attempt_failed,
  recovered, paced, Tracks, IsSound, Single, update-Tracks, update-Single, request-Tracks,
  claim-Tracks, recover-Tracks, fail-Sound, complete-Sound, skip-Sound,
}

absent :
    (s g : ℕ) (is : List Intent) → any (of_group s g) is ≡ false → row_count (of_group s g) is ≡ 0
absent s g [] h = refl
absent s g (i ∷ is) h = ground (arith, absent s g is)

append-Single :
    (cfg : Config) (session group reason now : ℕ) (is : List Intent)
    → any (of_group session group) is ≡ false
    → Single is
    → Single (is ++ new_intent cfg session group reason now ∷ [])
append-Single cfg session group reason now is fresh h s g =
    elim (Bool-cases (session == s && group == g)) [
      | inl e ↦
          rw
            (
              sym (==-eq session s (&&-left (session == s) (group == g) e)),
              sym (==-eq group g (&&-right (session == s) (group == g) e)),
            )
            (ground (
              arith,
              absent session group is fresh,
              row_count-append_one (of_group session group) is
                  (new_intent cfg session group reason now),
            ))
      | inr e ↦ ground (
        arith,
        h s g,
        row_count-append_one (of_group s g) is (new_intent cfg session group reason now),
      )
    ]

schedule-Sound :
    (cfg : Config) (session group reason now : ℕ) (d : Db)
    → IsSound cfg.item_max_attempts d
    → IsSound cfg.item_max_attempts (schedule cfg session group reason now d).1
unfolding schedule
schedule-Sound cfg session group reason now d h =
    elim (Bool-cases (any (of_group session group) d.intents)) [
      | inl e ↦
          rw (e, schedule)
            (record {
              rows =
                  update-Tracks cfg.item_max_attempts _ (request_again cfg reason now) d.intents
                    (λ i sel k. request-Tracks cfg reason now i k) h.rows;
              single = update-Single _ _ d.intents (λ s g i. refl) h.single;
            })
      | inr e ↦
          rw (e, schedule)
            (record {
              rows =
                  All-append (Tracks cfg.item_max_attempts) d.intents _ h.rows
                    (record { state = ground arith }, tt);
              single = append-Single cfg session group reason now d.intents e h.single;
            })
    ]

claim-Sound :
    (cfg : Config) (session group token now : ℕ) (d : Db)
    → IsSound cfg.item_max_attempts d
    → IsSound cfg.item_max_attempts (claim cfg session group token now d).1
unfolding claim
claim-Sound cfg session group token now d h =
    elim (Option-cases (first_row (of_group session group) d.intents)) [
      | inl e ↦ rw (e, claim) h
      | inr (i, e) ↦
          elim (Option-cases (ready_and_rate cfg session now (ensure cfg session now d.limits))) [
            | inl r ↦ rw (e, r, claim) (record { rows = h.rows; single = h.single })
            | inr (rate, r) ↦
                elim (Option-cases (first_row (claimable cfg session group now) d.intents)) [
                  | inl k ↦ rw (e, r, k, claim) (record { rows = h.rows; single = h.single })
                  | inr (j, k) ↦
                      rw (e, r, k, claim)
                        (record {
                          rows =
                              update-Tracks cfg.item_max_attempts _ (claim_row token now) d.intents
                                (claim-Tracks cfg session group token now) h.rows;
                          single = update-Single _ _ d.intents (λ s g x. refl) h.single;
                        })
                ]
          ]
    ]

renew-Sound :
    (most session group token now : ℕ) (d : Db)
    → IsSound most d
    → IsSound most (renew_lease session group token now d).1
unfolding renew_lease
renew-Sound most session group token now d h =
    if_split Kept
      (row_count (leased session group token now) d.intents == 1
        && (renew session token now d.limits).0)
      (λ b. record {
        rows =
            update-Tracks most (leased session group token now) (extend_row now) d.intents
              (λ i sel k. record { state = k.state }) h.rows;
        single = update-Single _ _ d.intents (λ s g i. refl) h.single;
      })
      (λ b. h)
  where
    Kept : Bool × Db → Type 0
    Kept r = IsSound most r.1

Step-Sound :
    {cfg : Config} {d e : Db}
    → Step cfg d e
    → IsSound cfg.item_max_attempts d
    → IsSound cfg.item_max_attempts e
unfolding recover_expired
Step-Sound {cfg} {d} (requested session group reason now) h =
    schedule-Sound cfg session group reason now d h
Step-Sound {cfg} {d} (claimed session group token now) h =
    claim-Sound cfg session group token now d h
Step-Sound {cfg} {d} (renewed session group token now) h =
    renew-Sound cfg.item_max_attempts session group token now d h
Step-Sound {cfg} {d} (finished session group token revision now) h =
    complete-Sound cfg session group token revision now d h
Step-Sound {cfg} {d} (skipped not_found session group token revision now) h =
    skip-Sound cfg.item_max_attempts not_found session group token revision now d h
Step-Sound {cfg} {d} (attempt_failed session group token revision policy backoff cool_ms now) h =
    fail-Sound cfg session group token revision policy backoff cool_ms now d h
Step-Sound {cfg} {d} (recovered lease_code now) h = record {
  rows =
      update-Tracks cfg.item_max_attempts (expired now) (recover_row cfg lease_code now) d.intents
        (recover-Tracks cfg lease_code now) h.rows;
  single =
      update-Single (expired now) (recover_row cfg lease_code now) d.intents (λ s g i. refl)
        h.single;
}
Step-Sound (paced limits) h = record { rows = h.rows; single = h.single }

abbrev pub empty : Db
empty = record { intents = []; limits = [] }

-- From empty tables, over any interleaving of requests, claims, renewals, completions, failures and
-- recoveries: an intent is COMPLETED only at the latest revision that was requested, and in every
-- other status a revision is still outstanding; a PENDING intent has no attempt counted and a RETRY
-- intent fewer than the limit; a RUNNING intent holds a token and works on a revision that was
-- requested.
pub Reach-Tracks :
    {cfg : Config} {d : Db} → Reach cfg empty d → All (Tracks cfg.item_max_attempts) d.intents
Reach-Tracks {cfg} r = (sound r).rows
  where
    sound : {e : Db} → Reach cfg empty e → IsSound cfg.item_max_attempts e
    sound here = record { rows = tt; single = λ s g. omega arith }
    sound (next s st) = Step-Sound st (sound s)
