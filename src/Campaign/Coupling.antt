-- ===== src/Campaign/Coupling.antt =====
-- How a campaign's status fits its LIVE run, the relation that auditLifecycle of
-- src/modules/campaigns/campaign-run.repository.ts counts the breaches of, and why a statement on
-- campaign_runs with its statement on campaigns keeps it.
use wa_runtime.Base.{
  ℕ, Bool, true, false, ◌&&◌, some, List, [], ◌∷◌, ◌++◌, map, ◌≡◌, refl, ◌⊎◌, inl, inr, arith, ◌==◌,
  ==-refl, ==-eq, if◌then◌else◌, filter, any, member, All, All-map, Bool-cases, subst,
}
use wa_runtime.Base.Sql.{update_where, update_row, first_row, first_row-selected}
use mathlib.Core.List.{append-nil}
use wa_runtime.Base.Keys.{Distinct, has_key}
use wa_runtime.Campaign.Tables.{
  Campaign, CampaignRun, CampaignStatus, RunStatus, draft, active, paused, archived, preparing,
  blocked, scheduled, running, run_paused, completed, partial_failed, cancelled, failed,
  is_live_run, set_campaigns, campaign_ids, first_only, returning, in_status, with_status, run_id,
  by_run_id,
}
use wa_runtime.Campaign.Preparation.{live_runs}

-- A campaign's status beside the status of its LIVE run.
abbrev pub fits : CampaignStatus → RunStatus → Bool
fits active preparing = true
fits active scheduled = true
fits active running = true
fits active blocked = true
fits active run_paused = true
fits paused run_paused = true
fits paused blocked = true
fits archived completed = true
fits archived partial_failed = true
fits archived cancelled = true
fits archived failed = true
fits _ _ = false

-- A campaign with no LIVE run is DRAFT or ARCHIVED; one with a LIVE run has only that one.
abbrev pub Coupled : CampaignStatus → List CampaignRun → Type 0
Coupled s [] = (s ≡ draft) ⊎ (s ≡ archived)
Coupled s (r ∷ []) = fits s r.status ≡ true
Coupled s (r ∷ q ∷ rs) = ⊥

abbrev pub AllCoupled : List Campaign → List CampaignRun → Type 0
AllCoupled cs rs = All (λ (c : Campaign). Coupled c.status (live_runs c.id rs)) cs

abbrev pub KeepsOwner : (CampaignRun → CampaignRun) → Type 0
KeepsOwner f =
    (r : CampaignRun)
    → ((f r).id ≡ r.id) × ((f r).campaign_id ≡ r.campaign_id) × ((f r).mode ≡ r.mode)

live_runs-update_where :
    (p : CampaignRun → Bool) (f : CampaignRun → CampaignRun) (k : ℕ) (rs : List CampaignRun)
    → KeepsOwner f
    → live_runs k (update_where p f rs) ≡ map (update_row p f) (live_runs k rs)
live_runs-update_where p f k [] keep = refl
live_runs-update_where p f k (r ∷ rs) keep =
    ground (arith, keep r, live_runs-update_where p f k rs keep)

-- The identifiers that go from campaign_runs to the statement on campaigns.
member-campaign_ids :
    (p q : CampaignRun → Bool) (f : CampaignRun → CampaignRun) (k : ℕ) (rs : List CampaignRun)
    → KeepsOwner f
    → ((r : CampaignRun) → q r ≡ true → is_live_run r ≡ true)
    → member k (campaign_ids q (returning p f rs)) ≡ any (λ r. p r && q (f r)) (live_runs k rs)
member-campaign_ids p q f k [] keep live_only = refl
member-campaign_ids p q f k (r ∷ rs) keep live_only =
    ground (arith, keep r, live_only (f r), member-campaign_ids p q f k rs keep live_only)

-- What the two statements together do to one campaign and its LIVE run.
abbrev pub next_status :
    Bool → (CampaignStatus → Bool) → CampaignStatus → CampaignStatus → CampaignStatus
next_status hit from to s = if hit && from s then to else s

-- The statements keep the coupling if they do so on each selected LIVE run.
abbrev pub KeepsFit :
    (p q : CampaignRun → Bool) (f : CampaignRun → CampaignRun) (from : CampaignStatus → Bool)
    → CampaignStatus
    → Type 0
KeepsFit p q f from to =
    (s : CampaignStatus) (r : CampaignRun)
    → p r ≡ true
    → is_live_run r ≡ true
    → fits s r.status ≡ true
    → fits (next_status (q (f r)) from to s) (f r).status ≡ true

Coupled-step :
    (p q : CampaignRun → Bool) (f : CampaignRun → CampaignRun) (from : CampaignStatus → Bool)
    (to s : CampaignStatus) (ls : List CampaignRun)
    → KeepsFit p q f from to
    → All (λ r. is_live_run r ≡ true) ls
    → Coupled s ls
    → Coupled (next_status (any (λ r. p r && q (f r)) ls) from to s) (map (update_row p f) ls)
Coupled-step p q f from to s [] keep live c = c
Coupled-step p q f from to s (r ∷ []) keep live c = elim (Bool-cases (p r)) [
  | inl e ↦ ground (arith, keep s r e live.0 c)
  | inr e ↦ ground arith
]
Coupled-step p q f from to s (r ∷ t ∷ rs) keep live c = absurd c

live_runs-live : (k : ℕ) (rs : List CampaignRun) → All (λ r. is_live_run r ≡ true) (live_runs k rs)
live_runs-live k [] = tt
live_runs-live k (r ∷ rs) = elim (Bool-cases (is_live_run r && r.campaign_id == k)) [
  | inl e ↦ rw e (ground arith, live_runs-live k rs)
  | inr e ↦ rw e (live_runs-live k rs)
]

next_status-hit :
    (m b : Bool) (from : CampaignStatus → Bool) (to s : CampaignStatus)
    → m ≡ b
    → (m && from s) ≡ true
    → next_status b from to s ≡ to
next_status-hit m b from to s same e = ground arith

next_status-missed :
    (m b : Bool) (from : CampaignStatus → Bool) (to s : CampaignStatus)
    → m ≡ b
    → (m && from s) ≡ false
    → next_status b from to s ≡ s
next_status-missed m b from to s same e = ground arith

campaign_step :
    (p q : CampaignRun → Bool) (f : CampaignRun → CampaignRun) (from : CampaignStatus → Bool)
    (to : CampaignStatus) (ids : List ℕ) (now : ℕ) (rs : List CampaignRun) (c : Campaign)
    → KeepsOwner f
    → KeepsFit p q f from to
    → member c.id ids ≡ any (λ r. p r && q (f r)) (live_runs c.id rs)
    → Coupled c.status (live_runs c.id rs)
    → let c' = update_row (in_status ids from) (with_status to now) c in
      Coupled c'.status (live_runs c'.id (update_where p f rs))
campaign_step p q f from to ids now rs c owner keep same h =
    elim (Bool-cases (in_status ids from c)) [
      | inl e ↦
          rw (e, moved)
            (subst (λ z. Coupled z (map (update_row p f) (live_runs c.id rs)))
              (next_status-hit _ _ from to c.status same e) step)
      | inr e ↦
          rw (e, moved)
            (subst (λ z. Coupled z (map (update_row p f) (live_runs c.id rs)))
              (next_status-missed _ _ from to c.status same e) step)
    ]
  where
    moved : live_runs c.id (update_where p f rs) ≡ map (update_row p f) (live_runs c.id rs)
    moved = live_runs-update_where p f c.id rs owner

    step :
        Coupled
          (next_status (any (λ r. p r && q (f r)) (live_runs c.id rs)) from to c.status)
          (map (update_row p f) (live_runs c.id rs))
    step = Coupled-step p q f from to c.status (live_runs c.id rs) keep (live_runs-live c.id rs) h

all_campaigns :
    (p q : CampaignRun → Bool) (f : CampaignRun → CampaignRun) (from : CampaignStatus → Bool)
    (to : CampaignStatus) (ids : List ℕ) (now : ℕ) (rs : List CampaignRun) (cs : List Campaign)
    → KeepsOwner f
    → KeepsFit p q f from to
    → ((k : ℕ) → member k ids ≡ any (λ r. p r && q (f r)) (live_runs k rs))
    → AllCoupled cs rs
    → AllCoupled (set_campaigns ids from to now cs) (update_where p f rs)
all_campaigns p q f from to ids now rs [] owner keep same h = tt
all_campaigns p q f from to ids now rs (c ∷ cs) owner keep same h = (
  campaign_step p q f from to ids now rs c owner keep (same c.id) h.0,
  all_campaigns p q f from to ids now rs cs owner keep same h.1,
)

-- A statement on campaign_runs, and one on the campaigns of the rows that it returned and that q
-- selects.
pub batch-AllCoupled :
    (p q : CampaignRun → Bool) (f : CampaignRun → CampaignRun) (from : CampaignStatus → Bool)
    (to : CampaignStatus) (now : ℕ) (rs : List CampaignRun) (cs : List Campaign)
    → KeepsOwner f
    → ((r : CampaignRun) → q r ≡ true → is_live_run r ≡ true)
    → KeepsFit p q f from to
    → AllCoupled cs rs
    → AllCoupled
        (set_campaigns (campaign_ids q (returning p f rs)) from to now cs)
        (update_where p f rs)
batch-AllCoupled p q f from to now rs cs owner live_only keep h =
    all_campaigns p q f from to (campaign_ids q (returning p f rs)) now rs cs owner keep
      (λ k. member-campaign_ids p q f k rs owner live_only) h

-- A statement on campaign_runs alone.
runs_only :
    (p : CampaignRun → Bool) (f : CampaignRun → CampaignRun) (rs : List CampaignRun) (c : Campaign)
    → KeepsOwner f
    → ((s : CampaignStatus) (r : CampaignRun)
        → p r ≡ true
        → fits s r.status ≡ true
        → fits s (f r).status ≡ true)
    → Coupled c.status (live_runs c.id rs)
    → Coupled c.status (live_runs c.id (update_where p f rs))
runs_only p f rs c owner keep h =
    rw (live_runs-update_where p f c.id rs owner) (row (live_runs c.id rs) h)
  where
    row : (ls : List CampaignRun) → Coupled c.status ls → Coupled c.status (map (update_row p f) ls)
    row [] k = k
    row (r ∷ []) k = elim (Bool-cases (p r)) [
      | inl e ↦ ground (arith, keep c.status r e k)
      | inr e ↦ ground arith
    ]
    row (r ∷ t ∷ ls) k = absurd k

pub runs_only-AllCoupled :
    (p : CampaignRun → Bool) (f : CampaignRun → CampaignRun) (rs : List CampaignRun)
    (cs : List Campaign)
    → KeepsOwner f
    → ((s : CampaignStatus) (r : CampaignRun)
        → p r ≡ true
        → fits s r.status ≡ true
        → fits s (f r).status ≡ true)
    → AllCoupled cs rs
    → AllCoupled cs (update_where p f rs)
runs_only-AllCoupled p f rs cs owner keep h =
    All-map _ _ cs (λ c k. runs_only p f rs c owner keep k) h

-- Where identifiers are distinct, a WHERE clause that fixes the identifier selects one row at most.
filter-none :
    (id : ℕ) (p : CampaignRun → Bool) (rs : List CampaignRun)
    → ((r : CampaignRun) → p r ≡ true → r.id ≡ id)
    → has_key run_id id rs ≡ false
    → filter p rs ≡ []
filter-none id p [] only fresh = refl
filter-none id p (r ∷ rs) only fresh = elim (Bool-cases (p r)) [
  | inl e ↦ absurd (ground (arith, only r e))
  | inr e ↦ rw e (filter-none id p rs only (ground arith))
]

pub first_only-returning :
    (id : ℕ) (p : CampaignRun → Bool) (f : CampaignRun → CampaignRun) (rs : List CampaignRun)
    → ((r : CampaignRun) → p r ≡ true → r.id ≡ id)
    → Distinct run_id rs
    → first_only (returning p f rs) ≡ returning p f rs
first_only-returning id p f [] only d = refl
first_only-returning id p f (r ∷ rs) only d = elim (Bool-cases (p r)) [
  | inl e ↦ rw (e, filter-none id p rs only (rw (← only r e) d.0))
  | inr e ↦ rw e (first_only-returning id p f rs only d.1)
]

update-absent :
    (id : ℕ) (p : CampaignRun → Bool) (f : CampaignRun → CampaignRun) (rs : List CampaignRun)
    → ((r : CampaignRun) → p r ≡ true → r.id ≡ id)
    → has_key run_id id rs ≡ false
    → update_where p f rs ≡ rs
update-absent id p f [] only fresh = refl
update-absent id p f (r ∷ rs) only fresh = ground (arith, only r, update-absent id p f rs only)

by_run_id-id : (id : ℕ) (r : CampaignRun) → by_run_id id r ≡ true → r.id ≡ id
by_run_id-id id r h = ==-eq r.id id h

abbrev pub locked : ℕ → (CampaignRun → Bool) → CampaignRun → Bool
locked id g r = by_run_id id r && g r

locked-id : (id : ℕ) (g : CampaignRun → Bool) (r : CampaignRun) → locked id g r ≡ true → r.id ≡ id
locked-id id g r h = ground arith

pub first_row-id :
    (id : ℕ) (rs : List CampaignRun) {run : CampaignRun}
    → first_row (by_run_id id) rs ≡ some run
    → run.id ≡ id
first_row-id id rs {run} e = by_run_id-id id run (first_row-selected (by_run_id id) rs e)

-- The row that a SELECT by identifier locked is the one that the UPDATE by identifier writes, so the
-- guard on the locked row may be read as part of the WHERE clause.
pub update-locked :
    (id : ℕ) (g : CampaignRun → Bool) (f : CampaignRun → CampaignRun) (rs : List CampaignRun)
    {run : CampaignRun}
    → Distinct run_id rs
    → first_row (by_run_id id) rs ≡ some run
    → g run ≡ true
    → update_where (by_run_id id) f rs ≡ update_where (locked id g) f rs
update-locked id g f [] d e h = absurd (ground arith)
update-locked id g f (r ∷ rs) {run} d e h = elim (Bool-cases (by_run_id id r)) [
  | inl here ↦ ground (
    arith,
    update-absent id (by_run_id id) f rs (by_run_id-id id),
    update-absent id (locked id g) f rs (locked-id id g),
  )
  | inr there ↦ ground (arith, update-locked id g f rs {run = run} d.1)
]

pub filter-locked :
    (id : ℕ) (g : CampaignRun → Bool) (rs : List CampaignRun) {run : CampaignRun}
    → Distinct run_id rs
    → first_row (by_run_id id) rs ≡ some run
    → g run ≡ true
    → filter (locked id g) rs ≡ run ∷ []
filter-locked id g [] d e h = absurd (ground arith)
filter-locked id g (r ∷ rs) {run} d e h = elim (Bool-cases (by_run_id id r)) [
  | inl here ↦ ground (arith, filter-none id (locked id g) rs (locked-id id g))
  | inr there ↦ ground (arith, filter-locked id g rs {run = run} d.1)
]

-- The row that a narrower SELECT locked is the row of its identifier.
pub first_row-narrow :
    (id : ℕ) (p : CampaignRun → Bool) (rs : List CampaignRun) {run : CampaignRun}
    → ((r : CampaignRun) → p r ≡ true → r.id ≡ id)
    → Distinct run_id rs
    → first_row p rs ≡ some run
    → first_row (by_run_id id) rs ≡ some run
first_row-narrow id p [] only d e = absurd (ground arith)
first_row-narrow id p (r ∷ rs) {run} only d e = elim (Bool-cases (p r)) [
  | inl sel ↦ ground (arith, only r sel, ==-refl id)
  | inr out ↦ elim (Bool-cases (by_run_id id r)) [
    | inl here ↦
        absurd (first_row-absent id p rs only (rw (← by_run_id-id id r here) d.0) (ground arith))
    | inr there ↦ ground (arith, first_row-narrow id p rs {run = run} only d.1)
  ]
]
  where
    first_row-absent :
        (k : ℕ) (q : CampaignRun → Bool) (ts : List CampaignRun)
        → ((t : CampaignRun) → q t ≡ true → t.id ≡ k)
        → has_key run_id k ts ≡ false
        → first_row q ts ≡ some run
        → ⊥
    first_row-absent k q [] o fresh f = ground arith
    first_row-absent k q (t ∷ ts) o fresh f = elim (Bool-cases (q t)) [
      | inl sel ↦ ground (arith, o t sel)
      | inr out ↦ first_row-absent k q ts o (ground arith) (ground arith)
    ]

-- Two WHERE clauses that agree on every row of the table.
pub update_where-agree :
    (p q : CampaignRun → Bool) (f : CampaignRun → CampaignRun) (rs : List CampaignRun)
    → All (λ r. p r ≡ q r) rs
    → (update_where p f rs ≡ update_where q f rs) × (filter p rs ≡ filter q rs)
update_where-agree p q f [] same = (refl, refl)
update_where-agree p q f (r ∷ rs) same =
    let ih = update_where-agree p q f rs same.1 in
    (ground (arith, same.0, ih.0), ground (arith, same.0, ih.1))

pub live_runs-append :
    (k : ℕ) (rs : List CampaignRun) (r : CampaignRun)
    → live_runs k (rs ++ r ∷ []) ≡ live_runs k rs ++ live_runs k (r ∷ [])
live_runs-append k [] r = refl
live_runs-append k (q ∷ rs) r = ground (arith, live_runs-append k rs r)

-- A run that is no LIVE run changes nothing.
pub dry_run-AllCoupled :
    (r : CampaignRun) (rs : List CampaignRun) (cs : List Campaign)
    → is_live_run r ≡ false
    → AllCoupled cs rs
    → AllCoupled cs (rs ++ r ∷ [])
dry_run-AllCoupled r rs cs dry h =
    All-map _ _ cs (λ c k. rw (live_runs-append c.id rs r, dry, append-nil (live_runs c.id rs)) k) h
