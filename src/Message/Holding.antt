-- ===== src/Message/Holding.antt =====
-- What src/modules/messages/outbound-session-lease.repository.ts promises, apart from its table: each session is
-- free or held by one lease.
use wa_runtime.Base.{
  ℕ, ◌+◌, Bool, true, false, Option, none, some, List, [], ◌∷◌, ◌++◌, ◌≡◌, ◌∙◌, refl, inl, inr,
  arith, ◌==◌, ==-eq, ==-refl, Bool-cases, Option-cases, if◌then◌else◌,
}
use wa_runtime.Base.Sql.{
  update_where, update_row, first_row, first_row-selected, row_count, delete_where,
}
use wa_runtime.Base.Keys.{Distinct, has_key}
use wa_runtime.Message.Lease.{
  Lease, of_session, held_by, new_lease, may_take, try_acquire, renew, release, renewable,
}
use wa_runtime.Message.Exclusion.{Call, try_acquire_call, renew_call, release_call, perform}

abbrev pub session_key : Lease → ℕ
session_key l = l.session_id

abbrev pub session_of : Call → ℕ
session_of (try_acquire_call session job token ttl) = session
session_of (renew_call session job token ttl) = session
session_of (release_call session job token) = session

-- The lease of a session, as the table has it.
abbrev pub holding : List Lease → ℕ → Option Lease
holding ls s = first_row (of_session s) ls

-- A call of the promise, on the lease of its session.
unfoldable pub grant : Call → ℕ → Option Lease → Bool × Option Lease
grant (try_acquire_call session job token ttl) now none =
    (true, some (new_lease session job token (now + ttl)))
grant (try_acquire_call session job token ttl) now (some l) =
    if may_take job token now l
    then (true, some (new_lease session job token (now + ttl)))
    else (false, some l)
grant (renew_call session job token ttl) now none = (false, none)
grant (renew_call session job token ttl) now (some l) =
    if renewable session job token now l
    then (true, some (record l { lease_expires_at = now + ttl }))
    else (false, some l)
grant (release_call session job token) now none = (false, none)
grant (release_call session job token) now (some l) =
    if held_by session job token l then (true, none) else (false, some l)

abbrev updated : (Lease → Bool) → (Lease → Lease) → Option Lease → Option Lease
updated p f none = none
updated p f (some l) = some (update_row p f l)

abbrev removed : (Lease → Bool) → Option Lease → Option Lease
removed p none = none
removed p (some l) = if p l then none else some l

abbrev hits : (Lease → Bool) → Option Lease → ℕ
hits p none = 0
hits p (some l) = if p l then 1 else 0

holding-update_where :
    (s : ℕ) (p : Lease → Bool) (f : Lease → Lease) (ls : List Lease)
    → ((l : Lease) → p l ≡ true → (f l).session_id ≡ l.session_id)
    → holding (update_where p f ls) s ≡ updated p f (holding ls s)
holding-update_where s p f [] same = refl
holding-update_where s p f (l ∷ ls) same = elim (Bool-cases (p l)) [
  | inl e ↦ ground (arith, e, same l e, holding-update_where s p f ls same)
  | inr e ↦ ground (arith, e, holding-update_where s p f ls same)
]

holding-none : (s : ℕ) (ls : List Lease) → has_key session_key s ls ≡ false → holding ls s ≡ none
holding-none s [] h = refl
holding-none s (l ∷ ls) h = ground (arith, holding-none s ls)

holding-delete_none :
    (s : ℕ) (p : Lease → Bool) (ls : List Lease)
    → has_key session_key s ls ≡ false
    → holding (delete_where p ls) s ≡ none
holding-delete_none s p [] h = refl
holding-delete_none s p (l ∷ ls) h = ground (arith, holding-delete_none s p ls)

holding-delete_where :
    (s : ℕ) (p : Lease → Bool) (ls : List Lease)
    → Distinct session_key ls
    → holding (delete_where p ls) s ≡ removed p (holding ls s)
holding-delete_where s p [] d = refl
holding-delete_where s p (l ∷ ls) d = elim (Bool-cases (l.session_id == s)) [
  | inl own ↦
      let gone = holding-delete_none s p ls (rw⁻¹ (==-eq l.session_id s own) d.0) in
      ground (arith, own, gone)
  | inr other ↦ ground (arith, other, holding-delete_where s p ls d.1)
]

no_hits :
    (s : ℕ) (p : Lease → Bool) (ls : List Lease)
    → ((l : Lease) → p l ≡ true → l.session_id ≡ s)
    → has_key session_key s ls ≡ false
    → row_count p ls ≡ 0
no_hits s p [] own h = refl
no_hits s p (l ∷ ls) own h = elim (Bool-cases (p l)) [
  | inl e ↦ absurd (ground (arith, h, own l e, ==-refl s))
  | inr e ↦ ground (arith, e, no_hits s p ls own)
]

row_count-hits :
    (s : ℕ) (p : Lease → Bool) (ls : List Lease)
    → ((l : Lease) → p l ≡ true → l.session_id ≡ s)
    → Distinct session_key ls
    → row_count p ls ≡ hits p (holding ls s)
row_count-hits s p [] own d = refl
row_count-hits s p (l ∷ ls) own d = elim (Bool-cases (l.session_id == s)) [
  | inl here ↦
      let rest = no_hits s p ls own (rw⁻¹ (==-eq l.session_id s here) d.0) in
      ground (arith, here, rest)
  | inr there ↦ elim (Bool-cases (p l)) [
    | inl e ↦ absurd (ground (arith, there, own l e, ==-refl s))
    | inr e ↦ ground (arith, there, e, row_count-hits s p ls own d.1)
  ]
]

holding-append_own :
    (s : ℕ) (ls : List Lease) (m : Lease)
    → (m.session_id == s) ≡ true
    → holding ls s ≡ none
    → holding (ls ++ m ∷ []) s ≡ some m
holding-append_own s [] m own h = ground (arith, own)
holding-append_own s (l ∷ ls) m own h = ground (arith, holding-append_own s ls m own)

holding-append_other :
    (s : ℕ) (ls : List Lease) (m : Lease)
    → (m.session_id == s) ≡ false
    → holding (ls ++ m ∷ []) s ≡ holding ls s
holding-append_other s [] m other = ground (arith, other)
holding-append_other s (l ∷ ls) m other = ground (arith, holding-append_other s ls m other)

updated-spared :
    (s : ℕ) (p : Lease → Bool) (f : Lease → Lease) (ls : List Lease)
    → ((l : Lease) → (l.session_id == s) ≡ true → p l ≡ false)
    → updated p f (holding ls s) ≡ holding ls s
updated-spared s p f [] spared = refl
updated-spared s p f (l ∷ ls) spared = elim (Bool-cases (l.session_id == s)) [
  | inl own ↦ ground (arith, own, spared l own)
  | inr other ↦ ground (arith, other, updated-spared s p f ls spared)
]

removed-spared :
    (s : ℕ) (p : Lease → Bool) (ls : List Lease)
    → ((l : Lease) → (l.session_id == s) ≡ true → p l ≡ false)
    → removed p (holding ls s) ≡ holding ls s
removed-spared s p [] spared = refl
removed-spared s p (l ∷ ls) spared = elim (Bool-cases (l.session_id == s)) [
  | inl own ↦ ground (arith, own, spared l own)
  | inr other ↦ ground (arith, other, removed-spared s p ls spared)
]

abbrev pub Refines : Call → ℕ → List Lease → Type 0
Refines call now ls =
    let (answer, after) = perform call now ls in
    let (promised, lease) = grant call now (holding ls (session_of call)) in
    (answer ≡ promised)
    × (holding after (session_of call) ≡ lease)
    × ((s : ℕ) → (s == session_of call) ≡ false → holding after s ≡ holding ls s)

acquire-Refines :
    (session job token ttl now : ℕ) (ls : List Lease)
    → Refines (try_acquire_call session job token ttl) now ls
unfolding perform grant try_acquire
acquire-Refines session job token ttl now ls =
    let new = new_lease session job token (now + ttl) in
    elim (Option-cases (holding ls session)) [
      | inl free ↦ rw free (
        refl,
        holding-append_own session ls new (==-refl session) free,
        (λ s other. holding-append_other s ls new (ground (arith, other))),
      )
      | inr (l, held) ↦ elim (Bool-cases (may_take job token now l)) [
        | inl taken ↦
            rw (held, taken)
              (
                refl,
                ground (
                  arith,
                  held,
                  first_row-selected (of_session session) ls held,
                  holding-update_where session (of_session session) (λ k. new) ls
                      (λ k e. ground (arith, e)),
                ),
                (λ s other. ground (
                  arith,
                  holding-update_where s (of_session session) (λ k. new) ls
                      (λ k e. ground (arith, e)),
                  updated-spared s (of_session session) (λ k. new) ls
                      (λ k e. ground (arith, e, other)),
                )),
              )
        | inr kept ↦ rw (held, kept) (refl, held, (λ s other. refl))
      ]
    ]

renew-Refines :
    (session job token ttl now : ℕ) (ls : List Lease)
    → Distinct session_key ls
    → Refines (renew_call session job token ttl) now ls
unfolding perform grant renew
renew-Refines session job token ttl now ls d = (
  ground (arith, counted, grant),
  ground (arith, moved session, grant),
  (λ s other.
      moved s
      ∙ updated-spared s (renewable session job token now) extend ls
          (λ l e. ground (arith, e, other))),
)
  where
    extend : Lease → Lease
    extend l = record l { lease_expires_at = now + ttl }

    counted :
        row_count (renewable session job token now) ls
        ≡ hits (renewable session job token now) (holding ls session)
    counted =
        row_count-hits session (renewable session job token now) ls
          (λ l e. ==-eq l.session_id session (ground (arith, e))) d

    moved :
        (s : ℕ)
        → holding (update_where (renewable session job token now) extend ls) s
          ≡ updated (renewable session job token now) extend (holding ls s)
    moved s = holding-update_where s (renewable session job token now) extend ls (λ l e. refl)

release-Refines :
    (session job token now : ℕ) (ls : List Lease)
    → Distinct session_key ls
    → Refines (release_call session job token) now ls
unfolding perform grant release
release-Refines session job token now ls d = (
  ground (arith, counted, grant),
  ground (arith, moved session, grant),
  (λ s other.
      moved s ∙ removed-spared s (held_by session job token) ls (λ l e. ground (arith, e, other))),
)
  where
    counted :
        row_count (held_by session job token) ls
        ≡ hits (held_by session job token) (holding ls session)
    counted =
        row_count-hits session (held_by session job token) ls
          (λ l e. ==-eq l.session_id session (ground (arith, e))) d

    moved :
        (s : ℕ)
        → holding (delete_where (held_by session job token) ls) s
          ≡ removed (held_by session job token) (holding ls s)
    moved s = holding-delete_where s (held_by session job token) ls d

-- Where each session has at most one row: every call of the lease repository answers what the promise
-- answers for the lease of its session, leaves that session as the promise says (acquired when it is
-- free, run out or the caller's own; renewed or released by its holder alone), and leaves every other
-- session as it was.
pub perform-Refines :
    (call : Call) (now : ℕ) (ls : List Lease) → Distinct session_key ls → Refines call now ls
perform-Refines (try_acquire_call session job token ttl) now ls d =
    acquire-Refines session job token ttl now ls
perform-Refines (renew_call session job token ttl) now ls d =
    renew-Refines session job token ttl now ls d
perform-Refines (release_call session job token) now ls d =
    release-Refines session job token now ls d
