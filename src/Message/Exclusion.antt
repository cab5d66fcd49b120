-- ===== src/Message/Exclusion.antt =====
-- The mutual exclusion that src/modules/messages/outbound-session-lease.repository.ts gives: while a
-- lease runs, no call with another token takes, renews or deletes it.
use wa_runtime.Base.{
  ℕ, ◌+◌, ◌≤◌, Bool, true, false, some, List, [], ◌∷◌, ◌++◌, ◌≡◌, ◌≢◌, refl, ◌==◌, ==-eq, inl, inr,
  arith, Option-cases, ==-refl, Bool-cases, All,
}
use wa_runtime.Base.Sql.{update_where, first_row, first_row-delete_spared}
use wa_runtime.Message.Lease.{
  Lease, of_session, held_by, new_lease, may_take, try_acquire, renew, release, renewable,
}

-- A call of the repository, with the token of its caller.
pub data Call : Type 0 where
  try_acquire_call : (session job token ttl : ℕ) → Call
  renew_call : (session job token ttl : ℕ) → Call
  release_call : (session job token : ℕ) → Call

abbrev pub token_of : Call → ℕ
token_of (try_acquire_call session job token ttl) = token
token_of (renew_call session job token ttl) = token
token_of (release_call session job token) = token

-- Its answer and the table after it.
unfoldable pub perform : Call → ℕ → List Lease → Bool × List Lease
perform (try_acquire_call session job token ttl) now ls = try_acquire session job token ttl now ls
perform (renew_call session job token ttl) now ls = renew session job token ttl now ls
perform (release_call session job token) now ls = release session job token ls

abbrev pub perform_all : List (Call × ℕ) → List Lease → List Lease
perform_all [] ls = ls
perform_all ((c, now) ∷ cs) ls = perform_all cs (perform c now ls).1

-- `l` is the lease of its session.
abbrev pub Current : Lease → List Lease → Type 0
Current l ls = first_row (of_session l.session_id) ls ≡ some l

-- An UPDATE or DELETE that spares the first row of a session leaves it there.
first_row-update_spared :
    (session : ℕ) (p : Lease → Bool) (f : Lease → Lease) (ls : List Lease) {l : Lease}
    → ((m : Lease) → p m ≡ true → (f m).session_id ≡ m.session_id)
    → p l ≡ false
    → first_row (of_session session) ls ≡ some l
    → first_row (of_session session) (update_where p f ls) ≡ some l
first_row-update_spared session p f [] same spared e = e
first_row-update_spared session p f (m ∷ ls) {l} same spared e =
    ground (arith, same m, first_row-update_spared session p f ls {l = l} same spared)

first_row-append :
    (session : ℕ) (ls : List Lease) (m : Lease) {l : Lease}
    → first_row (of_session session) ls ≡ some l
    → first_row (of_session session) (ls ++ m ∷ []) ≡ some l
first_row-append session [] m e = absurd (ground arith)
first_row-append session (k ∷ ls) m {l} e = ground (arith, first_row-append session ls m {l = l})

module _ (l : Lease) where
  take_refused :
      (job token ttl now : ℕ) (ls : List Lease)
      → Current l ls
      → token ≢ l.lease_token
      → now ≤ l.lease_expires_at
      → try_acquire l.session_id job token ttl now ls ≡ (false, ls)
  unfolding try_acquire
  take_refused job token ttl now ls c foreign live = rw (c, try_acquire) (ground arith)

  take_elsewhere :
      (session job token ttl now : ℕ) (ls : List Lease)
      → Current l ls
      → session ≢ l.session_id
      → Current l (try_acquire session job token ttl now ls).1
  unfolding try_acquire
  take_elsewhere session job token ttl now ls c other =
      elim (Option-cases (first_row (of_session session) ls)) [
        | inl e ↦ rw (e, try_acquire) (first_row-append l.session_id ls _ c)
        | inr (old, e) ↦ elim (Bool-cases (may_take job token now old)) [
          | inl free ↦
              rw (e, try_acquire, free) (replaced (new_lease session job token (now + ttl)) refl)
          | inr busy ↦ rw (e, try_acquire, busy) c
        ]
      ]
    where
      replaced :
          (m : Lease)
          → m.session_id ≡ session
          → Current l (update_where (of_session session) (λ k. m) ls)
      replaced m same =
          first_row-update_spared l.session_id (of_session session) (λ k. m) ls {l = l}
            (λ k sel. ground arith) (ground arith) c

  -- A call with another token, at a time at which the lease runs, leaves it in place.
  perform-Current :
      (call : Call) (now : ℕ) (ls : List Lease)
      → token_of call ≢ l.lease_token
      → now ≤ l.lease_expires_at
      → Current l ls
      → Current l (perform call now ls).1
  unfolding perform renew release
  perform-Current (try_acquire_call session job token ttl) now ls foreign live c =
      elim (Bool-cases (session == l.session_id)) [
        | inl here ↦
            rw (==-eq session l.session_id here)
              (rw (take_refused job token ttl now ls c foreign live) c)
        | inr there ↦
            take_elsewhere session job token ttl now ls c (λ e. ground (arith, ==-refl session))
      ]
  perform-Current (renew_call session job token ttl) now ls foreign live c =
      first_row-update_spared l.session_id (renewable session job token now) _ ls {l = l}
        (λ m sel. refl) (ground arith) c
  perform-Current (release_call session job token) now ls foreign live c =
      first_row-delete_spared (of_session l.session_id) (held_by session job token) ls
        (ground arith) c

  abbrev pub Foreign : Call × ℕ → Type 0
  Foreign (call, now) = (token_of call ≢ l.lease_token) × (now ≤ l.lease_expires_at)

  perform_all-Current :
      (calls : List (Call × ℕ)) (ls : List Lease)
      → All Foreign calls
      → Current l ls
      → Current l (perform_all calls ls)
  perform_all-Current [] ls h c = c
  perform_all-Current ((call, now) ∷ calls) ls h c =
      perform_all-Current calls (perform call now ls).1 h.1
        (perform-Current call now ls h.0.0 h.0.1 c)

  -- While a session's lease runs, whatever calls other tokens make, on this session or on others, in
  -- any number and order: the lease stays as it is, so its holder still owns the session, and an
  -- attempt of another token to acquire the session is refused and changes nothing.
  pub perform_all-refused :
      (calls : List (Call × ℕ)) (job token ttl now : ℕ) (ls : List Lease)
      → Current l ls
      → All Foreign calls
      → token ≢ l.lease_token
      → now ≤ l.lease_expires_at
      → (Current l (perform_all calls ls))
        × (try_acquire l.session_id job token ttl now (perform_all calls ls)
            ≡ (false, perform_all calls ls))
  perform_all-refused calls job token ttl now ls c h foreign live =
      let still = perform_all-Current calls ls h c in
      (still, take_refused job token ttl now (perform_all calls ls) still foreign live)
