-- ===== src/Message/Lease.antt =====
-- src/modules/messages/outbound-session-lease.repository.ts: one lease row for each session. A lease
-- token is drawn by randomUUID() for each call of withLease.
use wa_runtime.Base.{
  ℕ, ◌+◌, Bool, true, false, ◌&&◌, ◌||◌, Option, none, some, List, [], ◌∷◌, ◌++◌, ltb, ◌==◌,
  if◌then◌else◌,
}
use wa_runtime.Base.Sql.{update_where, first_row, row_count, delete_where}

pub record Lease : Type 0 where
  pub session_id : ℕ
  pub lease_token : ℕ
  pub holder_message_job_id : ℕ
  pub lease_expires_at : ℕ

abbrev pub of_session : ℕ → Lease → Bool
of_session session l = l.session_id == session

abbrev pub held_by : ℕ → ℕ → ℕ → Lease → Bool
held_by session job token l =
    l.session_id == session && l.holder_message_job_id == job && l.lease_token == token

abbrev pub new_lease : ℕ → ℕ → ℕ → ℕ → Lease
new_lease session job token expires = record {
  session_id = session;
  lease_token = token;
  holder_message_job_id = job;
  lease_expires_at = expires;
}

-- The WHERE clause of ON CONFLICT (session_id) DO UPDATE.
abbrev pub may_take : ℕ → ℕ → ℕ → Lease → Bool
may_take job token now l =
    ltb l.lease_expires_at now || (l.holder_message_job_id == job && l.lease_token == token)

take_on : Option Lease → ℕ → ℕ → ℕ → ℕ → ℕ → List Lease → Bool × List Lease
take_on none session job token ttl now ls =
    (true, ls ++ new_lease session job token (now + ttl) ∷ [])
take_on (some old) session job token ttl now ls =
    if may_take job token now old
    then (true, update_where (of_session session) (λ l. new_lease session job token (now + ttl)) ls)
    else (false, ls)

unfoldable pub try_acquire : ℕ → ℕ → ℕ → ℕ → ℕ → List Lease → Bool × List Lease
unfolding take_on
try_acquire session job token ttl now ls =
    take_on (first_row (of_session session) ls) session job token ttl now ls

abbrev pub renewable : ℕ → ℕ → ℕ → ℕ → Lease → Bool
renewable session job token now l = held_by session job token l && ltb now l.lease_expires_at

unfoldable pub renew : ℕ → ℕ → ℕ → ℕ → ℕ → List Lease → Bool × List Lease
renew session job token ttl now ls = (
  row_count (renewable session job token now) ls == 1,
  update_where (renewable session job token now) (λ l. record l { lease_expires_at = now + ttl })
      ls,
)

unfoldable pub release : ℕ → ℕ → ℕ → List Lease → Bool × List Lease
release session job token ls =
    (row_count (held_by session job token) ls == 1, delete_where (held_by session job token) ls)
