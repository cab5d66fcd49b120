-- ===== src/Message/Guards.antt =====
-- When MessageJobService.create (src/modules/messages/message-job.service.ts) writes a job.
use wa_runtime.Base.{
  ℕ, ◌+◌, ◌≤◌, Bool, true, none, some, ◌≡◌, refl, ◌⊎◌, inl, inr, arith, ltb, Option-cases,
  Bool-cases,
}
use wa_runtime.Message.Repository.{Store, NewJob, create}
use wa_runtime.Message.Policy.{Gateway, Group, allowed, assert_creatable}
use wa_runtime.Message.Service.{create_job}

-- A live message goes to a group whose capability is ALLOWED.
abbrev pub LiveTarget : Gateway → ℕ → ℕ → Type 0
LiveTarget gw session recipient =
    (gw.is_group_jid recipient ≡ true)
    × ((g : Group) × (gw.find_group session recipient ≡ some g) × (g.capability ≡ allowed))

creatable-LiveTarget :
    (gw : Gateway) (session recipient : ℕ) (dry : Bool)
    → assert_creatable gw session recipient dry ≡ none
    → (gw.is_allowed session ≡ true) × ((dry ≡ true) ⊎ LiveTarget gw session recipient)
unfolding assert_creatable
creatable-LiveTarget gw session recipient dry h = (
  ground arith,
  elim (Bool-cases dry) [
    | inl d ↦ inl d
    | inr d ↦ elim (Option-cases (gw.find_group session recipient)) [
      | inl e ↦ absurd (ground arith)
      | inr (g, e) ↦ inr (ground arith, (g, e, ground arith))
    ]
  ],
)

-- A request to create a message job either leaves the tables as they are, or its key has at most 200
-- code units, it is due at most a minute in the past, its session is in the allowlist, it is a dry
-- run or its recipient is a group that may be sent to, and the tables are those that the
-- repository's create leaves.
pub create_job-guarded :
    (gw : Gateway) (key_length : ℕ) (input : NewJob) (new_id now : ℕ) (s : Store)
    → ((create_job gw key_length input new_id now s).1 ≡ s)
      ⊎ ((key_length ≤ 200)
          × (now ≤ input.due_at + 60000)
          × (gw.is_allowed input.session ≡ true)
          × ((input.dry ≡ true) ⊎ LiveTarget gw input.session input.recipient)
          × ((create_job gw key_length input new_id now s).1 ≡ (create input new_id now s).1))
unfolding create_job
create_job-guarded gw key_length input new_id now s = elim (Bool-cases (ltb 200 key_length)) [
  | inl long ↦ inl (rw (long, create_job) refl)
  | inr short ↦ elim (Option-cases (assert_creatable gw input.session input.recipient input.dry)) [
    | inr (reason, e) ↦ inl (rw (short, e, create_job) refl)
    | inl e ↦ elim (Bool-cases (ltb (input.due_at + 60000) now)) [
      | inl past ↦ inl (rw (short, e, past, create_job) refl)
      | inr due ↦
          let may = creatable-LiveTarget gw input.session input.recipient input.dry e in
          inr (ground arith, ground arith, may.0, may.1, rw (short, e, due, create_job) refl)
    ]
  ]
]
