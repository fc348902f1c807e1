-- ===== src/Platform/System/Leased.antt =====
-- The one row that a claim leases.
use avito_kitchen.Base.{
  ℕ, ◌≡◌, refl, sym, subst, Bool, true, false, ◌&&◌, List, [], ◌∷◌, Text, same, is_none, exists_row,
  update_where, count_where, arith, Option-cases, Bool-cases, inl, inr, All, select, weaken-All,
  order_by-All, first-All,
}
use avito_kitchen.Platform.Store.{OutboxRow, Db, Env}
use avito_kitchen.Platform.Domain.{OutboxJob}
use avito_kitchen.Platform.Outbox.{claim_outbox, next_job, is_candidate, is_leased, lease_row}
use avito_kitchen.Platform.Consistency.Finishing.{claim_outbox-tables}
use avito_kitchen.Platform.System.Jobs.{AreDistinct, is_job}
use avito_kitchen.Shared.Transaction.{ok}

-- The row of a job that is not yet processed.
abbrev is_waiting : Text → OutboxRow → Bool
is_waiting id r = same r.id id && is_none r.processed_at

none_waiting :
    (id : Text) (xs : List OutboxRow)
    → exists_row (is_job id) xs ≡ false
    → exists_row (is_waiting id) xs ≡ false
none_waiting id [] h = refl
none_waiting id (x ∷ xs) h = ground (arith, none_waiting id xs)

none_leased :
    (job : OutboxJob) (now lease : ℕ) (xs : List OutboxRow)
    → exists_row (is_job job.id) xs ≡ false
    → count_where
        (is_leased job)
        (update_where (λ r. same r.id job.id) (lease_row now lease job.lock_token) xs)
      ≡ 0
none_leased job now lease [] h = refl
none_leased job now lease (x ∷ xs) h = ground (arith, none_leased job now lease xs)

-- Among rows with different identifiers the claim leases one, which is not yet processed.
one_leased :
    (job : OutboxJob) (now lease : ℕ) (xs : List OutboxRow)
    → AreDistinct xs
    → exists_row (is_waiting job.id) xs ≡ true
    → count_where
        (is_leased job)
        (update_where (λ r. same r.id job.id) (lease_row now lease job.lock_token) xs)
      ≡ 1
one_leased job now lease [] k h = cc
one_leased job now lease (x ∷ xs) k h = elim (Bool-cases (same x.id job.id)) [
  | inl own ↦
      let same_id : x.id ≡ job.id = ground arith in
      let apart : exists_row (is_job job.id) xs ≡ false =
        subst (λ id. exists_row (is_job id) xs ≡ false) same_id k.0 in
      ground (arith, none_leased job now lease xs apart, none_waiting job.id xs apart)
  | inr other ↦ let rest = one_leased job now lease xs k.1 in ground arith
]

-- Every candidate is waiting.
candidates_wait :
    (now : ℕ) (db : Db) (xs : List OutboxRow)
    → All
        (λ (r : OutboxRow). exists_row (is_waiting r.id) xs ≡ true)
        (select (is_candidate now db) xs)
candidates_wait now db [] = tt
candidates_wait now db (x ∷ xs) =
    let rest =
      weaken-All (λ (r : OutboxRow). exists_row (is_waiting r.id) xs ≡ true)
        (λ (r : OutboxRow). exists_row (is_waiting r.id) (x ∷ xs) ≡ true) (λ r h. ground arith)
        (select (is_candidate now db) xs) (candidates_wait now db xs) in
    elim (Bool-cases (is_candidate now db x)) [
      | inl takes ↦ rw takes (ground arith, rest)
      | inr passes ↦ rw passes rest
    ]

-- A job that is claimed has one leased row in the table after the claim, if no two rows share an
-- identifier.
pub claim_outbox-leased :
    (env : Env) (lease : ℕ) (db : Db) {job : OutboxJob} {db' : Db}
    → AreDistinct db.outbox
    → claim_outbox env lease db ≡ ok (job, db')
    → count_where (is_leased job) db'.outbox ≡ 1
unfolding claim_outbox next_job
claim_outbox-leased env lease db {job} {db'} keyed h = elim (Option-cases (next_job env.now db)) [
  | inl idle ↦ absurd (ground arith)
  | inr (row, e) ↦
      let P = λ (r : OutboxRow). exists_row (is_waiting r.id) db.outbox ≡ true in
      let own =
        first-All P _
          (order_by-All P OutboxRow.available_at _
            (order_by-All P OutboxRow.created_at _ (candidates_wait env.now db db.outbox)))
          e in
      let id : job.id ≡ row.id = ground arith in
      let (_, outbox) = claim_outbox-tables env lease db h in
      rw outbox (
        one_leased job env.now lease db.outbox keyed
          (subst (λ i. exists_row (is_waiting i) db.outbox ≡ true) (sym id) own))
]
