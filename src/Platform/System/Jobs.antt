-- ===== src/Platform/System/Jobs.antt =====
-- What the operations of the platform do to `outbox` as a table of rows with identifiers.
use avito_kitchen.Base.{
  ◌≡◌, refl, sym, subst, Bool, true, false, List, [], ◌∷◌, Text, same, ◌||◌, exists_row,
  update_where, insert_row, arith, All, update_where-All,
}
use avito_kitchen.Platform.Store.{OutboxRow}
use avito_kitchen.Platform.Domain.{OutboxJob}
use avito_kitchen.Platform.Consistency.Working.{AreKeyed}

-- A change that leaves a row its identifier, its order and its type.
pub record IsSameJob (r s : OutboxRow) : Type 0 where
  pub id : s.id ≡ r.id
  pub aggregate_id : s.aggregate_id ≡ r.aggregate_id
  pub event_type : s.event_type ≡ r.event_type

abbrev pub is_job : Text → OutboxRow → Bool
is_job id r = same r.id id

-- No two rows share an identifier.
abbrev pub AreDistinct : List OutboxRow → Type 0
AreDistinct [] = Unit
AreDistinct (r ∷ rs) = (exists_row (is_job r.id) rs ≡ false) × AreDistinct rs

-- A statement leaves the table alone, updates rows, or inserts one with a new identifier.
pub data OutboxChange (xs ys : List OutboxRow) : Type 0 where
  untouched : ys ≡ xs → OutboxChange xs ys
  updated :
      (p : OutboxRow → Bool) (f : OutboxRow → OutboxRow)
      → ((r : OutboxRow) → IsSameJob r (f r))
      → ys ≡ update_where p f xs
      → OutboxChange xs ys
  inserted :
      (r : OutboxRow)
      → exists_row (is_job r.id) xs ≡ false
      → ys ≡ insert_row r xs
      → OutboxChange xs ys

exists_row-insert :
    (p : OutboxRow → Bool) (r : OutboxRow) (xs : List OutboxRow)
    → exists_row p (insert_row r xs) ≡ (exists_row p xs || p r)
exists_row-insert p r [] = ground arith
exists_row-insert p r (x ∷ xs) = ground (arith, exists_row-insert p r xs)

insert_row-AreDistinct :
    (r : OutboxRow) (xs : List OutboxRow)
    → exists_row (is_job r.id) xs ≡ false
    → AreDistinct xs
    → AreDistinct (insert_row r xs)
insert_row-AreDistinct r [] h k = (refl, tt)
insert_row-AreDistinct r (x ∷ xs) h k = (
  ground (arith, exists_row-insert (is_job x.id) r xs, k.0),
  insert_row-AreDistinct r xs (ground arith) k.1,
)

module _ (p : OutboxRow → Bool) (f : OutboxRow → OutboxRow)
    (keeps : (r : OutboxRow) → IsSameJob r (f r)) where
  exists_row-update :
      (id : Text) (xs : List OutboxRow)
      → exists_row (is_job id) (update_where p f xs) ≡ exists_row (is_job id) xs
  exists_row-update id [] = refl
  exists_row-update id (r ∷ rs) = let e = (keeps r).id in ground (arith, e, exists_row-update id rs)

  update_where-AreDistinct :
      (xs : List OutboxRow) → AreDistinct xs → AreDistinct (update_where p f xs)
  update_where-AreDistinct [] h = tt
  update_where-AreDistinct (r ∷ rs) h =
      let e = (keeps r).id in
      (ground (arith, e, exists_row-update r.id rs, h.0), update_where-AreDistinct rs h.1)

pub OutboxChange-AreDistinct :
    {xs ys : List OutboxRow} → OutboxChange xs ys → AreDistinct xs → AreDistinct ys
OutboxChange-AreDistinct (untouched e) h = rw e h
OutboxChange-AreDistinct {xs} (updated p f keeps e) h =
    rw e (update_where-AreDistinct p f keeps xs h)
OutboxChange-AreDistinct {xs} (inserted r new e) h = rw e (insert_row-AreDistinct r xs new h)

-- A job with a row of its own, which says what the job says.
pub record IsNamed (job : OutboxJob) (xs : List OutboxRow) : Type 0 where
  pub present : exists_row (is_job job.id) xs ≡ true
  pub named :
      All
        (λ (r : OutboxRow).
          r.id ≡ job.id → (r.aggregate_id ≡ job.order_id) × (r.event_type ≡ job.event_type))
        xs

insert_row-All :
    {A : Type 0} (P : A → Type 0) (x : A) (xs : List A) → P x → All P xs → All P (insert_row x xs)
insert_row-All P x [] p h = (p, tt)
insert_row-All P x (y ∷ ys) p h = (h.0, insert_row-All P x ys p h.1)

pub OutboxChange-present :
    (id : Text) {xs ys : List OutboxRow}
    → OutboxChange xs ys
    → exists_row (is_job id) xs ≡ true
    → exists_row (is_job id) ys ≡ true
OutboxChange-present id (untouched e) h = rw e h
OutboxChange-present id {xs} (updated p f keeps e) h = rw (e, exists_row-update p f keeps id xs) h
OutboxChange-present id {xs} (inserted r new e) h =
    rw (e, exists_row-insert (is_job id) r xs, h) refl

pub OutboxChange-IsNamed :
    (job : OutboxJob) {xs ys : List OutboxRow}
    → OutboxChange xs ys
    → IsNamed job xs
    → IsNamed job ys
OutboxChange-IsNamed job (untouched e) h = subst (IsNamed job) (sym e) h
OutboxChange-IsNamed job {xs} (updated p f keeps e) h = record {
  present = OutboxChange-present job.id (updated p f keeps e) h.present;
  named = rw e (
      update_where-All _ _ p f (λ r k. k)
        (λ r k i.
          let same_job = keeps r in
          let old = k (ground (arith, same_job.id)) in
          (ground (arith, same_job.aggregate_id), ground (arith, same_job.event_type)))
        xs h.named);
}
OutboxChange-IsNamed job {xs} (inserted r new e) h = record {
  present = OutboxChange-present job.id (inserted r new e) h.present;
  named = rw e (insert_row-All _ r xs (λ i. absurd (ground (arith, h.present))) h.named);
}

-- Distinct identifiers, as the worker's proofs ask for them.
keyed-apart :
    (x : OutboxRow) (xs : List OutboxRow)
    → exists_row (is_job x.id) xs ≡ false
    → All (λ (s : OutboxRow). s.id ≡ x.id → s ≡ x) xs
      × All (λ (r : OutboxRow). x.id ≡ r.id → x ≡ r) xs
keyed-apart x [] h = (tt, tt)
keyed-apart x (y ∷ ys) h =
    let rest = keyed-apart x ys (ground arith) in
    ((λ e. absurd (ground arith), rest.0), (λ e. absurd (ground arith), rest.1))

All-both :
    {A : Type 0} (P Q R : A → Type 0)
    → ((a : A) → P a → Q a → R a)
    → (xs : List A) → All P xs
    → All Q xs
    → All R xs
All-both P Q R both [] h k = tt
All-both P Q R both (x ∷ xs) h k = (both x h.0 k.0, All-both P Q R both xs h.1 k.1)

pub AreDistinct-AreKeyed : (xs : List OutboxRow) → AreDistinct xs → AreKeyed xs
AreDistinct-AreKeyed [] h = tt
AreDistinct-AreKeyed (x ∷ xs) h =
    let apart = keyed-apart x xs h.0 in
    (
      (λ e. refl, apart.0),
      All-both _ _ _ (λ r first rest. (first, rest)) xs apart.1 (AreDistinct-AreKeyed xs h.1),
    )
