-- ===== src/Shared/Transaction.antt =====
-- Results of fallible code, and the transactions of internal/shared/postgres/postgres.go.
use avito_kitchen.Base.{Bool, true, false, ◌≡◌, refl, ◌⊎◌, inl, inr}

-- A Go pair `(value, error)`, one of the two.
pub data Result {ℓ κ} (E : Type ℓ) (A : Type κ) : Type (ℓ ⊔ κ) where
  ok : A → Result E A
  err : E → Result E A

infixl 5 ◌>>=◌ ◌>>◌
abbrev pub ◌>>=◌ {ℓ κ ι} :
    {E : Type ℓ} {A : Type κ} {B : Type ι} → Result E A → (A → Result E B) → Result E B
ok a >>= f = f a
err e >>= f = err e

abbrev pub ◌>>◌ {ℓ κ} : {E : Type ℓ} {B : Type κ} → Result E (Unit {0}) → Result E B → Result E B
m >> k = m >>= λ _. k

-- `if !c { return e }`.
abbrev pub guard {ℓ} : {E : Type ℓ} → Bool → E → Result E (Unit {0})
guard true e = ok tt
guard false e = err e

-- `if c { return e }`.
abbrev pub refuse {ℓ} : {E : Type ℓ} → Bool → E → Result E (Unit {0})
refuse true e = err e
refuse false e = ok tt

-- What a finished operation leaves: the database, and what was returned.
pub record Outcome {ℓ κ ι} (E : Type ℓ) (A : Type κ) (Db : Type ι) : Type (ℓ ⊔ κ ⊔ ι) where
  pub result : Result E A
  pub db : Db

-- The end of `withinTransaction`: roll back on an error of the operation or of the commit.
abbrev pub finish {ℓ κ ι} :
    {E : Type ℓ} {A : Type κ} {Db : Type ι} → Bool → E → Db → Result E (A × Db) → Outcome E A Db
finish commit_fails commit_error db (err e) = record { result = err e; db = db }
finish true commit_error db (ok (a, db')) = record { result = err commit_error; db = db }
finish false commit_error db (ok (a, db')) = record { result = ok a; db = db' }

-- `(*Pool).withinTransaction`. Whether the server fails at `begin` or at `commit` is given.
unfoldable pub within_transaction {ℓ κ ι} :
    {E : Type ℓ} {A : Type κ} {Db : Type ι}
    → Bool
    → E
    → Bool
    → E
    → (Db → Result E (A × Db))
    → Db
    → Outcome E A Db
within_transaction begin_fails begin_error commit_fails commit_error operation db =
    elim begin_fails [
      | true ↦ record { result = err begin_error; db = db }
      | false ↦ finish commit_fails commit_error db (operation db)
    ]

module _ {ℓ κ ι μ} {E : Type ℓ} {A : Type κ} {Db : Type ι} (P : Db → Type μ) where
  finish_keeps :
      (b : Bool) (e : E) (db : Db) (r : Result E (A × Db))
      → P db
      → ((a : A) (db' : Db) → r ≡ ok (a, db') → P db')
      → P (finish b e db r).db
  finish_keeps b e db (err x) h keep = h
  finish_keeps true e db (ok (a, db')) h keep = h
  finish_keeps false e db (ok (a, db')) h keep = keep a db' refl

  -- A transaction keeps what each of its successful runs keeps.
  pub within_transaction_keeps :
      (b c : Bool) (d e : E) (operation : Db → Result E (A × Db)) (db : Db)
      → P db
      → ((a : A) (db' : Db) → operation db ≡ ok (a, db') → P db')
      → P (within_transaction b d c e operation db).db
  unfolding within_transaction
  within_transaction_keeps true c d e operation db h keep = h
  within_transaction_keeps false c d e operation db h keep =
      finish_keeps c e db (operation db) h keep

pub Result-cases {ℓ κ} :
    {E : Type ℓ} {A : Type κ} (m : Result E A) → ((a : A) × (m ≡ ok a)) ⊎ ((e : E) × (m ≡ err e))
Result-cases (ok a) = inl (a, refl)
Result-cases (err e) = inr (e, refl)

module _ {ℓ κ ι} {E : Type ℓ} {A : Type κ} {Db : Type ι} where
  finish-ok :
      (c : Bool) (e : E) (db : Db) (r : Result E (A × Db)) (a : A)
      → (finish c e db r).result ≡ ok a
      → r ≡ ok (a, (finish c e db r).db)
  finish-ok c e db (err x) a h = cc
  finish-ok true e db (ok (b, db')) a h = cc
  finish-ok false e db (ok (b, db')) a h = cc

  -- A transaction that returns a value has run its operation to the end.
  pub within_transaction-ok :
      (b c : Bool) (d e : E) (operation : Db → Result E (A × Db)) (db : Db) (a : A)
      → (within_transaction b d c e operation db).result ≡ ok a
      → operation db ≡ ok (a, (within_transaction b d c e operation db).db)
  unfolding within_transaction
  within_transaction-ok true c d e operation db a h = cc
  within_transaction-ok false c d e operation db a h = finish-ok c e db (operation db) a h

  finish-commits :
      (c : Bool) (e : E) (db : Db) (r : Result E (A × Db)) (a : A) (db' : Db)
      → c ≡ false
      → r ≡ ok (a, db')
      → finish c e db r ≡ record { result = ok a; db = db' }
  finish-commits true e db r a db' h g = cc
  finish-commits false e db (err x) a db' h g = cc
  finish-commits false e db (ok (b, db'')) a db' h g = cc

  -- A transaction whose server does not fail commits what its operation gives.
  pub within_transaction-commits :
      (b c : Bool) (d e : E) (operation : Db → Result E (A × Db)) (db : Db) (a : A) (db' : Db)
      → b ≡ false
      → c ≡ false
      → operation db ≡ ok (a, db')
      → within_transaction b d c e operation db ≡ record { result = ok a; db = db' }
  unfolding within_transaction
  within_transaction-commits true c d e operation db a db' h g k = cc
  within_transaction-commits false c d e operation db a db' h g k =
      finish-commits c e db (operation db) a db' g k
