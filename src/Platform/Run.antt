-- ===== src/Platform/Run.antt =====
-- How an operation of the platform's repository meets its environment, and its transactions
-- (internal/shared/postgres/postgres.go, internal/shared/uuid/uuid.go).
use avito_kitchen.Base.{◌≡◌, false, arith, ℕ, none, some, Text}
use avito_kitchen.Platform.Store.{
  Db, Env, Fault, RepoError, internal, generate_uuid, invalid_uuid, begin_transaction,
  commit_transaction,
}
use avito_kitchen.Shared.Transaction.{
  Result, ok, err, refuse, Outcome, within_transaction, within_transaction-ok,
  within_transaction-commits,
}

abbrev pub Tx : Type 0 → Type 0
Tx A = Result RepoError (A × Db)

-- `if err != nil { return fmt.Errorf(…) }` after a statement.
abbrev pub run : Env → Fault → Result RepoError (Unit {0})
run env f = refuse (env.fails f) (internal f)

-- The n-th `shareduuid.New()` of an operation.
abbrev pub new_uuid : Env → ℕ → Result RepoError Text
new_uuid env n = elim (env.uuid n) [ none ↦ err (internal generate_uuid) | some id ↦ ok id ]

-- A text parameter that a statement reads as a `uuid`.
abbrev pub cast_uuid : Env → Text → Result RepoError Text
cast_uuid env t = elim (env.uuid_in t) [ none ↦ err (internal invalid_uuid) | some id ↦ ok id ]

-- `r.transactor.WithinTransaction`.
unfoldable pub transaction : {A : Type 0} → Env → (Db → Tx A) → Db → Outcome RepoError A Db
unfolding within_transaction
transaction env operation db =
    within_transaction (env.fails begin_transaction) (internal begin_transaction)
      (env.fails commit_transaction) (internal commit_transaction) operation db

-- What an operation returns, its transaction returns, with the database that it reached.
pub transaction-ok :
    {A : Type 0} (env : Env) (operation : Db → Tx A) (db : Db) (a : A)
    → (transaction env operation db).result ≡ ok a
    → operation db ≡ ok (a, (transaction env operation db).db)
unfolding transaction
transaction-ok env operation db a h = within_transaction-ok _ _ _ _ operation db a h

pub transaction-commits :
    {A : Type 0} (env : Env) (operation : Db → Tx A) (db : Db) (a : A) (db' : Db)
    → ((f : Fault) → env.fails f ≡ false)
    → operation db ≡ ok (a, db')
    → transaction env operation db ≡ record { result = ok a; db = db' }
unfolding transaction
transaction-commits env operation db a db' smooth h =
    within_transaction-commits _ _ _ _ operation db a db' (smooth begin_transaction)
      (smooth commit_transaction) h

pub transaction-fails :
    {A : Type 0} (env : Env) (operation : Db → Tx A) (db : Db) (e : RepoError)
    → ((f : Fault) → env.fails f ≡ false)
    → operation db ≡ err e
    → transaction env operation db ≡ record { result = err e; db = db }
unfolding transaction within_transaction
transaction-fails env operation db e smooth h =
    ground (arith, smooth begin_transaction, smooth commit_transaction)
