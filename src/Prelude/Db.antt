-- ===== src/Prelude/Db.antt =====
-- Calls of Postgres and of one Postgres transaction. The server is not part of the repository:
-- what it does at a failure is chosen by a `Conn`, one for each transaction, as PostgreSQL
-- documents it. A statement may fail and the transaction is rolled back; a COMMIT may take effect,
-- fail before it takes effect, or take effect while its acknowledgement is lost (SQLSTATE 08007,
-- transaction_resolution_unknown).
use neo_bank.Prelude.Tests.{if◌then◌else◌}
use Prim.Native.Nat.{ℕ}
use mathlib.Core.Path.{◌≡◌, refl}
use mathlib.Core.Bool.{Bool, true, false}
use mathlib.Core.Logic.{◌⊎◌}

-- The errors that the Go functions return.
pub data Failure : Type 0 where
  connection out_of_range unique_violation no_rows invalid_text remote_call malformed : Failure

-- The pair of a value and an error that a Go function returns, one of them nil.
pub data Result {ℓ} (V : Type ℓ) : Type ℓ where
  err : Failure → Result V
  ok : V → Result V

-- `if err != nil { return ..., err }` after a call, whose value the rest uses or not.
infixl 5 ◌>>=◌ ◌>>◌
abbrev pub ◌>>=◌ {κ ℓ} : {V : Type κ} {W : Type ℓ} → Result V → (V → Result W) → Result W
err failure >>= rest = err failure
ok value >>= rest = rest value

abbrev pub ◌>>◌ {κ} : {W : Type κ} → Result (Unit {0}) → Result W → Result W
call >> rest = call >>= λ nothing. rest

pub data CommitFate : Type 0 where
  committed rolled_back ack_lost : CommitFate

pub record Conn : Type 0 where
  pub fails : ℕ → Bool
  pub commit_fate : CommitFate

-- The k-th statement of a transaction; BEGIN is number 0.
abbrev pub stmt {ℓ} : {A : Type ℓ} → Conn → ℕ → Result A → Result A
stmt c k m = if c.fails k then err connection else m

abbrev pub begin : Conn → Result (Unit {0})
begin c = stmt c 0 (ok tt)

-- How the Go function leaves the block that began the transaction: by a return before Commit
-- (the deferred Rollback undoes all), or by Commit.
pub data Work (S A : Type 0) : Type 0 where
  roll_back : A → Work S A
  write : A → S → Work S A

module _ {S A : Type 0} where
  abbrev pub commit : CommitFate → S → S → A → Result A × S
  commit committed before after a = (ok a, after)
  commit rolled_back before after a = (err connection, before)
  commit ack_lost before after a = (err connection, after)

  abbrev pub transaction : Conn → S → Result (Work S A) → Result A × S
  transaction c before (err e) = (err e, before)
  transaction c before (ok (roll_back a)) = (ok a, before)
  transaction c before (ok (write a after)) = commit c.commit_fate before after a

-- A connection on which nothing fails.
abbrev pub good : Conn
good = record { fails = λ _. false; commit_fate = committed }

-- COMMIT answers truly: never applied with its acknowledgement lost.
abbrev pub Acknowledged : Conn → Type 0
Acknowledged c = (c.commit_fate ≡ committed) ⊎ (c.commit_fate ≡ rolled_back)

-- A call that succeeds has a property.
abbrev pub OnOk : {A : Type 0} → (A → Type 0) → Result A → Type 0
OnOk P (ok a) = P a
OnOk P (err e) = Unit {0}

-- The rule for one more step.
pub OnOk-bind :
    {A B : Type 0} (Q : B → Type 0) (m : Result A) (f : A → Result B)
    → ((a : A) → m ≡ ok a → OnOk Q (f a))
    → OnOk Q (m >>= f)
OnOk-bind Q (ok a) f k = k a refl
OnOk-bind Q (err e) f k = tt

pub OnOk-apply : {A : Type 0} (P : A → Type 0) (m : Result A) {a : A} → OnOk P m → m ≡ ok a → P a
OnOk-apply P m h e = rw e at h

pub OnOk-stmt :
    {A : Type 0} (P : A → Type 0) (c : Conn) (k : ℕ) (m : Result A) → OnOk P m → OnOk P (stmt c k m)
OnOk-stmt P c k m h = elim (c.fails k) as (λ b. OnOk P (if b then err connection else m)) [
  | true ↦ tt
  | false ↦ h
]

pub OnOk-step :
    {A B : Type 0} (Q : B → Type 0) (c : Conn) (k : ℕ) (m : Result A) (f : A → Result B)
    → ((a : A) → m ≡ ok a → OnOk Q (f a))
    → OnOk Q (stmt c k m >>= f)
OnOk-step Q c k m f h =
    elim (c.fails k) as (λ b. OnOk Q ((if b then err connection else m) >>= f)) [
      | true ↦ tt
      | false ↦ OnOk-bind Q m f h
    ]

pub OnOk-map :
    {A : Type 0} (P Q : A → Type 0) (m : Result A) → ((a : A) → P a → Q a) → OnOk P m → OnOk Q m
OnOk-map P Q (ok a) k h = k a h
OnOk-map P Q (err e) k h = tt
