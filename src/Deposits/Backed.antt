-- ===== src/Deposits/Backed.antt =====
-- Crediting (deposit_reconcile.go) and the ledger's transactions under the deposits' ids.
use neo_bank.Prelude.{
  ℕ, ◌≡◌, refl, ◌⊎◌, inl, inr, Bool, true, false, ◌==◌, if◌then◌else◌, List, [], ◌∷◌, Option, none,
  some, arith, All, update,
}
use neo_bank.Prelude.Int.{ℤ}
use neo_bank.Prelude.Db.{
  Result, ok, err, OnOk, OnOk-bind, OnOk-step, OnOk-stmt, Conn, begin, Work, roll_back, write,
  transaction, CommitFate, committed, rolled_back, ack_lost, commit,
}
use neo_bank.Prelude.Rpc.{
  Reply, reply, status, Network, delivered, request_lost, reply_lost, remote,
}
use neo_bank.Prelude.Members.{All-map}
use neo_bank.Ledger.State.{LedgerDb, Entry, Ids, transaction_of_reference}
use neo_bank.Ledger.Post.{
  DepositOutcome, deposit, post_unchecked_transfer, credit_entry, debit_entry, genesis_account_id,
}
use neo_bank.Ledger.Server.{deposit_status, serve_deposit}
use neo_bank.Ledger.Unchecked.{
  PostsUnchecked, Deposited, invalid, replayed, no_account, failed, posted, unacknowledged,
  post_unchecked_transfer-Deposited,
}
use neo_bank.Ledger.Effects.{reference-Moved}
use neo_bank.Outbox.State.{Draw}
use neo_bank.Transfers.State.{Deposit, DepositStatus, TransfersDb}
use neo_bank.Transfers.Settle.{Bank}
use neo_bank.Deposits.Rows.{
  is_succeeded_deposit, credit, mark_deposit_credited_if_succeeded, queue_credited, exec_update,
}
use neo_bank.Deposits.Credit.{Crediting, credit_deposit, mark_credited, credit_each}

abbrev pub is_credited : DepositStatus → Bool
is_credited DepositStatus.credited = true
is_credited DepositStatus.pending = false
is_credited DepositStatus.succeeded = false
is_credited DepositStatus.failed = false
is_credited DepositStatus.refunded = false

-- The deposit is not credited, or the log holds its transaction under its id.
abbrev pub IsBackedBy : List Entry → Deposit → Type 0
IsBackedBy es d =
    (is_credited d.status ≡ false)
    ⊎ ((l : ℕ) × (d.ledger_transaction_id ≡ some l) × (transaction_of_reference d.id es ≡ some l))

abbrev pub IsBacked : Bank → Type 0
IsBacked b = All (IsBackedBy b.ledger.entries) b.service.deposits

pub update-All :
    {A : Type 0} (P : A → Type 0) (p : A → Bool) (change : A → A)
    → ((a : A) → p a ≡ true → P (change a))
    → (xs : List A) → All P xs
    → All P (update p change xs)
update-All P p change h [] x = tt
update-All P p change h (a ∷ xs) x = (by_row (p a) (h a), update-All P p change h xs x.1)
  where
    by_row : (b : Bool) → (b ≡ true → P (change a)) → P (if b then change a else a)
    by_row true g = g refl
    by_row false g = x.0

-- The service's side of a transaction.
abbrev pub BackedWork : {A : Type 0} → List Entry → Work TransfersDb A → Type 0
BackedWork es (roll_back a) = Unit {0}
BackedWork es (write a db) = All (IsBackedBy es) db.deposits

pub transaction-Backed :
    {A : Type 0} (es : List Entry) (c : Conn) (db : TransfersDb) (w : Result (Work TransfersDb A))
    → All (IsBackedBy es) db.deposits
    → OnOk (BackedWork es) w
    → All (IsBackedBy es) (transaction c db w).1.deposits
transaction-Backed es c db (err e) a h = a
transaction-Backed es c db (ok (roll_back x)) a h = a
transaction-Backed es c db (ok (write x db')) a h = by_fate c.commit_fate
  where
    by_fate : (f : CommitFate) → All (IsBackedBy es) (commit f db db' x).1.deposits
    by_fate committed = h
    by_fate rolled_back = a
    by_fate ack_lost = h

pub exec_update-Backed :
    (es : List Entry) (c : Conn) (p : Deposit → Bool) (change : Deposit → Deposit)
    (db : TransfersDb)
    → ((d : Deposit) → p d ≡ true → IsBackedBy es (change d))
    → All (IsBackedBy es) db.deposits
    → All (IsBackedBy es) (exec_update c p change db).1.deposits
exec_update-Backed es c p change db h a =
    transaction-Backed es c db _ a
      (OnOk-stmt (BackedWork es) c 0 _ (update-All (IsBackedBy es) p change h db.deposits a))

module _ (ids : Ids) (now from to : ℕ) (amount : ℤ) (ref : ℕ) (db : LedgerDb) where
  keeps_reference :
      (db' : LedgerDb) (r t : ℕ)
      → PostsUnchecked ids now from to amount (some ref) db db'
      → transaction_of_reference r db.entries ≡ some t
      → transaction_of_reference r db'.entries ≡ some t
  unfolding transaction_of_reference credit_entry debit_entry
  keeps_reference db' r t p k = rw p.moved.entries (by_reference (ref == r) refl)
    where
      by_reference :
          (b : Bool)
          → (ref == r) ≡ b
          → (if b
              then some ids.transaction
              else if b
              then some ids.transaction
              else transaction_of_reference r db.entries)
            ≡ some t
      by_reference true e = let same : ref ≡ r = ground arith in cc (p.fresh, same, k)
      by_reference false e = k

  keeps_backed :
      (db' : LedgerDb)
      → PostsUnchecked ids now from to amount (some ref) db db'
      → (d : Deposit) → IsBackedBy db.entries d
      → IsBackedBy db'.entries d
  keeps_backed db' p d (inl e) = inl e
  keeps_backed db' p d (inr (l, e, k)) = inr (l, e, keeps_reference db' d.id l p k)

abbrev OnReply : {A : Type 0} → (A → Type 0) → Reply A → Type 0
OnReply P (reply a) = P a
OnReply P (status code) = Unit {0}

-- What a client of Deposit or ReverseDeposit may rely on: what was backed still is, and a reply
-- names the transaction that the log now holds under the reference.
abbrev pub IsAnswered : ℕ → LedgerDb → Reply (Option ℕ) × LedgerDb → Type 0
IsAnswered ref db q =
    ((d : Deposit) → IsBackedBy db.entries d → IsBackedBy q.1.entries d)
    × OnReply (λ o. (t : ℕ) × (o ≡ some t) × (transaction_of_reference ref q.1.entries ≡ some t))
        q.0

module _ (ids : Ids) (now from to : ℕ) (amount : ℤ) (ref : ℕ) (db : LedgerDb) where
  Deposited-IsAnswered :
      (f : CommitFate) {r : Result (Option ℕ × DepositOutcome) × LedgerDb}
      → Deposited ids now from to amount (some ref) db f r
      → IsAnswered ref db (deposit_status r.0, r.1)
  Deposited-IsAnswered f (invalid h) = (λ d b. b, tt)
  Deposited-IsAnswered f (replayed t h) = (λ d b. b, (t, refl, h))
  Deposited-IsAnswered f (no_account a h) = (λ d b. b, tt)
  Deposited-IsAnswered f (failed e) = (λ d b. b, tt)
  Deposited-IsAnswered f (posted db' p) = (
    keeps_backed ids now from to amount ref db db' p,
    (ids.transaction, refl, reference-Moved ids now p.l p.l' amount ref db db' p.moved),
  )
  Deposited-IsAnswered f (unacknowledged db' p e) =
      (keeps_backed ids now from to amount ref db db' p, tt)

  pub remote-IsAnswered :
      (c : Conn) (n : Network)
      → IsAnswered ref db (
          remote n
            (λ l.
              let (r, l') = post_unchecked_transfer c ids now from to amount (some ref) l in
              (deposit_status r, l'))
            db)
  remote-IsAnswered c delivered =
      Deposited-IsAnswered c.commit_fate
        (post_unchecked_transfer-Deposited ids now from to amount (some ref) db c)
  remote-IsAnswered c (request_lost t) = (λ d b. b, tt)
  remote-IsAnswered c (reply_lost t) = (
    (Deposited-IsAnswered c.commit_fate
        (post_unchecked_transfer-Deposited ids now from to amount (some ref) db c)).0,
    tt,
  )

mark_credited-Backed :
    (es : List Entry) (c : Conn) (draw : Draw) (id t : ℕ) (db : TransfersDb)
    → transaction_of_reference id es ≡ some t
    → All (IsBackedBy es) db.deposits
    → All (IsBackedBy es) (mark_deposit_credited_if_succeeded c draw id (some t) db).1.deposits
unfolding mark_deposit_credited_if_succeeded
mark_credited-Backed es c draw id t db k a =
    transaction-Backed es c db _ a (
      OnOk-bind (BackedWork es) (begin c) _
        λ _ _. OnOk-step (BackedWork es) c 1 _ _ λ o _. queued o)
  where
    by_id : (d : Deposit) → is_succeeded_deposit id d ≡ true → d.id ≡ id
    by_id d p = ground arith

    queued : (o : Option Deposit) → OnOk (BackedWork es) (queue_credited c draw id t db o)
    queued none = tt
    queued (some d) = OnOk-step (BackedWork es) c 2 (ok tt) _ λ _ _.
        OnOk-step (BackedWork es) c 3 (ok tt) _ λ _ _.
          update-All (IsBackedBy es) (is_succeeded_deposit id) (credit draw.now t)
            (λ d' p. inr (t, refl, rw (by_id d' p) k)) db.deposits a

-- Crediting one deposit keeps every credited deposit on the ledger.
credit_deposit-IsBacked :
    (x : Crediting) (d : Deposit) (b : Bank) → IsBacked b → IsBacked (credit_deposit x d b)
unfolding credit_deposit serve_deposit deposit
credit_deposit-IsBacked x d b a = by_reply _ (
    remote-IsAnswered x.execution.ids x.execution.now genesis_account_id d.account_id d.amount d.id
      b.ledger x.execution.conn x.network)
  where
    by_reply :
        (q : Reply (Option ℕ) × LedgerDb)
        → IsAnswered d.id b.ledger q
        → IsBacked (mark_credited x d b.service q)
    by_reply (status code, l) h = All-map _ _ h.0 b.service.deposits a
    by_reply (reply o, l) h =
        let kept = All-map _ (IsBackedBy l.entries) h.0 b.service.deposits a in
        rw (h.1.1) (mark_credited-Backed l.entries x.conn x.draw d.id h.1.0 b.service h.1.2 kept)

pub credit_each-IsBacked :
    (f : Deposit → Crediting) (ds : List Deposit) (b : Bank)
    → IsBacked b
    → IsBacked (credit_each f ds b)
unfolding credit_each
credit_each-IsBacked f [] b a = a
credit_each-IsBacked f (d ∷ ds) b a =
    credit_each-IsBacked f ds _ (credit_deposit-IsBacked (f d) d b a)
