-- ===== src/Transfers/Served.antt =====
-- createTransfer (transfer.go): the ways in which a call ends.
use neo_bank.Prelude.{
  ℕ, ◌≡◌, refl, ◌⊎◌, inl, inr, Bool, true, false, ◌==◌, ◌||◌, not, if◌then◌else◌, Option, none,
  some, arith, ◌∷◌, find, exists, ◌∙◌, ap,
}
use neo_bank.Prelude.Int.{eqb_ℤ}
use neo_bank.Prelude.Db.{
  Failure, connection, Result, ok, err, unique_violation, ◌>>=◌, Conn, write, transaction,
  CommitFate, committed, rolled_back, ack_lost, commit, OnOk,
}
use neo_bank.Prelude.Rpc.{Reply, reply, status}
use neo_bank.Transfers.State.{Transfer, TransfersDb}
use neo_bank.Transfers.Create.{
  AccountStatus, AccountsClient, CreateTransferOutcome, create_transfer_ok,
  create_transfer_replayed, create_transfer_key_reused, Created, TransferRequest, Insertion,
  has_key, get_transfer_by_idempotency_key, reconcile_replay, Check, refused, accepted,
  new_transfer, insert_transfer, after_insert, after_check, after_lookup, after_winner,
  create_transfer, replayed_recipient,
}
use neo_bank.Transfers.Admits.{Admits, Matches, IsAdmitted, check_request-IsAdmitted}

module _ (c : Conn) (i : Insertion) (accounts : AccountsClient) (r : TransferRequest)
    (db : TransfersDb) where
  abbrev pub seen : TransfersDb
  seen = i.meanwhile db

  -- Nothing of this request was written: the tables are as before it, or as the others left them.
  abbrev pub IsUnwritten : TransfersDb → Type 0
  IsUnwritten db' = (db' ≡ db) ⊎ (db' ≡ seen)

  abbrev pub with_row : ℕ → TransfersDb
  with_row recipient = record seen { transfers = new_transfer i r recipient ∷ seen.transfers }

  pub data Served : Result Created × TransfersDb → Type 0 where
    errored : (e : Failure) (db' : TransfersDb) → IsUnwritten db' → Served (err e, db')
    refuses :
        (o : CreateTransferOutcome) (db' : TransfersDb)
        → IsUnwritten db'
        → Served (ok (none, o), db')
    replays :
        (t : Transfer) (db' : TransfersDb)
        → IsUnwritten db'
        → find (has_key r.idempotency_key) db'.transfers ≡ some t
        → Matches accounts r t
        → Served (ok (some t, create_transfer_replayed), db')
    inserts :
        (recipient : ℕ)
        → Admits accounts r recipient
        → exists (has_key r.idempotency_key) seen.transfers ≡ false
        → Served (ok (some (new_transfer i r recipient), create_transfer_ok), with_row recipient)
    unacknowledged :
        (recipient : ℕ)
        → Admits accounts r recipient
        → exists (has_key r.idempotency_key) seen.transfers ≡ false
        → i.conn.commit_fate ≡ ack_lost
        → Served (err connection, with_row recipient)

  pub replay-Served :
      (t : Transfer) (db' : TransfersDb)
      → IsUnwritten db'
      → find (has_key r.idempotency_key) db'.transfers ≡ some t
      → Served (reconcile_replay accounts t r, db')
  unfolding reconcile_replay
  replay-Served t db' w f =
      by_fields (t.sender_account_id == r.sender_account_id) (eqb_ℤ t.amount r.amount)
        (accounts.resolve_account_by_iban r.recipient_iban r.user_id) refl refl refl
    where
      by_recipient :
          (recipient : ℕ) (s : AccountStatus) (b : Bool)
          → t.sender_account_id ≡ r.sender_account_id
          → t.amount ≡ r.amount
          → accounts.resolve_account_by_iban r.recipient_iban r.user_id ≡ reply (recipient, s)
          → (recipient == t.recipient_account_id) ≡ b
          → Served (
            if b
                then ok (some t, create_transfer_replayed)
                else ok (none, create_transfer_key_reused),
            db',
          )
      by_recipient recipient s true g h e q = replays t db' w f (record {
        same_sender = g;
        same_amount = h;
        recipient_status = s;
        resolves = e ∙ ap (λ x. reply (x, s)) (ground arith);
      })
      by_recipient recipient s false g h e q = refuses _ db' w

      by_fields :
          (same_sender same_amount : Bool) (q : Reply (ℕ × AccountStatus))
          → (t.sender_account_id == r.sender_account_id) ≡ same_sender
          → eqb_ℤ t.amount r.amount ≡ same_amount
          → accounts.resolve_account_by_iban r.recipient_iban r.user_id ≡ q
          → Served (
            if not same_sender || not same_amount
                then ok (none, create_transfer_key_reused)
                else replayed_recipient t q,
            db',
          )
      by_fields false a q g h e = refuses _ db' w
      by_fields true false q g h e = refuses _ db' w
      by_fields true true (status code) g h e = errored _ db' w
      by_fields true true (reply (recipient, s)) g h e =
          by_recipient recipient s (recipient == t.recipient_account_id) (ground arith)
            (ground arith) e refl

  after_winner-Served :
      Served (
        get_transfer_by_idempotency_key c 1 r.idempotency_key seen >>= after_winner accounts r,
        seen,
      )
  unfolding get_transfer_by_idempotency_key
  after_winner-Served =
      by_failure (c.fails 1) (find (has_key r.idempotency_key) seen.transfers) refl
    where
      by_failure :
          (b : Bool) (o : Option Transfer)
          → find (has_key r.idempotency_key) seen.transfers ≡ o
          → Served ((if b then err connection else ok o) >>= after_winner accounts r, seen)
      by_failure true o f = errored _ seen (inr refl)
      by_failure false none f = errored _ seen (inr refl)
      by_failure false (some t) f = replay-Served t seen (inr refl) f

  insert-Served :
      (recipient : ℕ)
      → Admits accounts r recipient
      → Served (after_insert c accounts r (insert_transfer i r recipient seen))
  unfolding insert_transfer
  insert-Served recipient a =
      by_failure (i.conn.fails 0) (exists (has_key r.idempotency_key) seen.transfers) refl
    where
      by_fate :
          (f : CommitFate)
          → i.conn.commit_fate ≡ f
          → exists (has_key r.idempotency_key) seen.transfers ≡ false
          → Served (
              after_insert c accounts r
                (commit f seen (with_row recipient) (new_transfer i r recipient)))
      by_fate committed g e = inserts recipient a e
      by_fate rolled_back g e = errored connection seen (inr refl)
      by_fate ack_lost g e = unacknowledged recipient a e g

      by_failure :
          (b taken : Bool)
          → exists (has_key r.idempotency_key) seen.transfers ≡ taken
          → Served (
              after_insert c accounts r (
                transaction i.conn seen (
                  if b
                  then err connection
                  else if taken
                  then err unique_violation
                  else ok (write (new_transfer i r recipient) (with_row recipient)))))
      by_failure true taken e = errored connection seen (inr refl)
      by_failure false true e = after_winner-Served
      by_failure false false e = by_fate i.conn.commit_fate refl e

  after_check-Served :
      (k : Result Check) → OnOk (IsAdmitted accounts r) k → Served (after_check c i accounts r db k)
  after_check-Served (err e) a = errored e db (inl refl)
  after_check-Served (ok (refused o)) a = refuses o db (inl refl)
  after_check-Served (ok (accepted recipient)) a = insert-Served recipient a

  pub create_transfer-Served : Served (create_transfer c i accounts r db)
  unfolding create_transfer get_transfer_by_idempotency_key
  create_transfer-Served =
      by_failure (c.fails 0) (find (has_key r.idempotency_key) db.transfers) refl
    where
      by_failure :
          (b : Bool) (o : Option Transfer)
          → find (has_key r.idempotency_key) db.transfers ≡ o
          → Served (after_lookup c i accounts r db (if b then err connection else ok o))
      by_failure true o f = errored connection db (inl refl)
      by_failure false none f = after_check-Served _ (check_request-IsAdmitted accounts r)
      by_failure false (some t) f = replay-Served t db (inl refl) f
