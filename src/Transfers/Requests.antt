-- ===== src/Transfers/Requests.antt =====
-- createTransfer (transfer.go): created transfers, idempotency keys, and requests sent again.
use neo_bank.Prelude.{ℕ, ◌≡◌, refl, false, some, arith, find, exists}
use neo_bank.Prelude.Db.{Result, ok, Conn, good}
use neo_bank.Transfers.State.{Transfer, TransfersDb}
use neo_bank.Transfers.Create.{
  AccountsClient, create_transfer_ok, create_transfer_replayed, Created, TransferRequest, Insertion,
  has_key, get_transfer_by_idempotency_key, reconcile_replay, new_transfer, create_transfer,
}
use neo_bank.Transfers.Admits.{Admits, Matches}
use neo_bank.Transfers.Served.{
  Served, errored, refuses, replays, inserts, unacknowledged, create_transfer-Served, with_row,
}

module _ (c : Conn) (i : Insertion) (accounts : AccountsClient) (r : TransferRequest)
    (db : TransfersDb) where
  abbrev called : Result Created × TransfersDb
  called = create_transfer c i accounts r db

  -- A created transfer: the request was admitted, the row is pending with the request's fields, and
  -- it was added to what the tables held, where its key was free.
  pub record Creates (t : Transfer) (db' : TransfersDb) : Type 0 where
    pub recipient : ℕ
    pub admits : Admits accounts r recipient
    pub row : t ≡ new_transfer i r recipient
    pub table : db' ≡ with_row c i accounts r db recipient
    pub free : exists (has_key r.idempotency_key) (i.meanwhile db).transfers ≡ false

  Served-Creates :
      {x : Result Created × TransfersDb} (t : Transfer)
      → Served c i accounts r db x
      → x.0 ≡ ok (some t, create_transfer_ok)
      → Creates t x.1
  Served-Creates t (errored e db' w) q = cc
  Served-Creates t (refuses o db' w) q = cc
  Served-Creates t (replays u db' w f m) q = cc
  Served-Creates t (inserts recipient a e) q = record {
    recipient = recipient;
    admits = a;
    row = cc;
    table = refl;
    free = e;
  }
  Served-Creates t (unacknowledged recipient a e g) q = cc

  -- If createTransfer reports a new transfer, the amount was positive, the IBAN resolved to another
  -- account than the sender's that is not closed, the sender's account was active, the key was
  -- free, and the tables gained exactly the pending row with the request's fields.
  pub create_transfer-Creates :
      {t : Transfer} → called.0 ≡ ok (some t, create_transfer_ok) → Creates t called.1
  create_transfer-Creates {t} = Served-Creates t (create_transfer-Served c i accounts r db)

  Creates-Matches : (t : Transfer) (db' : TransfersDb) → Creates t db' → Matches accounts r t
  Creates-Matches t db' k = rw k.row (record {
    same_sender = refl;
    same_amount = refl;
    recipient_status = k.admits.recipient_status;
    resolves = k.admits.resolves;
  })

  Creates-found :
      (t : Transfer) (db' : TransfersDb)
      → Creates t db'
      → find (has_key r.idempotency_key) db'.transfers ≡ some t
  Creates-found t db' k = rw (k.table, k.row) (ground arith)

replay_smooth :
    (j : Insertion) (accounts : AccountsClient) (r : TransferRequest) (db : TransfersDb)
    (t : Transfer)
    → find (has_key r.idempotency_key) db.transfers ≡ some t
    → Matches accounts r t
    → create_transfer good j accounts r db ≡ (ok (some t, create_transfer_replayed), db)
unfolding create_transfer get_transfer_by_idempotency_key reconcile_replay
replay_smooth j accounts r db t f m =
    rw (f, m.same_sender, m.same_amount, m.resolves) (ground arith)

module _ (c : Conn) (i : Insertion) (accounts : AccountsClient) (r : TransferRequest)
    (db : TransfersDb) where
  -- The request sent again after it created a transfer, while accounts-svc resolves the IBAN as
  -- before and nothing fails: the answer is that transfer, as a replay, and nothing is written.
  pub create_transfer_again :
      (j : Insertion) {t : Transfer}
      → (create_transfer c i accounts r db).0 ≡ ok (some t, create_transfer_ok)
      → let db' = (create_transfer c i accounts r db).1 in
        create_transfer good j accounts r db' ≡ (ok (some t, create_transfer_replayed), db')
  create_transfer_again j {t} e =
      let k = create_transfer-Creates c i accounts r db e in
      replay_smooth j accounts r _ t (Creates-found c i accounts r db t _ k)
        (Creates-Matches c i accounts r db t _ k)
