-- ===== src/Transfers/FailClosed.antt =====
-- createTransferHandler (http.go) and the ledger.
use neo_bank.Prelude.{arith, ◌≡◌, refl, ◌⊎◌, inl, inr, ℕ, List, Option, none, some}
use neo_bank.Prelude.Int.{ℤ}
use neo_bank.Prelude.Db.{Result, ok, err}
use neo_bank.Prelude.Rpc.{Reply, reply, status}
use neo_bank.Ledger.State.{LedgerDb}
use neo_bank.Transfers.State.{Transfer, TransfersDb}
use neo_bank.Transfers.Create.{CreateTransferOutcome, Created}
use neo_bank.Transfers.Settle.{
  Bank, SettlementOutcome, settlement_completed, settlement_failed, settlement_uncertain, Decision,
  approve, reject, other, rejected_as, check_transfer_fraud,
}
use neo_bank.Ledger.Execute.{Posts}
use neo_bank.Transfers.Handler.{
  Response, HttpRequest, Serving, create_transfer_handler, handle_key, handle_sender, handle_body,
  respond_created, respond_new, respond_checked, respond_settled, resolve_sender_account_id,
  sender_of,
}
use neo_bank.Transfers.Admits.{Admits}
use neo_bank.Transfers.Served.{
  Served, errored, refuses, replays, inserts, unacknowledged, create_transfer-Served,
}
use neo_bank.Transfers.Settled.{PostsTransfer, settle_transfer-ledger}

module _ (P : LedgerDb → Type 0) where
  settled-ledger :
      (r : Result (Transfer × SettlementOutcome) × Bank)
      → P r.1.ledger
      → P (respond_settled r).1.ledger
  settled-ledger (err e, b') h = h
  settled-ledger (ok (t, settlement_uncertain), b') h = h
  settled-ledger (ok (t, settlement_completed), b') h = h
  settled-ledger (ok (t, settlement_failed), b') h = h

  rejected-ledger :
      (s : Serving) (l : LedgerDb) (r : Result Transfer × TransfersDb)
      → P l
      → P (respond_checked s l (rejected_as r)).1.ledger
  rejected-ledger s l (ok t, db) h = h
  rejected-ledger s l (err e, db) h = h

module _ (s : Serving) (b : Bank) where
  -- Only an approved transfer reaches the ledger.
  abbrev Reached : Transfer → LedgerDb → Type 0
  Reached t l =
      (l ≡ b.ledger) ⊎ ((s.fraud_reply ≡ reply approve) × PostsTransfer s.settlement t b l)

  new-Reached :
      (t : Transfer) (db : TransfersDb) → Reached t (respond_new s b.ledger (some t) db).1.ledger
  unfolding check_transfer_fraud
  new-Reached t db = by_reply s.fraud_reply refl
    where
      by_reply :
          (q : Reply Decision)
          → s.fraud_reply ≡ q
          → Reached t
              (respond_checked s b.ledger
                (check_transfer_fraud s.fraud_conn s.fraud_draw q t db)).1.ledger
      by_reply (status code) e = inl refl
      by_reply (reply (reject rule)) e = rejected-ledger (Reached t) s b.ledger _ (inl refl)
      by_reply (reply (other d)) e = inl refl
      by_reply (reply approve) e =
          settled-ledger (Reached t) _
            (elim (settle_transfer-ledger s.settlement t
              (record { ledger = b.ledger; service = db })) [ inl q ↦ inl q | inr p ↦ inr (e, p) ])

  -- A payment that the handler may make: of the caller's own account, as the body asks, admitted
  -- by createTransfer, approved by fraud-svc, and posted once under the new row's id.
  pub record Pays (r : HttpRequest) (l : LedgerDb) : Type 0 where
    pub key : ℕ
    pub sender : ℕ
    pub iban : List ℕ
    pub amount : ℤ
    pub recipient : ℕ
    pub has_key : r.idempotency_key ≡ some key
    pub has_body : r.body ≡ some (iban, amount)
    pub is_caller : s.accounts.get_account_by_user_id r.user_id ≡ reply sender
    pub admits :
        Admits s.accounts
          (record {
            idempotency_key = key;
            sender_account_id = sender;
            user_id = r.user_id;
            recipient_iban = iban;
            amount = amount;
          })
          recipient
    pub approved : s.fraud_reply ≡ reply approve
    pub posts :
        Posts s.settlement.execution.ids s.settlement.execution.now sender recipient amount
          (some s.insertion.id)
          b.ledger
          l

  abbrev pub IsSafe : HttpRequest → Response × Bank → Type 0
  IsSafe r p = (p.1.ledger ≡ b.ledger) ⊎ Pays r p.1.ledger

  refusal-ledger :
      (o : CreateTransferOutcome) (db : TransfersDb)
      → (respond_created s b.ledger (ok (none, o), db)).1.ledger ≡ b.ledger
  refusal-ledger o db = ground arith

  -- Whatever every call and transaction of it ends in, serving POST /transfers leaves the ledger as
  -- it was, or posts exactly the admitted and approved payment that its caller asked for, from the
  -- caller's own account.
  pub create_transfer_handler-IsSafe : (r : HttpRequest) → IsSafe r (create_transfer_handler s r b)
  unfolding create_transfer_handler resolve_sender_account_id
  create_transfer_handler-IsSafe r = by_key r.idempotency_key refl
    where
      by_served :
          (key sender : ℕ) (iban : List ℕ) (amount : ℤ) {x : Result Created × TransfersDb}
          → r.idempotency_key ≡ some key
          → s.accounts.get_account_by_user_id r.user_id ≡ reply sender
          → r.body ≡ some (iban, amount)
          → Served s.lookup_conn s.insertion s.accounts
              (record {
                idempotency_key = key;
                sender_account_id = sender;
                user_id = r.user_id;
                recipient_iban = iban;
                amount = amount;
              })
              b.service
              x
          → IsSafe r (respond_created s b.ledger x)
      by_served key sender iban amount k g h (errored e db' w) = inl refl
      by_served key sender iban amount k g h (refuses o db' w) = inl (refusal-ledger o db')
      by_served key sender iban amount k g h (replays t db' w f m) = inl refl
      by_served key sender iban amount k g h (unacknowledged recipient a e f) = inl refl
      by_served key sender iban amount k g h (inserts recipient a e) = elim (new-Reached _ _) [
        | inl q ↦ inl q
        | inr (q, p) ↦ inr (record {
          key = key;
          sender = sender;
          iban = iban;
          amount = amount;
          recipient = recipient;
          has_key = k;
          has_body = h;
          is_caller = g;
          admits = a;
          approved = q;
          posts = p;
        })
      ]

      by_body :
          (key sender : ℕ) (o : Option (List ℕ × ℤ))
          → r.idempotency_key ≡ some key
          → s.accounts.get_account_by_user_id r.user_id ≡ reply sender
          → r.body ≡ o
          → IsSafe r (handle_body s key r.user_id sender o b)
      by_body key sender none k g h = inl refl
      by_body key sender (some (iban, amount)) k g h =
          by_served key sender iban amount k g h
            (create_transfer-Served s.lookup_conn s.insertion s.accounts _ b.service)

      by_sender :
          (key : ℕ) (q : Reply ℕ)
          → r.idempotency_key ≡ some key
          → s.accounts.get_account_by_user_id r.user_id ≡ q
          → IsSafe r (handle_sender s key r (sender_of q) b)
      by_sender key (reply sender) k g = by_body key sender r.body k g refl
      by_sender key (status code) k g = inl (ground arith)

      by_key : (o : Option ℕ) → r.idempotency_key ≡ o → IsSafe r (handle_key s r o b)
      by_key none e = inl refl
      by_key (some key) e = by_sender key (s.accounts.get_account_by_user_id r.user_id) e refl
