-- ===== src/Transfers/Settled.antt =====
-- settleTransfer (transfer.go): its outcome, the ledger and the transfer's row.
use neo_bank.Prelude.{ℕ, ◌≡◌, refl, ap, ◌⊎◌, inl, inr, ◌∙◌, Option, none, some, String}
use neo_bank.Prelude.Db.{Result, ok, err, OnOk, OnOk-apply, OnOk-map, ack_lost}
use neo_bank.Prelude.Rpc.{
  Code, Reply, reply, status, internal, TransportCode, transport, Network, delivered, request_lost,
  reply_lost, remote, broken_stream, too_large, refused,
}
use neo_bank.Ledger.State.{LedgerDb}
use neo_bank.Ledger.Server.{serve_execute_transfer, transfer_status}
use neo_bank.Ledger.Post.{TransferOutcome, execute_transfer}
use neo_bank.Ledger.Execute.{
  Posts, Executed, invalid, no_sender, no_recipient, insufficient, failed, posted, unacknowledged,
  execute_transfer-Executed, Executed-change,
}
use neo_bank.Transfers.State.{Transfer, TransferStatus, TransfersDb}
use neo_bank.Transfers.Mark.{mark_transfer_failed}
use neo_bank.Transfers.Settle.{
  Bank, Settlement, SettlementOutcome, settlement_completed, settlement_failed,
  settlement_uncertain, settle_transfer, settle_reply, settle_failure, marked,
  call_execute_transfer, failure_reason_of,
}
use neo_bank.Transfers.Returned.{
  IsCompletedAs, IsFailedAs, mark_transfer_completed-IsCompletedAs, mark_transfer_failed-IsFailedAs,
}

module _ (s : Settlement) (t : Transfer) (b : Bank) where
  abbrev pub PostsTransfer : LedgerDb → Type 0
  PostsTransfer l =
      Posts s.execution.ids s.execution.now t.sender_account_id t.recipient_account_id t.amount
        (some t.id) b.ledger l

  -- The call as the client sees it, and what it did.
  data Called : Reply (Option ℕ) × LedgerDb → Type 0 where
    answered :
        (l : LedgerDb) → PostsTransfer l → Called (reply (some s.execution.ids.transaction), l)
    declined : (code : Code) → Called (status code, b.ledger)
    unsure :
        (l : LedgerDb)
        → PostsTransfer l
        → s.execution.conn.commit_fate ≡ ack_lost
        → Called (status internal, l)
    cut :
        (code : TransportCode) (l : LedgerDb)
        → (l ≡ b.ledger) ⊎ ((s.network ≡ reply_lost code) × PostsTransfer l)
        → Called (status (transport code), l)

  Executed-Called :
      {r : Result (Option ℕ × TransferOutcome) × LedgerDb}
      → Executed s.execution.ids s.execution.now t.sender_account_id t.recipient_account_id t.amount
          (some t.id)
          b.ledger
          s.execution.conn.commit_fate
          r
      → Called (transfer_status r.0, r.1)
  Executed-Called (invalid h) = declined _
  Executed-Called (no_sender h) = declined _
  Executed-Called (no_recipient h) = declined _
  Executed-Called (insufficient l h k) = declined _
  Executed-Called (failed e) = declined _
  Executed-Called (posted l p) = answered l p
  Executed-Called (unacknowledged l p e) = unsure l p e

  call_execute_transfer-Called : Called (call_execute_transfer s t b.ledger)
  unfolding call_execute_transfer serve_execute_transfer
  call_execute_transfer-Called = by_network s.network refl
    where
      call : LedgerDb → Reply (Option ℕ) × LedgerDb
      call =
          serve_execute_transfer s.execution t.sender_account_id t.recipient_account_id t.amount
            (some t.id)

      executed :
          Executed s.execution.ids s.execution.now t.sender_account_id t.recipient_account_id
            t.amount
            (some t.id)
            b.ledger
            s.execution.conn.commit_fate
            (execute_transfer s.execution.conn s.execution.ids s.execution.now t.sender_account_id
              t.recipient_account_id t.amount
              (some t.id)
              b.ledger)
      executed =
          execute_transfer-Executed s.execution.ids s.execution.now t.sender_account_id
            t.recipient_account_id t.amount (some t.id) b.ledger s.execution.conn

      by_network : (n : Network) → s.network ≡ n → Called (remote n call b.ledger)
      by_network delivered e = Executed-Called executed
      by_network (request_lost code) e = cut code b.ledger (inl refl)
      by_network (reply_lost code) e =
          cut code _
            (elim (Executed-change s.execution.ids s.execution.now t.sender_account_id
              t.recipient_account_id t.amount (some t.id) b.ledger s.execution.conn.commit_fate
              executed) [ inl f ↦ inl f | inr p ↦ inr (e, p) ])

  -- The ledger has committed, but its client is told Internal: the acknowledgement of the COMMIT was
  -- lost, or gRPC could not read the reply.
  abbrev pub IsMisreported : Type 0
  IsMisreported = (s.execution.conn.commit_fate ≡ ack_lost) ⊎ (s.network ≡ reply_lost broken_stream)

  -- What each outcome says of the returned transfer and of the tables afterwards.
  abbrev pub SaysOf : SettlementOutcome → Transfer → Bank → Type 0
  SaysOf settlement_completed t' b' =
      IsCompletedAs t.id (some s.execution.ids.transaction) t' × PostsTransfer b'.ledger
  SaysOf settlement_failed t' b' =
      (t'.id ≡ t.id)
      × (t'.status ≡ TransferStatus.failed)
      × ((b'.ledger ≡ b.ledger)
          ⊎ (IsMisreported
              × (t'.failure_reason ≡ some "ledger_internal_error")
              × PostsTransfer b'.ledger))
  SaysOf settlement_uncertain t' b' =
      (t' ≡ t) × (b'.service ≡ b.service) × ((b'.ledger ≡ b.ledger) ⊎ PostsTransfer b'.ledger)

  abbrev Says : Result (Transfer × SettlementOutcome) × Bank → Type 0
  Says (ok (t', o), b') = SaysOf o t' b'
  Says (err e, b') = (b'.ledger ≡ b.ledger) ⊎ PostsTransfer b'.ledger

  marked-Says :
      (o : SettlementOutcome) (l : LedgerDb) (r : Result Transfer × TransfersDb)
      → (l ≡ b.ledger) ⊎ PostsTransfer l
      → OnOk (λ t'. SaysOf o t' (record { ledger = l; service = r.1 })) r.0
      → Says (marked o l r)
  marked-Says o l (ok t', db) p h = h
  marked-Says o l (err e, db) p h = p

  failure-Says :
      (l : LedgerDb) (reason : Option String)
      → (l ≡ b.ledger) ⊎ PostsTransfer l
      → (reason ≡ none)
        ⊎ ((l ≡ b.ledger)
            ⊎ (IsMisreported × (reason ≡ some "ledger_internal_error") × PostsTransfer l))
      → Says (settle_failure s t l b.service reason)
  failure-Says l none p h = (refl, refl, p)
  failure-Says l (some reason) p (inl e) = cc
  failure-Says l (some reason) p (inr h) = marked-Says settlement_failed l _ p (
      OnOk-map (IsFailedAs t.id reason) _ _ as_said
        (mark_transfer_failed-IsFailedAs s.conn s.draw t.id b.service reason))
    where
      as_said :
          (t' : Transfer)
          → IsFailedAs t.id reason t'
          → SaysOf settlement_failed t' (record {
            ledger = l;
            service = (mark_transfer_failed s.conn s.draw t.id reason b.service).1;
          })
      as_said t' f = (f.0, f.1, elim h [ inl e ↦ inl e | inr (a, e, p) ↦ inr (a, f.2 ∙ e, p) ])

  -- Of the codes that gRPC makes, the settlement takes Internal alone as definite.
  transport-unsure :
      (code : TransportCode)
      → (failure_reason_of (transport code) ≡ none)
        ⊎ ((code ≡ broken_stream)
            × (failure_reason_of (transport code) ≡ some "ledger_internal_error"))
  unfolding failure_reason_of
  transport-unsure TransportCode.unavailable = inl refl
  transport-unsure TransportCode.deadline_exceeded = inl refl
  transport-unsure TransportCode.unknown = inl refl
  transport-unsure too_large = inl refl
  transport-unsure broken_stream = inr (refl, refl)
  transport-unsure refused = inl refl

  cut-Says :
      (code : TransportCode) (l : LedgerDb)
      → (l ≡ b.ledger) ⊎ ((s.network ≡ reply_lost code) × PostsTransfer l)
      → Says (settle_failure s t l b.service (failure_reason_of (transport code)))
  cut-Says code l (inl e) = failure-Says l _ (inl e) (inr (inl e))
  cut-Says code l (inr (e, p)) = failure-Says l _ (inr p) (elim (transport-unsure code) [
    | inl u ↦ inl u
    | inr (f, reason) ↦ inr (inr (inr (e ∙ ap reply_lost f), reason, p))
  ])

  reply-Says : {r : Reply (Option ℕ) × LedgerDb} → Called r → Says (settle_reply s t b.service r)
  unfolding failure_reason_of
  reply-Says (answered l p) = marked-Says settlement_completed l _ (inr p) (
      OnOk-map (IsCompletedAs t.id (some s.execution.ids.transaction)) _ _ (λ t' f. (f, p))
        (mark_transfer_completed-IsCompletedAs s.conn s.draw t.id b.service _))
  reply-Says (declined code) = failure-Says b.ledger _ (inl refl) (inr (inl refl))
  reply-Says (unsure l p e) = failure-Says l _ (inr p) (inr (inr (inl e, internal_reason, p)))
    where
      internal_reason : failure_reason_of internal ≡ some "ledger_internal_error"
      internal_reason = refl
  reply-Says (cut code l p) = cut-Says code l p

  -- However a settlement ends, the ledger is as it was or holds the posting of the transfer.
  pub settle_transfer-ledger :
      let l = (settle_transfer s t b).1.ledger in (l ≡ b.ledger) ⊎ PostsTransfer l
  unfolding settle_transfer
  settle_transfer-ledger = said _ (reply-Says call_execute_transfer-Called)
    where
      said :
          (r : Result (Transfer × SettlementOutcome) × Bank)
          → Says r
          → (r.1.ledger ≡ b.ledger) ⊎ PostsTransfer r.1.ledger
      said (ok (t', settlement_completed), b') h = inr h.1
      said (ok (t', settlement_failed), b') h = elim h.2 [ inl e ↦ inl e | inr q ↦ inr q.2 ]
      said (ok (t', settlement_uncertain), b') h = h.2
      said (err e, b') h = h

  -- A settlement that returns a transfer tells the truth about the ledger. Completed: the returned
  -- row is completed under the ledger's transaction, which was posted with the row's accounts, its
  -- amount and its id as reference. Failed: the row is failed, and the ledger is as it was unless
  -- the ledger's own commit lost its acknowledgement or gRPC itself made an Internal of its reply;
  -- then the transfer may have been posted nonetheless, and the reason is ledger_internal_error.
  -- Uncertain: the transfer and the tables of the service are
  -- as they were, and the ledger is as it was or holds the posting of this transfer.
  pub settle_transfer_truth :
      {t' : Transfer} {o : SettlementOutcome}
      → (settle_transfer s t b).0 ≡ ok (t', o)
      → SaysOf o t' (settle_transfer s t b).1
  unfolding settle_transfer
  settle_transfer_truth e =
      OnOk-apply (λ p. SaysOf p.1 p.0 (settle_transfer s t b).1) _
        (said (settle_transfer s t b) by_reply) e
    where
      by_reply : Says (settle_transfer s t b)
      by_reply = reply-Says call_execute_transfer-Called

      said :
          (r : Result (Transfer × SettlementOutcome) × Bank)
          → Says r
          → OnOk (λ p. SaysOf p.1 p.0 r.1) r.0
      said (ok p, b') h = h
      said (err x, b') h = tt
