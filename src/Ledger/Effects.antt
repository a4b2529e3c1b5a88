-- ===== src/Ledger/Effects.antt =====
-- executeTransfer (ledger.go): the effect of a call on the accounts' sums.
use neo_bank.Prelude.{
  ℕ, ◌==◌, Bool-cases, ◌≡◌, refl, ◌≢◌, ◌⊎◌, inl, inr, Option, some, arith, sym, ap, ◌∙◌,
}
use neo_bank.Prelude.Int.{ℤ, pos, neg, ◌+ℤ◌, ◌≤ℤ◌, +ℤ_zero}
use neo_bank.Prelude.Db.{Result, ok, Conn, CommitFate, ack_lost}
use neo_bank.Ledger.State.{LedgerDb, Ids, ledger_account_id, sum_entries, transaction_of_reference}
use neo_bank.Ledger.Balances.{share}
use neo_bank.Ledger.Post.{TransferOutcome, transfer_ok, execute_transfer, credit_entry}
use neo_bank.Ledger.Posting.{Moved, sum-Moved}
use neo_bank.Ledger.Execute.{
  Posts, Executed, invalid, no_sender, no_recipient, insufficient, failed, posted, unacknowledged,
  execute_transfer-Executed,
}

-- Between two ledger accounts: the first lost the amount, the second got it, no other changed.
pub record Transferred (l l' : ℕ) (amount : ℤ) (db db' : LedgerDb) : Type 0 where
  pub debited : sum_entries l db'.entries ≡ neg amount +ℤ sum_entries l db.entries
  pub credited : sum_entries l' db'.entries ≡ amount +ℤ sum_entries l' db.entries
  pub others : (j : ℕ) → (j ≡ l) ⊎ (j ≡ l') ⊎ (sum_entries j db'.entries ≡ sum_entries j db.entries)

share_self : (l : ℕ) (d : ℤ) → share l l d ≡ d
share_self l d = ground arith

share_ne : (l j : ℕ) (d : ℤ) → j ≢ l → share l j d ≡ pos 0
share_ne l j d h = ground arith

same_or_ne : (j l : ℕ) → (j ≡ l) ⊎ (j ≢ l)
same_or_ne j l = elim (Bool-cases (j == l)) [
  | inl e ↦ inl (ground arith)
  | inr e ↦ inr (λ q. ground arith)
]

pub Moved-Transferred :
    (ids : Ids) (now l l' : ℕ) (amount : ℤ) (reference : Option ℕ) (db db' : LedgerDb)
    → l ≢ l'
    → Moved ids now l l' amount reference db db'
    → Transferred l l' amount db db'
Moved-Transferred ids now l l' amount reference db db' ne m = record {
  debited = by_sum l (share_ne l' l amount ne) (share_self l (neg amount)) ∙ +ℤ_zero _;
  credited =
      by_sum l' (share_self l' amount) (share_ne l l' (neg amount) (λ e. ne (sym e)))
      ∙ ap (◌+ℤ◌ amount) (+ℤ_zero _);
  others = λ j. elim (same_or_ne j l) [
    | inl e ↦ inl e
    | inr a ↦ elim (same_or_ne j l') [
      | inl e ↦ inr (inl e)
      | inr b ↦ inr (
          inr (
            by_sum j (share_ne l' j amount b) (share_ne l j (neg amount) a)
            ∙ +ℤ_zero _
            ∙ +ℤ_zero _))
    ]
  ];
}
  where
    by_sum :
        (j : ℕ) {x y : ℤ}
        → share l' j amount ≡ x
        → share l j (neg amount) ≡ y
        → sum_entries j db'.entries ≡ x +ℤ (y +ℤ sum_entries j db.entries)
    by_sum j e f = sum-Moved ids now l l' amount reference db db' j m ∙ rw (e, f) refl

-- After a posting its reference finds its transaction.
pub reference-Moved :
    (ids : Ids) (now l l' : ℕ) (amount : ℤ) (ref : ℕ) (db db' : LedgerDb)
    → Moved ids now l l' amount (some ref) db db'
    → transaction_of_reference ref db'.entries ≡ some ids.transaction
unfolding transaction_of_reference credit_entry
reference-Moved ids now l l' amount ref db db' m = rw m.entries (ground arith)

module _ (ids : Ids) (now from to : ℕ) (amount : ℤ) (reference : Option ℕ) (db : LedgerDb) where
  abbrev IsPosted : Result (Option ℕ × TransferOutcome) × LedgerDb → Type 0
  IsPosted r =
      (r.0 ≡ ok (some ids.transaction, transfer_ok)) × Posts ids now from to amount reference db r.1

  Executed-ok :
      (f : CommitFate) {r : Result (Option ℕ × TransferOutcome) × LedgerDb} (t : Option ℕ)
      → Executed ids now from to amount reference db f r
      → r.0 ≡ ok (t, transfer_ok)
      → IsPosted r
  Executed-ok f t (invalid h) e = cc
  Executed-ok f t (no_sender h) e = cc
  Executed-ok f t (no_recipient h) e = cc
  Executed-ok f t (insufficient l h s) e = cc
  Executed-ok f t (failed x) e = cc
  Executed-ok f t (posted db' h) e = (refl, h)
  Executed-ok f t (unacknowledged db' h a) e = cc

  Executed-unless :
      (f : CommitFate) {r : Result (Option ℕ × TransferOutcome) × LedgerDb}
      → f ≢ ack_lost
      → Executed ids now from to amount reference db f r
      → (r.1 ≡ db) ⊎ IsPosted r
  Executed-unless f k (invalid h) = inl refl
  Executed-unless f k (no_sender h) = inl refl
  Executed-unless f k (no_recipient h) = inl refl
  Executed-unless f k (insufficient l h s) = inl refl
  Executed-unless f k (failed x) = inl refl
  Executed-unless f k (posted db' h) = inr (refl, h)
  Executed-unless f k (unacknowledged db' h a) = absurd (k a)

  module _ (c : Conn) where
    abbrev call : Result (Option ℕ × TransferOutcome) × LedgerDb
    call = execute_transfer c ids now from to amount reference db

    -- If executeTransfer reports success, it returns the new transaction's id, both accounts exist,
    -- the amount is positive and within the sender's balance, and, between two different ledger
    -- accounts, exactly the amount went from one to the other.
    pub execute_transfer_moves :
        {t : Option ℕ}
        → call.0 ≡ ok (t, transfer_ok)
        → (t ≡ some ids.transaction)
          × ((l : ℕ) × (l' : ℕ) × (ledger_account_id from db.ledger_accounts ≡ some l)
              × (ledger_account_id to db.ledger_accounts ≡ some l')
              × (pos 1 ≤ℤ amount)
              × (amount ≤ℤ sum_entries l db.entries)
              × ((l ≡ l') ⊎ Transferred l l' amount db call.1))
    execute_transfer_moves {t} e =
        let done =
          Executed-ok c.commit_fate t
            (execute_transfer-Executed ids now from to amount reference db c) e in
        let p = done.1 in
        (
          cc (e, done.0),
          (
            p.l,
            p.l',
            p.sender,
            p.recipient,
            p.positive,
            p.covered,
            elim (same_or_ne p.l p.l') [
              | inl q ↦ inl q
              | inr ne ↦ inr (Moved-Transferred ids now p.l p.l' amount reference db _ ne p.moved)
            ],
          ),
        )

    -- Unless a commit's acknowledgement was lost, a call that does not report success has left the
    -- ledger as it was.
    pub execute_transfer_atomic :
        c.commit_fate ≢ ack_lost → call.0 ≢ ok (some ids.transaction, transfer_ok) → call.1 ≡ db
    execute_transfer_atomic k ne =
        elim (Executed-unless c.commit_fate k
          (execute_transfer-Executed ids now from to amount reference db c)) [
            | inl e ↦ e
            | inr (e, _) ↦ absurd (ne e)
          ]
