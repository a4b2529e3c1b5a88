-- ===== src/Ledger/Replay.antt =====
-- postUncheckedTransfer (ledger.go) under one reference: calls made again, deposits and reversals.
use neo_bank.Prelude.{
  ℕ, ◌≡◌, refl, ◌⊎◌, inl, inr, Option, none, some, arith, ap, ◌∙◌, List, [], ◌∷◌,
}
use neo_bank.Prelude.Int.{ℤ, pos, neg, ◌+ℤ◌, ◌≤ℤ◌, int_laws}
use neo_bank.Prelude.Db.{Result, ok, Conn, CommitFate, good}
use neo_bank.Ledger.State.{
  LedgerDb, LedgerAccount, Ids, ledger_account_id, sum_entries, transaction_of_reference,
}
use neo_bank.Ledger.Balances.{share}
use neo_bank.Ledger.Post.{
  DepositOutcome, deposit_ok, genesis_account_id, post_unchecked_transfer, deposit, reverse_deposit,
  existing_transaction, post_unless,
}
use neo_bank.Ledger.Posting.{sum-Moved}
use neo_bank.Ledger.Effects.{reference-Moved}
use neo_bank.Ledger.Unchecked.{
  known, PostsUnchecked, Deposited, invalid, replayed, no_account, failed, posted, unacknowledged,
  Deposited-change, post_unchecked_transfer-Deposited,
}

-- A call under a known reference, on a connection that does not fail, only looks it up.
known-replays :
    (ids : Ids) (now from to : ℕ) (amount : ℤ) (ref t : ℕ) (db : LedgerDb)
    → pos 1 ≤ℤ amount
    → transaction_of_reference ref db.entries ≡ some t
    → post_unchecked_transfer good ids now from to amount (some ref) db
      ≡ (ok (some t, deposit_ok), db)
unfolding post_unchecked_transfer existing_transaction post_unless
known-replays ids now from to amount ref t db p k = ground arith

module _ (now from to : ℕ) (amount : ℤ) (ref : ℕ) (db : LedgerDb) where
  -- Succeeding means that the reference is known afterwards, under the returned id.
  Deposited-known :
      (ids : Ids) (f : CommitFate) (t : ℕ) {r : Result (Option ℕ × DepositOutcome) × LedgerDb}
      → Deposited ids now from to amount (some ref) db f r
      → r.0 ≡ ok (some t, deposit_ok)
      → transaction_of_reference ref r.1.entries ≡ some t
  Deposited-known ids f t (invalid h) e = cc
  Deposited-known ids f t (replayed u h) e = h ∙ cc e
  Deposited-known ids f t (no_account a h) e = cc
  Deposited-known ids f t (failed x) e = cc
  Deposited-known ids f t (posted db' p) e =
      reference-Moved ids now p.l p.l' amount ref db db' p.moved ∙ cc e
  Deposited-known ids f t (unacknowledged db' p a) e = cc

  Deposited-posted :
      (ids : Ids) (f : CommitFate) (t : Option ℕ)
      {r : Result (Option ℕ × DepositOutcome) × LedgerDb}
      → Deposited ids now from to amount (some ref) db f r
      → known (some ref) db ≡ none
      → r.0 ≡ ok (t, deposit_ok)
      → PostsUnchecked ids now from to amount (some ref) db r.1
  Deposited-posted ids f t (invalid h) k e = cc
  Deposited-posted ids f t (replayed u h) k e = cc
  Deposited-posted ids f t (no_account a h) k e = cc
  Deposited-posted ids f t (failed x) k e = cc
  Deposited-posted ids f t (posted db' p) k e = p
  Deposited-posted ids f t (unacknowledged db' p a) k e = cc

  -- While the reference is known no call writes, on any connection.
  known-unchanged :
      (c : Conn) (ids : Ids) (t : ℕ)
      → known (some ref) db ≡ some t
      → (post_unchecked_transfer c ids now from to amount (some ref) db).1 ≡ db
  known-unchanged c ids t k =
      elim (Deposited-change ids now from to amount (some ref) db c.commit_fate
        (post_unchecked_transfer-Deposited ids now from to amount (some ref) db c)) [
          | inl e ↦ e
          | inr p ↦ cc (p.fresh)
        ]

-- One delivery of a call: its connection, the ids that it would use, and its time.
pub record Attempt : Type 0 where
  pub conn : Conn
  pub ids : Ids
  pub now : ℕ

module _ (from to : ℕ) (amount : ℤ) (ref : ℕ) where
  -- The same call delivered again and again, each delivery as it may end.
  unfoldable pub deliveries : List Attempt → LedgerDb → LedgerDb
  deliveries [] db = db
  deliveries (a ∷ later) db =
      deliveries later (post_unchecked_transfer a.conn a.ids a.now from to amount (some ref) db).1

  deliveries-known :
      (later : List Attempt) (db : LedgerDb) (t : ℕ)
      → known (some ref) db ≡ some t
      → deliveries later db ≡ db
  unfolding deliveries
  deliveries-known [] db t k = refl
  deliveries-known (a ∷ later) db t k =
      let same = known-unchanged a.now from to amount ref db a.conn a.ids t k in
      rw same (deliveries-known later db t k)

  -- Under a reference that the log does not hold, any number of deliveries of the call, whatever
  -- happens to each, leave the ledger as it was or post exactly one pair of entries.
  pub deliveries_post_once :
      (later : List Attempt) (db : LedgerDb)
      → known (some ref) db ≡ none
      → (deliveries later db ≡ db)
        ⊎ ((a : Attempt) × PostsUnchecked a.ids a.now from to amount
              (some ref)
              db
              (deliveries later db))
  unfolding deliveries
  deliveries_post_once [] db k = inl refl
  deliveries_post_once (a ∷ later) db k =
      elim (Deposited-change a.ids a.now from to amount (some ref) db a.conn.commit_fate
        (post_unchecked_transfer-Deposited a.ids a.now from to amount (some ref) db a.conn)) [
          | inl e ↦ rw e (deliveries_post_once later db k)
          | inr p ↦ inr (
            a,
            rw
                (deliveries-known later
                  (post_unchecked_transfer a.conn a.ids a.now from to amount (some ref) db).1
                  a.ids.transaction (reference-Moved a.ids a.now p.l p.l' amount ref db _ p.moved))
                p,
          )
        ]

  -- A call that reported success, made again on a connection that does not fail, returns the same
  -- transaction and leaves the ledger as it is.
  pub post_again :
      (a b : Attempt) (db : LedgerDb) (t : ℕ)
      → pos 1 ≤ℤ amount
      → (post_unchecked_transfer a.conn a.ids a.now from to amount (some ref) db).0
        ≡ ok (some t, deposit_ok)
      → let after = (post_unchecked_transfer a.conn a.ids a.now from to amount (some ref) db).1 in
        post_unchecked_transfer good b.ids b.now from to amount (some ref) after
        ≡ (ok (some t, deposit_ok), after)
  post_again a b db t p e = known-replays b.ids b.now from to amount ref t _ p (
      Deposited-known a.now from to amount ref db a.ids a.conn.commit_fate t
        (post_unchecked_transfer-Deposited a.ids a.now from to amount (some ref) db a.conn) e)

share-neg : (l j : ℕ) (a : ℤ) → share l j (neg a) ≡ neg (share l j a)
unfolding neg
share-neg l j a = ground arith

shares_cancel :
    (l l' j : ℕ) (a s : ℤ)
    → share l j a +ℤ (share l' j (neg a) +ℤ (share l' j a +ℤ (share l j (neg a) +ℤ s))) ≡ s
shares_cancel l l' j a s = rw (share-neg l j a, share-neg l' j a) (omega int_laws)

same_account :
    (account : ℕ) {rows rows' : List LedgerAccount} {l l' : ℕ}
    → ledger_account_id account rows' ≡ some l'
    → rows' ≡ rows
    → ledger_account_id account rows ≡ some l
    → l' ≡ l
same_account account e f g = cc (e, ap (ledger_account_id account) f, g)

-- If a deposit and then the reversal of the same amount, each under a reference that the log did
-- not hold, both report success, every account's log sums to what it did before.
pub reverse_deposit_restores :
    (a b : Attempt) (account : ℕ) (amount : ℤ) (ref ref' : ℕ) (db : LedgerDb) {t t' : Option ℕ}
    → let r = deposit a.conn a.ids a.now account amount (some ref) db in
      let r' = reverse_deposit b.conn b.ids b.now account amount (some ref') r.1 in
      known (some ref) db ≡ none
      → known (some ref') r.1 ≡ none
      → r.0 ≡ ok (t, deposit_ok)
      → r'.0 ≡ ok (t', deposit_ok)
      → (j : ℕ) → sum_entries j r'.1.entries ≡ sum_entries j db.entries
unfolding deposit reverse_deposit
reverse_deposit_restores a b account amount ref ref' db {t} {t'} k k' e e' j =
    let p =
      Deposited-posted a.now genesis_account_id account amount ref db a.ids a.conn.commit_fate t
        (post_unchecked_transfer-Deposited a.ids a.now genesis_account_id account amount (some ref)
          db a.conn)
        k e in
    let after = (deposit a.conn a.ids a.now account amount (some ref) db).1 in
    let p' =
      Deposited-posted b.now account genesis_account_id amount ref' after b.ids b.conn.commit_fate
        t'
        (post_unchecked_transfer-Deposited b.ids b.now account genesis_account_id amount (some ref')
          after b.conn)
        k' e' in
    sum-Moved b.ids b.now p'.l p'.l' amount (some ref') after _ j p'.moved
    ∙ rw
        (
          sum-Moved a.ids a.now p.l p.l' amount (some ref) db _ j p.moved,
          same_account account p'.sender p.moved.accounts p.recipient,
          same_account genesis_account_id p'.recipient p.moved.accounts p.sender,
        )
        (shares_cancel p.l p.l' j amount _)
