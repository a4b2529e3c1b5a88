-- ===== src/Accounts/Opened.antt =====
-- createAccountForUser (services/accounts-svc/accounts.go): what it leaves in the table.
use neo_bank.Prelude.{
  ℕ, zero, suc, ◌≤◌, ◌≡◌, refl, inl, inr, Bool, true, false, List, [], ◌∷◌, Option, none, some,
  arith, ◌==◌, if◌then◌else◌, find, exists, count, All, Bool-cases,
}
use neo_bank.Prelude.Db.{
  Result, ok, err, ◌>>◌, Conn, stmt, begin, Work, roll_back, write, transaction, commit, CommitFate,
  committed, rolled_back, ack_lost, OnOk, OnOk-bind, OnOk-step, unique_violation,
}
use neo_bank.Iban.Digits.{both_true}
use neo_bank.Iban.Text.{Text, to_upper}
use neo_bank.Iban.Code.{Checked, passed, refused, generate, validate}
use neo_bank.Iban.Round.{IsRight, generate-IsRight}
use neo_bank.Accounts.State.{Account, AccountsDb, same_text, has_user, has_number, has_iban}
use neo_bank.Accounts.Create.{
  AccountCreateOutcome, account_created_now, account_number_of, iban_parts_from_account_number,
  Attempt, Tried, number_taken, done, new_account, with_account, insert_account, try_create_account,
  with_iban, with_number, attempt_account, after_attempt, create_from, create_account_for_user,
}

-- Every IBAN is valid, and no two accounts have the same user or the same account number.
abbrev pub IsSound : AccountsDb → Type 0
IsSound db =
    All (λ a. validate a.iban ≡ passed tt) db.accounts
    × ((user : ℕ) → count (has_user user) db.accounts ≤ 1)
    × ((number : Text) → count (has_number number) db.accounts ≤ 1)

-- The user has the account with this id.
abbrev pub HasAccount : ℕ → AccountsDb → ℕ → Type 0
HasAccount user db id = (a : Account) × (find (has_user user) db.accounts ≡ some a) × (a.id ≡ id)

abbrev TriedSound : ℕ → AccountsDb → Tried → Type 0
TriedSound user db number_taken = Unit {0}
TriedSound user db (done outcome id) = HasAccount user db id

same_text→≡ : (s t : Text) → same_text s t ≡ true → s ≡ t
same_text→≡ [] [] h = refl
same_text→≡ [] (b ∷ t) h = cc
same_text→≡ (a ∷ s) [] h = cc
same_text→≡ (a ∷ s) (b ∷ t) h =
    let (head, tail) = both_true (a == b) (same_text s t) h in
    let same : a ≡ b = ground arith in cc (same, same_text→≡ s t tail)

find-none-count :
    (user : ℕ) (rows : List Account)
    → find (has_user user) rows ≡ none
    → count (has_user user) rows ≡ 0
find-none-count user [] e = refl
find-none-count user (r ∷ rows) e = elim (Bool-cases (has_user user r)) [
  | inl t ↦ absurd (ground (arith, t))
  | inr f ↦ ground (arith, f, find-none-count user rows)
]

exists-false-count :
    {A : Type 0} (p : A → Bool) (rows : List A) → exists p rows ≡ false → count p rows ≡ 0
exists-false-count p [] e = refl
exists-false-count p (r ∷ rows) e = ground (arith, exists-false-count p rows)

count-same_text :
    (s t : Text) (rows : List Account)
    → same_text s t ≡ true
    → count (has_number s) rows ≡ 0
    → count (has_number t) rows ≡ 0
count-same_text s t rows e h = rw (← same_text→≡ s t e) h

-- A row for a user and a number that the table does not have.
with_account-IsSound :
    (a : Attempt) (user : ℕ) (number iban : Text) (db : AccountsDb)
    → IsSound db
    → find (has_user user) db.accounts ≡ none
    → exists (has_number number) db.accounts ≡ false
    → validate iban ≡ passed tt
    → IsSound (with_account a user number iban db)
with_account-IsSound a user number iban db (valid, users, numbers) free unused v =
    ((v, valid), one_user, one_number)
  where
    one_user : (u : ℕ) → count (has_user u) (with_account a user number iban db).accounts ≤ 1
    one_user u = elim (Bool-cases (user == u)) [
      | inl e ↦
          let same : user ≡ u = ground arith in
          ground (arith, find-none-count user db.accounts free, same)
      | inr e ↦ ground (arith, users u)
    ]

    one_number : (n : Text) → count (has_number n) (with_account a user number iban db).accounts ≤ 1
    one_number n = elim (Bool-cases (same_text number n)) [
      | inl e ↦ ground (
        arith,
        count-same_text number n db.accounts e
            (exists-false-count (has_number number) db.accounts unused),
      )
      | inr e ↦ ground (arith, e, numbers n)
    ]

-- What one try leaves, and what its result says.
abbrev Tries : ℕ → Result Tried × AccountsDb → Type 0
Tries user (out, db) = IsSound db × OnOk (TriedSound user db) out

abbrev TriesWork : ℕ → AccountsDb → Work AccountsDb Tried → Type 0
TriesWork user db (roll_back t) = TriedSound user db t
TriesWork user db (write t db') = IsSound db' × TriedSound user db' t

transaction-Tries :
    (c : Conn) (user : ℕ) (db : AccountsDb) (w : Result (Work AccountsDb Tried))
    → IsSound db
    → OnOk (TriesWork user db) w
    → Tries user (transaction c db w)
transaction-Tries c user db (err e) s h = (s, tt)
transaction-Tries c user db (ok (roll_back t)) s h = (s, h)
transaction-Tries c user db (ok (write t db')) s h = by_fate c.commit_fate
  where
    by_fate : (f : CommitFate) → Tries user (commit f db db' t)
    by_fate committed = h
    by_fate rolled_back = (s, tt)
    by_fate ack_lost = (h.0, tt)

insert_account-TriesWork :
    (a : Attempt) (user : ℕ) (number iban : Text) (db : AccountsDb) (found : Option Account)
    → IsSound db
    → validate iban ≡ passed tt
    → find (has_user user) db.accounts ≡ found
    → OnOk (TriesWork user db) (insert_account a user number iban db found)
insert_account-TriesWork a user number iban db (some r) s v e =
    OnOk-step (TriesWork user db) a.conn 2 (ok tt) _ λ _ _. (s, (r, e, refl))
insert_account-TriesWork a user number iban db none s v e =
    by_number (exists (has_number number) db.accounts) refl (exists (has_iban iban) db.accounts)
  where
    here :
        find (has_user user) (with_account a user number iban db).accounts
        ≡ some (new_account a user number iban)
    here = ground arith

    by_number :
        (b : Bool)
        → exists (has_number number) db.accounts ≡ b
        → (b' : Bool)
        → OnOk (TriesWork user db) (
            if b
            then ok (roll_back number_taken)
            else if b'
            then err unique_violation
            else (stmt a.conn 2 (ok tt)
                >> ok (write (done account_created_now a.id) (with_account a user number iban db))))
    by_number true f b' = tt
    by_number false f true = tt
    by_number false f false = OnOk-step (TriesWork user db) a.conn 2 (ok tt) _ λ _ _. (
      with_account-IsSound a user number iban db s e f v,
      (new_account a user number iban, here, refl),
    )

attempt_account-Tries :
    (a : Attempt) (user : ℕ) (bank_code : Text) (db : AccountsDb)
    → IsSound db
    → Tries user (attempt_account a user bank_code db)
unfolding attempt_account try_create_account
attempt_account-Tries a user bank_code db s = by_random a.random
  where
    by_random : (r : Option ℕ) → Tries user (with_number a user bank_code db r)
    by_random none = (s, tt)
    by_random (some n) =
        by_iban (generate bank_code parts.0 parts.1) (generate-IsRight bank_code parts.0 parts.1)
      where
        parts : Text × Text
        parts = iban_parts_from_account_number (account_number_of n)

        by_iban :
            (c : Checked Text)
            → IsRight (to_upper bank_code) parts.0 parts.1 c
            → Tries user (with_iban a user (account_number_of n) db c)
        by_iban (refused e) r = (s, tt)
        by_iban (passed iban) (v, k) = transaction-Tries a.conn user db _ s (
            OnOk-bind (TriesWork user db) (begin a.conn) _ λ _ _.
              OnOk-step (TriesWork user db) a.conn 1 (ok tt) _
                λ _ _. insert_account-TriesWork a user (account_number_of n) iban db _ s v refl)

abbrev pub Opens : ℕ → Result (AccountCreateOutcome × ℕ) × AccountsDb → Type 0
Opens user (out, db) = IsSound db × OnOk (λ made. HasAccount user db made.1) out

after_attempt-Opens :
    (user : ℕ) (tried : Result Tried × AccountsDb)
    (rest : Result (AccountCreateOutcome × ℕ) × AccountsDb)
    → Tries user tried
    → Opens user rest
    → Opens user (after_attempt tried rest)
after_attempt-Opens user (err e, db) rest t r = (t.0, tt)
after_attempt-Opens user (ok (done outcome id), db) rest t r = t
after_attempt-Opens user (ok number_taken, db) rest t r = r

create_from-Opens :
    (left : ℕ) (attempts : ℕ → Attempt) (user : ℕ) (bank_code : Text) (db : AccountsDb)
    → IsSound db
    → Opens user (create_from left attempts user bank_code db)
unfolding create_from
create_from-Opens zero attempts user bank_code db s = (s, tt)
create_from-Opens (suc left) attempts user bank_code db s =
    let t = attempt_account-Tries (attempts left) user bank_code db s in
    after_attempt-Opens user _ _ t (create_from-Opens left attempts user bank_code _ t.0)

-- Whatever fails, createAccountForUser keeps the accounts sound: every IBAN passes Validate and no
-- two accounts have one user or one account number. If it returns an account id, the user has the
-- account with this id.
pub create_account_for_user-Opens :
    (attempts : ℕ → Attempt) (user : ℕ) (bank_code : Text) (db : AccountsDb)
    → IsSound db
    → Opens user (create_account_for_user attempts user bank_code db)
unfolding create_account_for_user
create_account_for_user-Opens attempts user bank_code db s =
    create_from-Opens 10 attempts user bank_code db s
