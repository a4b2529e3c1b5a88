-- ===== src/History/Cursors.antt =====
-- The token that listTransfersHandler (services/transfers-svc/http.go) returns and the next request
-- brings back.
use neo_bank.Prelude.{
  ℕ, ◌≤◌, ◌<◌, ◌≡◌, ◌≢◌, refl, ap, Bool, true, false, List, [], ◌∷◌, ◌++◌, All, Option, none, some,
  arith,
}
use neo_bank.Prelude.Int.{ℤ}
use mathlib.Core.Path.{subst}
use neo_bank.Prelude.Db.{Result, ok, err}
use neo_bank.Transfers.Handler.{resolve_sender_account_id}
use neo_bank.History.Rows.{
  PageCursor, uuid, Fetched, fetched, not_fetched, invalid_cursor, failed_with, ◌>>=ᶠ◌,
}
use neo_bank.History.Pages.{HistoryEntry}
use neo_bank.History.Serve.{
  Codec, Base64, raw_url_encoding, encode_cursor, decode_cursor, parse_limit, parse_cursor,
  parse_history_query, last_of, cursor_of, next_cursor, ListServing, Pools, list_transfers,
  respond_page, list_page, list_for, list_transfers_handler,
}

-- What encoding/base64 and encoding/json promise: each encoding decodes what it encodes itself, of a
-- text that is not empty it makes none that is, and a cursor that was marshalled, never to an empty
-- text, is unmarshalled again.
pub record IsFaithful (codec : Codec) : Type 0 where
  pub decodes :
      (b : Base64) (raw : List ℕ) → codec.decode_string b (codec.encode_to_string b raw) ≡ some raw
  pub encodes : (b : Base64) (raw : List ℕ) → raw ≢ [] → codec.encode_to_string b raw ≢ []
  pub unmarshals : (c : PageCursor) → codec.unmarshal (codec.marshal c) ≡ some c
  pub marshals : (c : PageCursor) → codec.marshal c ≢ []

parse_limit-bounds : (v : Option ℤ) → (1 ≤ parse_limit v) × (parse_limit v ≤ 100)
parse_limit-bounds none = (omega arith, omega arith)
parse_limit-bounds (some v) = (ground arith, ground arith)

decode_cursor-encode_cursor :
    (codec : Codec) (c : PageCursor) (id : ℕ)
    → IsFaithful codec
    → c.id ≡ uuid id
    → 0 < c.created_at
    → decode_cursor codec (encode_cursor codec c) ≡ fetched c
unfolding decode_cursor encode_cursor
decode_cursor-encode_cursor codec c id faithful e lt =
    rw (faithful.decodes raw_url_encoding (codec.marshal c), faithful.unmarshals c, e)
      (ground arith)

encode_cursor-nonempty :
    (codec : Codec) (c : PageCursor) → IsFaithful codec → encode_cursor codec c ≢ []
unfolding encode_cursor
encode_cursor-nonempty codec c faithful =
    faithful.encodes raw_url_encoding (codec.marshal c) (faithful.marshals c)

parse_cursor-decoded :
    (codec : Codec) (token : List ℕ) (c : PageCursor)
    → token ≢ []
    → decode_cursor codec token ≡ fetched c
    → parse_cursor codec token ≡ fetched (some c)
parse_cursor-decoded codec [] c ne e = absurd (ne refl)
parse_cursor-decoded codec (r ∷ token) c ne e = ap (λ m. m >>=ᶠ λ c'. fetched (some c')) e

-- A request with this token is parsed as one for what follows the entry, with a limit from 1 to 100.
abbrev pub AsksAfter : Codec → List ℕ → HistoryEntry → Type 0
AsksAfter codec token l =
    (limit_param : Option ℤ)
    → (limit : ℕ) × (1 ≤ limit)
      × (limit ≤ 100)
      × (parse_history_query codec limit_param token
          ≡ fetched (limit, some (record { created_at = l.created_at; id = uuid l.id })))

encode_cursor-AsksAfter :
    (codec : Codec) (l : HistoryEntry)
    → IsFaithful codec
    → 0 < l.created_at
    → AsksAfter codec (encode_cursor codec (cursor_of l)) l
unfolding parse_history_query
encode_cursor-AsksAfter codec l faithful lt limit_param = (
  parse_limit limit_param,
  (parse_limit-bounds limit_param).0,
  (parse_limit-bounds limit_param).1,
  ap (λ m. m >>=ᶠ λ cursor. fetched (parse_limit limit_param, cursor))
      (parse_cursor-decoded codec (encode_cursor codec (cursor_of l)) (cursor_of l)
        (encode_cursor-nonempty codec (cursor_of l) faithful)
        (decode_cursor-encode_cursor codec (cursor_of l) l.id faithful refl lt)),
)

last_of-split :
    (entries : List HistoryEntry) (l : HistoryEntry)
    → last_of entries ≡ some l
    → (init : List HistoryEntry) × (entries ≡ init ++ l ∷ [])
last_of-split [] l e = cc
last_of-split (x ∷ []) l e = ([], ap (λ y. y ∷ []) (some-same e))
  where
    some-same : some x ≡ some l → x ≡ l
    some-same f = cc
last_of-split (x ∷ y ∷ entries) l e =
    let (init, h) = last_of-split (y ∷ entries) l e in (x ∷ init, ap (λ xs. x ∷ xs) h)

-- The page ends in an entry, and the token asks for what follows that entry.
abbrev pub EndsIn : Codec → List HistoryEntry → List ℕ → Type 0
EndsIn codec entries token =
    (init : List HistoryEntry) × (l : HistoryEntry) × (entries ≡ init ++ l ∷ [])
    × AsksAfter codec token l

last-timed :
    (init : List HistoryEntry) (l : HistoryEntry)
    → All (λ e. 0 < e.created_at) (init ++ l ∷ [])
    → 0 < l.created_at
last-timed [] l h = h.0
last-timed (x ∷ init) l h = last-timed init l h.1

module _ (s : ListServing) (entries : List HistoryEntry) (token : List ℕ)
    (faithful : IsFaithful s.codec) (timed : All (λ e. 0 < e.created_at) entries) where
  last-EndsIn :
      (more : Bool) (o : Option HistoryEntry)
      → last_of entries ≡ o
      → next_cursor s.codec more o ≡ some token
      → EndsIn s.codec entries token
  last-EndsIn false o e h = cc
  last-EndsIn true none e h = cc
  last-EndsIn true (some l) e h =
      let (init, f) = last_of-split entries l e in
      (
        init,
        l,
        f,
        subst (λ t. AsksAfter s.codec t l) (some-same h)
            (encode_cursor-AsksAfter s.codec l faithful
              (last-timed init l (subst (All (λ e. 0 < e.created_at)) f timed))),
      )
    where
      some-same :
          some (encode_cursor s.codec (cursor_of l)) ≡ some token
          → encode_cursor s.codec (cursor_of l) ≡ token
      some-same f = cc

  page-EndsIn :
      (page : Fetched (List HistoryEntry × Bool))
      → respond_page s.codec page ≡ list_transfers entries (some token)
      → EndsIn s.codec entries token
  page-EndsIn (not_fetched invalid_cursor) h = cc
  page-EndsIn (not_fetched (failed_with e)) h = cc
  page-EndsIn (fetched (es, more)) h =
      last-EndsIn more (last_of entries) refl
        (subst (λ xs. next_cursor s.codec more (last_of xs) ≡ some token) same_entries same_token)
    where
      same_entries : es ≡ entries
      same_entries = cc h

      same_token : next_cursor s.codec more (last_of es) ≡ some token
      same_token = cc h

  -- Where listTransfersHandler returns a page with a token for the next one, the page has a last
  -- entry; and a next request with that token, whatever its limit, is parsed as one for what follows
  -- exactly that entry, with a limit from 1 to 100. This holds where base64 and JSON decode what they
  -- encoded, and no entry has the zero time.
  pub list_transfers_handler-EndsIn :
      (pools : Pools) (user : ℕ) (limit : Option ℤ) (given : List ℕ)
      → list_transfers_handler s pools user limit given ≡ list_transfers entries (some token)
      → EndsIn s.codec entries token
  unfolding list_transfers_handler
  list_transfers_handler-EndsIn pools user limit given =
      by_account (resolve_sender_account_id s.accounts user)
    where
      by_query :
          (account : ℕ) (q : Fetched (ℕ × Option PageCursor))
          → list_page s pools account q ≡ list_transfers entries (some token)
          → EndsIn s.codec entries token
      by_query account (not_fetched e) h = cc
      by_query account (fetched (n, cursor)) h = page-EndsIn _ h

      by_account :
          (r : Result (Option ℕ))
          → list_for s pools limit given r ≡ list_transfers entries (some token)
          → EndsIn s.codec entries token
      by_account (err e) h = cc
      by_account (ok none) h = cc
      by_account (ok (some account)) h =
          by_query account (parse_history_query s.codec limit given) h
