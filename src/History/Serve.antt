-- ===== src/History/Serve.antt =====
-- listTransfersHandler and parseHistoryQuery of services/transfers-svc/http.go, encodeCursor and
-- decodeCursor of cursor.go. encoding/json and encoding/base64 are parameters; strconv.Atoi's result is an argument, none where it fails.
use neo_bank.Prelude.{
  ℕ, Bool, true, false, ◌&&◌, ◌||◌, List, [], ◌∷◌, Option, none, some, String, ◌==◌, if◌then◌else◌,
}
use neo_bank.Prelude.Int.{ℤ, pos, pos_part, ltb_ℤ, leb_ℤ}
use neo_bank.Prelude.Db.{Result, ok, err, Conn}
use neo_bank.Prelude.Rpc.{Reply}
use neo_bank.Transfers.State.{TransfersDb}
use neo_bank.Transfers.Create.{AccountsClient}
use neo_bank.Transfers.Handler.{resolve_sender_account_id}
use neo_bank.History.Rows.{
  CursorId, uuid, PageCursor, invalid_cursor, failed_with, Fetched, fetched, not_fetched, ◌>>=ᶠ◌,
}
use neo_bank.History.Pages.{HistoryEntry, Ibans, get_operation_history_page}

-- The encodings of encoding/base64, and for each its EncodeToString and DecodeString.
pub data Base64 : Type 0 where
  std_encoding url_encoding raw_std_encoding raw_url_encoding : Base64

-- encoding/base64, and json.Marshal and json.Unmarshal for a pageCursor.
pub record Codec : Type 0 where
  pub encode_to_string : Base64 → List ℕ → List ℕ
  pub decode_string : Base64 → List ℕ → Option (List ℕ)
  pub marshal : PageCursor → List ℕ
  pub unmarshal : List ℕ → Option PageCursor

unfoldable pub encode_cursor : Codec → PageCursor → List ℕ
encode_cursor codec c = codec.encode_to_string raw_url_encoding (codec.marshal c)

abbrev is_empty : CursorId → Bool
is_empty CursorId.empty = true
is_empty _ = false

abbrev pub decoded : Option PageCursor → Fetched PageCursor
decoded none = not_fetched invalid_cursor
decoded (some c) =
    if is_empty c.id || c.created_at == 0 then not_fetched invalid_cursor else fetched c

abbrev pub unmarshalled : Codec → Option (List ℕ) → Fetched PageCursor
unmarshalled codec none = not_fetched invalid_cursor
unmarshalled codec (some raw) = decoded (codec.unmarshal raw)

unfoldable pub decode_cursor : Codec → List ℕ → Fetched PageCursor
decode_cursor codec token = unmarshalled codec (codec.decode_string raw_url_encoding token)

abbrev pub default_limit : ℕ
default_limit = 20

abbrev pub max_limit : ℕ
max_limit = 100

abbrev pub parse_limit : Option ℤ → ℕ
parse_limit none = default_limit
parse_limit (some v) =
    if ltb_ℤ (pos 0) v && leb_ℤ v (pos max_limit) then pos_part v else default_limit

abbrev pub parse_cursor : Codec → List ℕ → Fetched (Option PageCursor)
parse_cursor codec [] = fetched none
parse_cursor codec (r ∷ token) = decode_cursor codec (r ∷ token) >>=ᶠ λ c. fetched (some c)

-- The two parameters of the query; an absent cursor is the empty text.
unfoldable pub parse_history_query : Codec → Option ℤ → List ℕ → Fetched (ℕ × Option PageCursor)
parse_history_query codec limit token =
    parse_cursor codec token >>=ᶠ λ cursor. fetched (parse_limit limit, cursor)

pub data ListResponse : Type 0 where
  list_error : ℕ → String → ListResponse
  list_transfers : List HistoryEntry → Option (List ℕ) → ListResponse

abbrev pub last_of : {A : Type 0} → List A → Option A
last_of [] = none
last_of (x ∷ []) = some x
last_of (x ∷ y ∷ xs) = last_of (y ∷ xs)

abbrev pub cursor_of : HistoryEntry → PageCursor
cursor_of e = record { created_at = e.created_at; id = uuid e.id }

-- resp.NextCursor
abbrev pub next_cursor : Codec → Bool → Option HistoryEntry → Option (List ℕ)
next_cursor codec false e = none
next_cursor codec true none = none
next_cursor codec true (some e) = some (encode_cursor codec (cursor_of e))

abbrev pub respond_page : Codec → Fetched (List HistoryEntry × Bool) → ListResponse
respond_page codec (fetched (entries, has_more)) =
    list_transfers entries (next_cursor codec has_more (last_of entries))
respond_page codec (not_fetched invalid_cursor) = list_error 400 "invalid_cursor"
respond_page codec (not_fetched (failed_with e)) = list_error 500 "internal_error"

-- The tables of the primary and of the replica.
pub record Pools : Type 0 where
  pub write_pool : TransfersDb
  pub read_pool : TransfersDb

abbrev pool_for : Pools → Option PageCursor → TransfersDb
pool_for pools none = pools.write_pool
pool_for pools (some c) = pools.read_pool

pub record ListServing : Type 0 where
  pub codec : Codec
  pub accounts : AccountsClient
  pub resolve_accounts_by_ids : List ℕ → Reply Ibans
  pub conn : Conn

abbrev pub list_page : ListServing → Pools → ℕ → Fetched (ℕ × Option PageCursor) → ListResponse
list_page s pools account (not_fetched e) = list_error 400 "invalid_cursor"
list_page s pools account (fetched (limit, cursor)) = respond_page s.codec (
    get_operation_history_page s.conn s.resolve_accounts_by_ids account limit cursor
      (pool_for pools cursor))

abbrev pub list_for : ListServing → Pools → Option ℤ → List ℕ → Result (Option ℕ) → ListResponse
list_for s pools limit token (err e) = list_error 500 "internal_error"
list_for s pools limit token (ok none) = list_error 404 "account_not_found"
list_for s pools limit token (ok (some account)) =
    list_page s pools account (parse_history_query s.codec limit token)

unfoldable pub list_transfers_handler : ListServing → Pools → ℕ → Option ℤ → List ℕ → ListResponse
list_transfers_handler s pools user limit token =
    list_for s pools limit token (resolve_sender_account_id s.accounts user)
