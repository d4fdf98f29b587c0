-- ===== src/ThreatDb/Sync.antt =====
-- app/services/threat_db/urlhaus_sync.py: the synchronisation of the URLhaus table. The reading of the
-- CSV text, `int` and `strptime` are the fields of `Reader`. The database is a type of tables with two
-- statements, which may raise; a transaction that fails leaves the table as it was. The generator of the rows and the chunks run in step, as the loop over them does. Logging is
-- left out.
mod Tests
use lin_clean_be_fastapi.Prelude.{
  ℕ, ◌+◌, ◌-◌, Bool, true, false, ◌||◌, Option, none, some, List, [], ◌∷◌, ◌++◌, map, Text, text,
  is_empty, text_eq, starts_with, any, length, leb, ◌==◌, if◌then◌else◌,
}
use lin_clean_be_fastapi.Prelude.Int.{ℤ, pos, negsuc}
use lin_clean_be_fastapi.Urllib.{urlsplit, hostname, lower, strip}
use lin_clean_be_fastapi.ThreatDb.Urlhaus.{derive_keys}

-- The named columns of a row.
pub record RawCsvRow : Type 0 where
  pub id : Text
  pub dateadded : Text
  pub url : Text
  pub url_status : Text
  pub last_online : Text
  pub threat : Text
  pub tags : Text
  pub urlhaus_link : Text
  pub reporter : Text

-- `dict(zip(_CSV_FIELDS, raw[: len(_CSV_FIELDS)]))`, of a row that is long enough
unfoldable pub to_row : List Text → Option RawCsvRow
to_row (a ∷ b ∷ c ∷ d ∷ e ∷ f ∷ g ∷ h ∷ i ∷ more) = some (record {
  id = a;
  dateadded = b;
  url = c;
  url_status = d;
  last_online = e;
  threat = f;
  tags = g;
  urlhaus_link = h;
  reporter = i;
})
to_row _ = none

-- A time is the number of its seconds since the epoch.
pub record ValueRow : Type 0 where
  pub id : ℤ
  pub url : Text
  pub host : Text
  pub match_key : Text
  pub threat : Option Text
  pub tags : Option Text
  pub url_status : Option Text
  pub date_added : Option ℕ
  pub last_online : Option ℕ
  pub urlhaus_link : Option Text
  pub reporter : Option Text
  pub synced_at : ℕ

pub record Reader : Type 0 where
  -- `int(s)`; `none` is a ValueError
  pub int : Text → Option ℤ
  -- `datetime.strptime(s, format)`
  pub strptime : Text → Text → Option ℕ
  -- `text.splitlines()`
  pub splitlines : Text → List Text
  -- `csv.reader` of the joined lines: the rows, and whether it then raises a csv.Error
  pub csv_reader : List Text → List (List Text) × Bool
  -- `settings.urlhaus_multitenant_hosts.get(host)`
  pub tenants : Text → Option ℕ

-- What `client.get` ends in: an HTTPError, or a status and a text.
pub data Download : Type 0 where
  http_error : Download
  response : ℕ → Text → Download

unfoldable pub fetch_csv : Download → Option Text
fetch_csv http_error = none
fetch_csv (response status body) = if status == 200 then some body else none

unfoldable pub parse_dt : Reader → Text → Option ℕ
unfolding text text_eq is_empty strip
parse_dt reader raw =
    let plain = reader.strptime (strip raw) (text "%Y-%m-%d %H:%M:%S") in
    let utc = reader.strptime (strip raw) (text "%Y-%m-%d %H:%M:%S UTC") in
    if is_empty raw || text_eq raw (text "None") || text_eq raw (text "N/A")
    then none
    else elim plain [ none ↦ utc | some time ↦ some time ]

-- The outer `none` is a ValueError of `urlparse`.
unfoldable pub derive_match_key : Reader → Text → Option (Option (Text × Text))
unfolding derive_keys urlsplit hostname lower
derive_match_key reader url = elim (derive_keys reader.tenants url) [
  | none ↦ none
  | some [] ↦ some none
  | some (key ∷ keys) ↦ elim (urlsplit url) [
    | none ↦ none
    | some parsed ↦ some (some (lower (hostname parsed), key))
  ]
]

-- The lines that are neither blank nor comments.
unfoldable pub data_lines : List Text → List Text
unfolding is_empty starts_with text
data_lines [] = []
data_lines (line ∷ lines) =
    let rest = data_lines lines in
    if is_empty line || starts_with (text "#") line then rest else line ∷ rest

unfoldable pub iter_raw_rows : Reader → Text → List (List Text) × Bool
unfolding data_lines
iter_raw_rows reader csv_text = reader.csv_reader (data_lines (reader.splitlines csv_text))

-- `s or None`
unfoldable pub or_none : Text → Option Text
unfolding is_empty
or_none s = if is_empty s then none else some s

unfoldable pub to_values : Reader → RawCsvRow → ℕ → ℤ → Text × Text → ValueRow
unfolding or_none parse_dt
to_values reader raw now entry_id (host, match_key) = record {
  id = entry_id;
  url = raw.url;
  host = host;
  match_key = match_key;
  threat = or_none raw.threat;
  tags = or_none raw.tags;
  url_status = or_none raw.url_status;
  date_added = parse_dt reader raw.dateadded;
  last_online = parse_dt reader raw.last_online;
  urlhaus_link = or_none raw.urlhaus_link;
  reporter = or_none raw.reporter;
  synced_at = now;
}

-- The inner `none` is a row that is not valid, the outer one a ValueError.
unfoldable pub build_values : Reader → ℕ → RawCsvRow → Option (Option ValueRow)
unfolding is_empty derive_match_key to_values
build_values reader now raw = elim (reader.int raw.id) [
  | none ↦ some none
  | some entry_id ↦ if is_empty raw.url then some none else elim (derive_match_key reader raw.url) [
    | none ↦ none
    | some none ↦ some none
    | some (some derived) ↦ some (some (to_values reader raw now entry_id derived))
  ]
]

-- One row of the generator `_values_stream`.
unfoldable pub read_row : Reader → ℕ → List Text → Option (Option ValueRow)
unfolding to_row build_values
read_row reader now cells = elim (to_row cells) [
  | none ↦ some none
  | some raw ↦ build_values reader now raw
]

pub record SyncStats : Type 0 where
  pub inserted : ℕ
  pub updated : ℕ
  pub total : ℕ
  pub failed : ℕ

abbrev pub no_stats : SyncStats
no_stats = record { inserted = 0; updated = 0; total = 0; failed = 0 }

unfoldable pub count_row : SyncStats → SyncStats
count_row stats = record stats { total = stats.total + 1 }

unfoldable pub fail_row : SyncStats → SyncStats
fail_row stats = record stats { failed = stats.failed + 1 }

unfoldable pub chunk_size : ℕ
chunk_size = 500

abbrev pub int_eq : ℤ → ℤ → Bool
int_eq (pos m) (pos n) = m == n
int_eq (negsuc m) (negsuc n) = m == n
int_eq _ _ = false

-- How many of the rows have one of the ids.
unfoldable pub count_known : List ℤ → List ValueRow → ℕ
count_known ids [] = 0
count_known ids (row ∷ rows) = (if any (int_eq row.id) ids then 1 else 0) + count_known ids rows

-- What a statement ends in: a value, an SQLAlchemyError, or an exception that is none, such as the
-- OverflowError for an integer that the database cannot hold.
pub data Executed (A : Type 0) : Type 0 where
  executed : A → Executed A
  sql_error : Executed A
  other_error : Executed A

-- The two statements of `_flush_chunk`.
pub record Database (Table : Type 0) : Type 0 where
  -- `select(URLhausEntry.id).where(URLhausEntry.id.in_(ids))`
  pub existing_ids : Table → List ℤ → Executed (List ℤ)
  -- `insert(...).on_conflict_do_update(index_elements=["id"], ...)`
  pub upsert : Table → List ValueRow → Executed Table

pub record State (Table : Type 0) : Type 0 where
  pub stats : SyncStats
  pub chunk : List ValueRow
  pub table : Table

module _ {Table : Type 0} (db : Database Table) where
  -- `_flush_chunk` of rows: the table, the inserted and the updated rows.
  unfoldable pub flush_chunk : Table → List ValueRow → Executed (Table × ℕ × ℕ)
  unfolding count_known
  flush_chunk table [] = executed (table, 0, 0)
  flush_chunk table rows = elim (db.existing_ids table (map (λ row. row.id) rows)) [
    | sql_error ↦ sql_error
    | other_error ↦ other_error
    | executed known ↦ elim (db.upsert table rows) [
      | sql_error ↦ sql_error
      | other_error ↦ other_error
      | executed table' ↦
          executed (table', length rows - count_known known rows, count_known known rows)
    ]
  ]

  -- The body of the loop over the chunks, in a transaction. No statistics are an exception, which
  -- leaves the loop.
  unfoldable pub store_chunk : SyncStats → Table → List ValueRow → Option SyncStats × Table
  unfolding flush_chunk
  store_chunk stats table rows = elim (flush_chunk table rows) [
    | other_error ↦ (none, table)
    | sql_error ↦ (some (record stats { failed = stats.failed + length rows }), table)
    | executed (table', inserted, updated) ↦ (
      some (record stats {
        inserted = stats.inserted + inserted;
        updated = stats.updated + updated;
      }),
      table',
    )
  ]

  -- The state after a chunk.
  unfoldable pub emptied : Option SyncStats × Table → Option (State Table)
  emptied (none, table) = none
  emptied (some stats, table) = some (record { stats = stats; chunk = []; table = table })

  -- The chunk is stored when it is full.
  unfoldable pub add_row : ℕ → State Table → ValueRow → Option (State Table)
  unfolding store_chunk emptied
  add_row size st row =
      let rows = st.chunk ++ row ∷ [] in
      if leb size (length rows)
      then emptied (store_chunk st.stats st.table rows)
      else some (record st { chunk = rows })

  -- After the last row, the rest of the rows is stored.
  unfoldable pub finish : State Table → Option SyncStats × Table
  unfolding store_chunk
  finish st = elim st.chunk [
    | [] ↦ (some st.stats, st.table)
    | (row ∷ rows) ↦ store_chunk st.stats st.table (row ∷ rows)
  ]

  -- The loop over the rows; no statistics are an exception that leaves it, with the table so far. The
  -- last argument says whether the reading of the text raises behind the rows.
  unfoldable pub sync_rows :
      Reader → ℕ → ℕ → State Table → List (List Text) → Bool → Option SyncStats × Table
  unfolding read_row add_row finish count_row fail_row
  sync_rows reader now size st [] broken = if broken then (none, st.table) else finish st
  sync_rows reader now size st (cells ∷ rows) broken =
      let counted = record st { stats = count_row st.stats } in
      elim (read_row reader now cells) [
        | none ↦ (none, st.table)
        | some none ↦
            sync_rows reader now size (record counted { stats = fail_row counted.stats }) rows
              broken
        | some (some row) ↦ elim (add_row size counted row) [
          | none ↦ (none, st.table)
          | some st' ↦ sync_rows reader now size st' rows broken
        ]
      ]

  -- `sync_urlhaus`, once the text is there or not.
  unfoldable pub sync_csv : Reader → ℕ → Option Text → Table → Option SyncStats × Table
  unfolding sync_rows iter_raw_rows chunk_size
  sync_csv reader now none table = (some no_stats, table)
  sync_csv reader now (some csv_text) table =
      let (rows, broken) = iter_raw_rows reader csv_text in
      sync_rows reader now chunk_size (record { stats = no_stats; chunk = []; table = table }) rows
        broken

  unfoldable pub sync_urlhaus : Reader → ℕ → Download → Table → Option SyncStats × Table
  unfolding fetch_csv sync_csv
  sync_urlhaus reader now download table = sync_csv reader now (fetch_csv download) table
