-- ===== src/ThreatDb/Sync/Tests.antt =====
-- Runs of the synchronisation and instances of its theorems.
use lin_clean_be_fastapi.Prelude.{
  ◌≡◌, refl, false, none, some, List, [], ◌∷◌, ◌++◌, Text, text, length, map,
}
use lin_clean_be_fastapi.Prelude.Int.{pos}
use lin_clean_be_fastapi.ThreatDb.Urlhaus.{keys_of}
use lin_clean_be_fastapi.ThreatDb.Sync.{
  ValueRow, Reader, iter_raw_rows, Database, executed, sync_urlhaus, response, data_lines,
}
use lin_clean_be_fastapi.ThreatDb.Synced.{Ends, sync_urlhaus-Ends}
use lin_clean_be_fastapi.ThreatDb.Chunks.{IsStored, sync_urlhaus-IsStored}

-- http://e.com
abbrev link : Text
link = b'h' ∷ b't' ∷ b't' ∷ b'p' ∷ b':' ∷ b'/' ∷ b'/' ∷ b'e' ∷ b'.' ∷ b'c' ∷ b'o' ∷ b'm' ∷ []

-- Each line is a row with the link, but for an empty one, which is a row with a cell.
abbrev row_of : Text → List Text
row_of [] = [] ∷ []
row_of (c ∷ s) = (c ∷ s) ∷ [] ∷ link ∷ [] ∷ [] ∷ [] ∷ [] ∷ [] ∷ [] ∷ []

-- A number is the length of its text, and a text its only line, behind which comes a short row.
abbrev reader : Reader
reader = record {
  int = λ s. some (pos (length s));
  strptime = λ s format. none;
  splitlines = λ s. s ∷ [];
  csv_reader = λ lines. (map row_of (lines ++ [] ∷ []), false);
  tenants = λ host. none;
}

-- The table is the list of the rows that were stored.
abbrev db : Database (List ValueRow)
db = record {
  existing_ids = λ table ids. executed (map (λ row. row.id) table);
  upsert = λ table rows. executed (table ++ rows);
}

abbrev value : ValueRow
value = record {
  id = pos 2;
  url = link;
  host = b'e' ∷ b'.' ∷ b'c' ∷ b'o' ∷ b'm' ∷ [];
  match_key = b'e' ∷ b'.' ∷ b'c' ∷ b'o' ∷ b'm' ∷ [];
  threat = none;
  tags = none;
  url_status = none;
  date_added = none;
  last_online = none;
  urlhaus_link = none;
  reporter = none;
  synced_at = 7;
}

sync_urlhaus_tests :
    ((sync_urlhaus db reader 7 (response 200 (b'1' ∷ b'2' ∷ [])) []).0
      ≡ some (record { inserted = 1; updated = 0; total = 2; failed = 1 }))
    × ((sync_urlhaus db reader 7 (response 200 (b'1' ∷ b'2' ∷ [])) (value ∷ [])).0
        ≡ some (record { inserted = 0; updated = 1; total = 2; failed = 1 }))
unfolding sync_urlhaus data_lines text keys_of
sync_urlhaus_tests = (refl, refl)

-- A row whose URL has an opening bracket alone keeps the rows behind it from being stored.
abbrev reader_of_brackets : Reader
reader_of_brackets = record reader {
  csv_reader = λ lines. (
    ([] ∷ [] ∷ (b'/' ∷ b'/' ∷ b'[' ∷ []) ∷ [] ∷ [] ∷ [] ∷ [] ∷ [] ∷ [] ∷ []) ∷ map row_of lines,
    false,
  );
}

sync_urlhaus_bracket :
    sync_urlhaus db reader_of_brackets 7 (response 200 (b'1' ∷ b'2' ∷ [])) [] ≡ (none, [])
unfolding sync_urlhaus data_lines text
sync_urlhaus_bracket = refl

sync_urlhaus-Ends_example :
    Ends db reader 7 0
      (iter_raw_rows reader (b'1' ∷ b'2' ∷ [])).0
      (iter_raw_rows reader (b'1' ∷ b'2' ∷ [])).1
      (sync_urlhaus db reader 7 (response 200 (b'1' ∷ b'2' ∷ [])) []).0
sync_urlhaus-Ends_example = sync_urlhaus-Ends db reader 7 (b'1' ∷ b'2' ∷ []) []

sync_urlhaus-IsStored_example :
    IsStored db 500 []
      (value ∷ [])
      (sync_urlhaus db reader 7 (response 200 (b'1' ∷ b'2' ∷ [])) []).1
unfolding sync_urlhaus data_lines text keys_of
sync_urlhaus-IsStored_example =
    sync_urlhaus-IsStored db reader 7 (b'1' ∷ b'2' ∷ []) [] (value ∷ [])
      (record { inserted = 1; updated = 0; total = 2; failed = 1 }) refl refl
