-- ===== src/ThreatDb/Chunks.antt =====
-- The chunks in which the synchronisation of the URLhaus table stores the rows.
use lin_clean_be_fastapi.Prelude.{
  ℕ, ◌≤◌, ◌<◌, Bool, true, false, ◌≡◌, refl, ap, Option, none, some, List, [], ◌∷◌, ◌++◌,
  append_assoc, append-nil, Text, length, length-append, leb, leb_false→lt, arith, inl, inr,
  Bool-cases, Option-cases,
}
use lin_clean_be_fastapi.ThreatDb.Sync.{
  ValueRow, Reader, read_row, iter_raw_rows, SyncStats, no_stats, chunk_size, Database, State,
  emptied, add_row, finish, count_row, fail_row, sync_rows, sync_urlhaus, response, fetch_csv,
  sync_csv,
}
use lin_clean_be_fastapi.ThreatDb.Synced.{
  valid_rows, read_row-cases, Stores, StoreEnds, store_chunk-StoreEnds,
}

abbrev pub concat {ℓ} : {A : Type ℓ} → List (List A) → List A
concat [] = []
concat (xs ∷ xss) = xs ++ concat xss

-- A chunk is not empty and no larger than the size.
abbrev pub IsChunk : ℕ → List ValueRow → Type 0
IsChunk size chunk = (0 < length chunk) × (length chunk ≤ size)

valid_rows-cons :
    (reader : Reader) (now : ℕ) (cells : List Text) (rows : List (List Text)) (row : ValueRow)
    (values : List ValueRow)
    → read_row reader now cells ≡ some (some row)
    → valid_rows reader now (cells ∷ rows) ≡ some values
    → (rest : List ValueRow) × (valid_rows reader now rows ≡ some rest) × (values ≡ row ∷ rest)
valid_rows-cons reader now cells rows row values e h =
    elim (Option-cases (valid_rows reader now rows)) [
      | inl v ↦ let h' : none ≡ some values = rw (e, v, valid_rows) at h in absurd cc
      | inr (rest, v) ↦
          let h' : some (row ∷ rest) ≡ some values = rw (e, v, valid_rows) at h in (rest, v, cc)
    ]

module _ {Table : Type 0} (db : Database Table) where
  -- A table to which the chunks lead, one after the other.
  abbrev pub IsReached : ℕ → Table → List (List ValueRow) → Table → Type 0
  IsReached size table [] final = final ≡ table
  IsReached size table (chunk ∷ chunks) final =
      IsChunk size chunk
      × ((next : Table) × Stores db table chunk next × IsReached size next chunks final)

  -- The rows in chunks, each of which was upserted, or left the table as it was if that failed.
  abbrev pub IsStored : ℕ → Table → List ValueRow → Table → Type 0
  IsStored size table rows final =
      (chunks : List (List ValueRow)) × (concat chunks ≡ rows) × IsReached size table chunks final

  -- Where statistics are returned, the rows are stored.
  abbrev pub Keeps : ℕ → Table → List ValueRow → Option SyncStats × Table → Type 0
  Keeps size table rows (none, final) = Unit
  Keeps size table rows (some stats, final) = IsStored size table rows final

  stored-Keeps :
      (size : ℕ) (stats : SyncStats) (table : Table) (rows : List ValueRow)
      (stored : Option SyncStats × Table)
      → IsChunk size rows
      → StoreEnds db stats table rows stored
      → Keeps size table rows stored
  stored-Keeps size stats table rows (none, final) c e = tt
  stored-Keeps size stats table rows (some s, final) c (_, _, k) =
      (rows ∷ [], append-nil rows, (c, (final, k, refl)))

  finish-Keeps :
      (size : ℕ) (stats : SyncStats) (chunk : List ValueRow) (table : Table)
      → length chunk < size
      → Keeps size table chunk (finish db (record { stats = stats; chunk = chunk; table = table }))
  unfolding finish
  finish-Keeps size stats [] table h = ([], refl, refl)
  finish-Keeps size stats (row ∷ rows) table h =
      stored-Keeps size stats table (row ∷ rows) _ (omega arith, omega arith)
        (store_chunk-StoreEnds db stats table (row ∷ rows) (omega arith))

  -- A stored chunk in front of those of the rest.
  Keeps-cons :
      (size : ℕ) (table next : Table) (chunk rest : List ValueRow)
      (ended : Option SyncStats × Table)
      → IsChunk size chunk
      → Stores db table chunk next
      → Keeps size next rest ended
      → Keeps size table (chunk ++ rest) ended
  Keeps-cons size table next chunk rest (none, final) c k h = tt
  Keeps-cons size table next chunk rest (some s, final) c k (chunks, e, r) =
      (chunk ∷ chunks, ap (λ xs. chunk ++ xs) e, (c, (next, k, r)))

  -- After a chunk that was full.
  emptied-Keeps :
      (reader : Reader) (now size : ℕ) (rows : List (List Text)) (broken : Bool) (stats : SyncStats)
      (table : Table) (chunk rest : List ValueRow) (stored : Option SyncStats × Table)
      → ((st : State Table)
          → length st.chunk < size
          → Keeps size st.table (st.chunk ++ rest) (sync_rows db reader now size st rows broken))
      → IsChunk size chunk
      → 0 < size
      → StoreEnds db stats table chunk stored
      → Keeps size table (chunk ++ rest) (elim (emptied db stored) [
        | none ↦ (none, table)
        | some st' ↦ sync_rows db reader now size st' rows broken
      ])
  unfolding emptied
  emptied-Keeps reader now size rows broken stats table chunk rest (none, final) next c p e = tt
  emptied-Keeps reader now size rows broken stats table chunk rest (some s, final) next c p
        (_, _, k) =
      Keeps-cons size table final chunk rest _ c k
        (next (record { stats = s; chunk = []; table = final }) p)

  -- One more row: the chunk is stored or goes on.
  add_row-Keeps :
      (reader : Reader) (now size : ℕ) (rows : List (List Text)) (broken : Bool)
      (rest : List ValueRow) (st : State Table) (row : ValueRow)
      → ((st' : State Table)
          → length st'.chunk < size
          → Keeps size st'.table (st'.chunk ++ rest) (sync_rows db reader now size st' rows broken))
      → length st.chunk < size
      → Keeps size st.table ((st.chunk ++ row ∷ []) ++ rest) (elim (add_row db size st row) [
        | none ↦ (none, st.table)
        | some st' ↦ sync_rows db reader now size st' rows broken
      ])
  unfolding add_row
  add_row-Keeps reader now size rows broken rest st row next h =
      let l = length-append st.chunk (row ∷ []) in
      elim (Bool-cases (leb size (length (st.chunk ++ row ∷ [])))) [
        | inl e ↦
            rw (e, add_row)
              (emptied-Keeps reader now size rows broken st.stats st.table (st.chunk ++ row ∷ [])
                rest _ next (omega (arith, l), omega (arith, l, h)) (omega (arith, h))
                (store_chunk-StoreEnds db st.stats st.table (st.chunk ++ row ∷ [])
                  (omega (arith, l))))
        | inr e ↦
            rw (e, add_row) (next (record st { chunk = st.chunk ++ row ∷ [] }) (leb_false→lt _ _ e))
      ]

  sync_rows-Keeps :
      (reader : Reader) (now size : ℕ) (rows : List (List Text)) (broken : Bool)
      (values : List ValueRow) (st : State Table)
      → valid_rows reader now rows ≡ some values
      → length st.chunk < size
      → Keeps size st.table (st.chunk ++ values) (sync_rows db reader now size st rows broken)
  unfolding sync_rows add_row
  sync_rows-Keeps reader now size [] true values st v h = tt
  sync_rows-Keeps reader now size [] false values st v h =
      let e : values ≡ [] = cc in
      rw (e, append-nil) (finish-Keeps size st.stats st.chunk st.table h)
  sync_rows-Keeps reader now size (cells ∷ rows) broken values st v h =
      elim (read_row-cases (read_row reader now cells)) [
        | inl e ↦ let v' : none ≡ some values = rw (e, valid_rows) at v in absurd cc
        | inr (inl e) ↦
            rw (e, sync_rows)
              (sync_rows-Keeps reader now size rows broken values
                (record st { stats = fail_row (count_row st.stats) }) (rw (e, valid_rows) at v) h)
        | inr (inr (row, e)) ↦
            let (rest, w, q) = valid_rows-cons reader now cells rows row values e v in
            rw (e, q, sync_rows)
              (rw (append_assoc st.chunk (row ∷ []) rest) at (
                add_row-Keeps reader now size rows broken rest
                  (record st { stats = count_row st.stats }) row
                  (λ st'. sync_rows-Keeps reader now size rows broken rest st' w) h))
      ]

  Keeps-IsStored :
      (size : ℕ) (table : Table) (rows : List ValueRow) (ended : Option SyncStats × Table)
      (stats : SyncStats)
      → Keeps size table rows ended
      → ended.0 ≡ some stats
      → IsStored size table rows ended.1
  Keeps-IsStored size table rows (none, final) stats k e = absurd cc
  Keeps-IsStored size table rows (some s, final) stats k e = k

  -- If the URLs of all rows can be parsed and `sync_urlhaus` returns statistics, then the table at the
  -- end comes from the one at the beginning by the valid rows of the text, in their order and in chunks
  -- of 1 to 500 rows: for each chunk, the table is what the upsert of its rows gives, or as it was if
  -- one of the two statements raised an SQLAlchemyError.
  pub sync_urlhaus-IsStored :
      (reader : Reader) (now : ℕ) (csv_text : Text) (table : Table) (values : List ValueRow)
      (stats : SyncStats)
      → valid_rows reader now (iter_raw_rows reader csv_text).0 ≡ some values
      → (sync_urlhaus db reader now (response 200 csv_text) table).0 ≡ some stats
      → IsStored 500 table values (sync_urlhaus db reader now (response 200 csv_text) table).1
  unfolding sync_urlhaus fetch_csv sync_csv chunk_size
  sync_urlhaus-IsStored reader now csv_text table values stats v e =
      Keeps-IsStored chunk_size table values _ stats
        (sync_rows-Keeps reader now chunk_size (iter_raw_rows reader csv_text).0
          (iter_raw_rows reader csv_text).1 values
          (record { stats = no_stats; chunk = []; table = table }) v (omega arith))
        e
