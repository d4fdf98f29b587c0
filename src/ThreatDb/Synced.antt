-- ===== src/ThreatDb/Synced.antt =====
-- What the synchronisation of the URLhaus table counts and stores.
use lin_clean_be_fastapi.Prelude.{
  ℕ, ◌+◌, ◌≤◌, ◌<◌, Bool, true, false, ◌≡◌, refl, Option, none, some, List, [], ◌∷◌, ◌++◌, map,
  Text, length, length-append, leb, arith, ◌⊎◌, inl, inr, Bool-cases, Option-cases,
}
use mathlib.Core.Path.{subst}
use lin_clean_be_fastapi.Prelude.Int.{ℤ}
use lin_clean_be_fastapi.ThreatDb.Sync.{
  ValueRow, Reader, read_row, iter_raw_rows, SyncStats, no_stats, chunk_size, count_known, Database,
  State, Executed, executed, sql_error, other_error, emptied, flush_chunk, store_chunk, add_row,
  finish, count_row, fail_row, sync_rows, sync_urlhaus, response, fetch_csv, sync_csv,
}

-- The values of the rows that are valid; `none` is a ValueError.
abbrev pub valid_rows : Reader → ℕ → List (List Text) → Option (List ValueRow)
valid_rows reader now [] = some []
valid_rows reader now (cells ∷ rows) = elim (read_row reader now cells) [
  | none ↦ none
  | some none ↦ valid_rows reader now rows
  | some (some row) ↦ elim (valid_rows reader now rows) [
    | none ↦ none
    | some values ↦ some (row ∷ values)
  ]
]

-- Every row is inserted, updated or failed.
abbrev pub IsBalanced : SyncStats → Type 0
IsBalanced stats = stats.inserted + stats.updated + stats.failed ≡ stats.total

count_known-le : (ids : List ℤ) (rows : List ValueRow) → count_known ids rows ≤ length rows
unfolding count_known
count_known-le ids [] = omega arith
count_known-le ids (row ∷ rows) = ground (arith, count_known-le ids rows)

-- The three outcomes of reading a row.
pub read_row-cases :
    (o : Option (Option ValueRow))
    → (o ≡ none) ⊎ (o ≡ some none) ⊎ ((row : ValueRow) × (o ≡ some (some row)))
read_row-cases none = inl refl
read_row-cases (some none) = inr (inl refl)
read_row-cases (some (some row)) = inr (inr (row, refl))

pub Executed-cases :
    {A : Type 0} (o : Executed A)
    → ((a : A) × (o ≡ executed a)) ⊎ (o ≡ sql_error) ⊎ (o ≡ other_error)
Executed-cases (executed a) = inl (a, refl)
Executed-cases sql_error = inr (inl refl)
Executed-cases other_error = inr (inr refl)

module _ {Table : Type 0} (db : Database Table) where
  abbrev pub ids_of : List ValueRow → List ℤ
  ids_of rows = map (λ row. row.id) rows

  -- Independent of the code: the table after rows that a transaction upserts, or that it was to.
  abbrev pub Stores : Table → List ValueRow → Table → Type 0
  Stores table rows final =
      (((known : List ℤ) × (db.existing_ids table (ids_of rows) ≡ executed known))
        × (db.upsert table rows ≡ executed final))
      ⊎ (((db.existing_ids table (ids_of rows) ≡ sql_error) ⊎ (db.upsert table rows ≡ sql_error))
          × (final ≡ table))

  -- A statement raises what is no SQLAlchemyError.
  abbrev pub Overflows : Table → List ValueRow → Type 0
  Overflows table rows =
      (db.existing_ids table (ids_of rows) ≡ other_error) ⊎ (db.upsert table rows ≡ other_error)

  -- The sum of the counts, but for the total.
  abbrev settled : SyncStats → ℕ
  settled stats = stats.inserted + stats.updated + stats.failed

  -- What the storing of a chunk ends in.
  abbrev pub StoreEnds : SyncStats → Table → List ValueRow → Option SyncStats × Table → Type 0
  StoreEnds stats table rows (none, final) = Overflows table rows
  StoreEnds stats table rows (some s, final) =
      (settled s ≡ settled stats + length rows) × (s.total ≡ stats.total) × Stores table rows final

  pub store_chunk-StoreEnds :
      (stats : SyncStats) (table : Table) (rows : List ValueRow)
      → 0 < length rows
      → StoreEnds stats table rows (store_chunk db stats table rows)
  unfolding store_chunk flush_chunk
  store_chunk-StoreEnds stats table [] n = absurd (omega (arith, n))
  store_chunk-StoreEnds stats table (row ∷ rows) n =
      elim (Executed-cases (db.existing_ids table (ids_of (row ∷ rows)))) [
        | inr (inl e) ↦ rw (store_chunk, flush_chunk, e) (omega arith, refl, inr (inl e, refl))
        | inr (inr e) ↦ rw (store_chunk, flush_chunk, e) (inl e)
        | inl (known, e) ↦ elim (Executed-cases (db.upsert table (row ∷ rows))) [
          | inr (inl f) ↦ rw (store_chunk, flush_chunk, e, f) (omega arith, refl, inr (inr f, refl))
          | inr (inr f) ↦ rw (store_chunk, flush_chunk, e, f) (inr f)
          | inl (table', f) ↦
              rw (store_chunk, flush_chunk, e, f)
                (omega (arith, count_known-le known (row ∷ rows)), refl, inl ((known, e), f))
        ]
      ]

  -- The chunk that is waiting counts as not settled yet.
  abbrev IsRunning : State Table → Type 0
  IsRunning st = settled st.stats + length st.chunk ≡ st.stats.total

  -- A chunk somewhere makes a statement raise what is no SQLAlchemyError.
  abbrev pub OverflowsOnce : Type 0
  OverflowsOnce = (table : Table) × (rows : List ValueRow) × Overflows table rows

  abbrev RunsOn : ℕ → Option (State Table) → Type 0
  RunsOn total none = OverflowsOnce
  RunsOn total (some st) = IsRunning st × (st.stats.total ≡ total)

  emptied-RunsOn :
      (stats : SyncStats) (table : Table) (rows : List ValueRow) (stored : Option SyncStats × Table)
      → settled stats + length rows ≡ stats.total
      → StoreEnds stats table rows stored
      → RunsOn stats.total (emptied db stored)
  unfolding emptied
  emptied-RunsOn stats table rows (none, final) h e = (table, rows, e)
  emptied-RunsOn stats table rows (some s, final) h (e, t, _) = (omega (arith, h, e, t), t)

  add_row-RunsOn :
      (size : ℕ) (st : State Table) (row : ValueRow)
      → settled st.stats + length st.chunk + 1 ≡ st.stats.total
      → RunsOn st.stats.total (add_row db size st row)
  unfolding add_row
  add_row-RunsOn size st row h =
      let l = length-append st.chunk (row ∷ []) in
      elim (Bool-cases (leb size (length (st.chunk ++ row ∷ [])))) [
        | inl e ↦
            rw (e, add_row)
              (emptied-RunsOn st.stats st.table (st.chunk ++ row ∷ []) _ (omega (arith, h, l))
                (store_chunk-StoreEnds st.stats st.table (st.chunk ++ row ∷ []) (omega (arith, l))))
        | inr e ↦ rw (e, add_row) (omega (arith, h, l), refl)
      ]

  -- How the loop over the rows ends: it raises for a row's URL, for the text or for a statement, or
  -- returns statistics.
  abbrev pub Ends : Reader → ℕ → ℕ → List (List Text) → Bool → Option SyncStats → Type 0
  Ends reader now counted rows broken none =
      (valid_rows reader now rows ≡ none) ⊎ (broken ≡ true) ⊎ OverflowsOnce
  Ends reader now counted rows broken (some stats) =
      IsBalanced stats × (stats.total ≡ counted + length rows)

  Ends-next :
      (reader : Reader) (now counted : ℕ) (cells : List Text) (rows : List (List Text))
      (broken : Bool) (ended : Option SyncStats)
      → (valid_rows reader now rows ≡ none → valid_rows reader now (cells ∷ rows) ≡ none)
      → Ends reader now (counted + 1) rows broken ended
      → Ends reader now counted (cells ∷ rows) broken ended
  Ends-next reader now counted cells rows broken none h (inl v) = inl (h v)
  Ends-next reader now counted cells rows broken none h (inr x) = inr x
  Ends-next reader now counted cells rows broken (some stats) h (b, t) = (b, omega (arith, t))

  stored-Ends :
      (reader : Reader) (now : ℕ) (stats : SyncStats) (table : Table) (rows : List ValueRow)
      (stored : Option SyncStats × Table)
      → settled stats + length rows ≡ stats.total
      → StoreEnds stats table rows stored
      → Ends reader now stats.total [] false stored.0
  stored-Ends reader now stats table rows (none, final) h e = inr (inr (table, rows, e))
  stored-Ends reader now stats table rows (some s, final) h (e, t, _) =
      (omega (arith, h, e, t), omega (arith, t))

  finish-Ends :
      (reader : Reader) (now : ℕ) (stats : SyncStats) (chunk : List ValueRow) (table : Table)
      → settled stats + length chunk ≡ stats.total
      → Ends reader now stats.total [] false
          (finish db (record { stats = stats; chunk = chunk; table = table })).0
  unfolding finish
  finish-Ends reader now stats [] table h = (omega (arith, h), omega arith)
  finish-Ends reader now stats (row ∷ rows) table h =
      stored-Ends reader now stats table (row ∷ rows) _ h
        (store_chunk-StoreEnds stats table (row ∷ rows) (omega arith))

  sync_rows-Ends :
      (reader : Reader) (now size : ℕ) (rows : List (List Text)) (broken : Bool) (st : State Table)
      → IsRunning st
      → Ends reader now st.stats.total rows broken (sync_rows db reader now size st rows broken).0
  unfolding sync_rows count_row fail_row
  sync_rows-Ends reader now size [] true st h = inr (inl refl)
  sync_rows-Ends reader now size [] false st h = finish-Ends reader now st.stats st.chunk st.table h
  sync_rows-Ends reader now size (cells ∷ rows) broken st h =
      elim (read_row-cases (read_row reader now cells)) [
        | inl e ↦ rw (e, sync_rows) (inl (rw (e, valid_rows) refl))
        | inr (inl e) ↦
            Ends-next reader now st.stats.total cells rows broken _ (λ v. rw (e, valid_rows) v)
              (rw (e, sync_rows)
                (sync_rows-Ends reader now size rows broken
                  (record st { stats = fail_row (count_row st.stats) }) (omega (arith, h))))
        | inr (inr (row, e)) ↦
            let counted = record st { stats = count_row st.stats } in
            let runs = add_row-RunsOn size counted row (omega (arith, h)) in
            Ends-next reader now st.stats.total cells rows broken _
              (λ v. rw (e, valid_rows, v) refl)
              (elim (Option-cases (add_row db size counted row)) [
                | inl a ↦ rw (e, a, sync_rows) (inr (inr (rw a at runs)))
                | inr (st', a) ↦
                    let (running, total) : RunsOn counted.stats.total (some st') = rw a at runs in
                    rw (e, a, sync_rows)
                      (subst
                        (λ t.
                          Ends reader now t rows broken
                            (sync_rows db reader now size st' rows broken).0)
                        total (sync_rows-Ends reader now size rows broken st' running))
              ])
      ]

  pub sync_urlhaus-Ends :
      (reader : Reader) (now : ℕ) (csv_text : Text) (table : Table)
      → Ends reader now 0
          (iter_raw_rows reader csv_text).0
          (iter_raw_rows reader csv_text).1
          (sync_urlhaus db reader now (response 200 csv_text) table).0
  unfolding sync_urlhaus fetch_csv sync_csv
  sync_urlhaus-Ends reader now csv_text table =
      sync_rows-Ends reader now chunk_size (iter_raw_rows reader csv_text).0
        (iter_raw_rows reader csv_text).1 (record { stats = no_stats; chunk = []; table = table })
        refl
