-- ===== src/ThreatDb/Table.antt =====
-- The lookup against a table: which rows make a URL a threat.
use lin_clean_be_fastapi.Prelude.{
  Bool, true, false, ◌||◌, ◌≡◌, refl, sym, ◌∙◌, Option, none, some, List, [], ◌∷◌, Text, text_eq,
  mem_text, any, text_eq_iff, ℕ, if◌then◌else◌, arith, Option-cases, inl, inr, All, All-mem_text,
  ◌⊎◌, text, Some,
}
use lin_clean_be_fastapi.Schemas.Results.{MatchType, UrlhausResult}
use lin_clean_be_fastapi.ThreatDb.Urlhaus.{
  Entry, Session, to_result, url_variants, derive_keys, first_row, by_key, first_hit, check_keys,
  check_urlhaus,
}

-- What the two queries answer on a table with these rows, where no error comes up.
abbrev pub row_with_url : Text → List Entry → Option Entry
row_with_url target [] = none
row_with_url target (row ∷ rows) =
    if text_eq row.url target then some row else row_with_url target rows

abbrev pub rows_with_key : List Text → List Entry → List Entry
rows_with_key keys [] = []
rows_with_key keys (row ∷ rows) =
    let rest = rows_with_key keys rows in if mem_text row.match_key keys then row ∷ rest else rest

pub record Answers (session : Session) (rows : List Entry) : Type 0 where
  pub by_url_lem : (target : Text) → session.by_url target ≡ some (row_with_url target rows)
  pub by_keys_lem : (keys : List Text) → session.by_keys keys ≡ some (rows_with_key keys rows)

-- One of the rows has the URL, or one of the URLs.
abbrev pub has_url : Text → List Entry → Bool
has_url target [] = false
has_url target (row ∷ rows) = text_eq row.url target || has_url target rows

abbrev pub has_key : List Entry → Text → Bool
has_key [] key = false
has_key (row ∷ rows) key = text_eq row.match_key key || has_key rows key

abbrev pub any_url : List Entry → List Text → Bool
any_url rows targets = any (λ t. has_url t rows) targets

abbrev is_some : {A : Type 0} → Option A → Bool
is_some none = false
is_some (some a) = true

row_with_url-has_url :
    (target : Text) (rows : List Entry) → is_some (row_with_url target rows) ≡ has_url target rows
row_with_url-has_url target [] = refl
row_with_url-has_url target (row ∷ rows) = ground (arith, row_with_url-has_url target rows)

by_key-has_key : (key : Text) (rows : List Entry) → is_some (by_key key rows) ≡ has_key rows key
unfolding by_key
by_key-has_key key [] = refl
by_key-has_key key (row ∷ rows) = ground (arith, by_key-has_key key rows)

has_key-rows_with_key :
    (key : Text) (keys : List Text) (rows : List Entry)
    → mem_text key keys ≡ true
    → has_key (rows_with_key keys rows) key ≡ has_key rows key
has_key-rows_with_key key keys [] h = refl
has_key-rows_with_key key keys (row ∷ rows) h =
    ground (arith, has_key-rows_with_key key keys rows h, text_eq_iff row.match_key key)

first_hit-is_threat :
    (rows : List Entry) (keys : List Text)
    → (first_hit rows keys).is_threat ≡ any (has_key rows) keys
unfolding first_hit to_result
first_hit-is_threat rows [] = refl
first_hit-is_threat rows (key ∷ keys) =
    ground (arith, by_key-has_key key rows, first_hit-is_threat rows keys)

first_hit-checked :
    (rows : List Entry) (keys : List Text)
    → ((first_hit rows keys).checked ≡ true) × ((first_hit rows keys).error ≡ none)
unfolding first_hit to_result
first_hit-checked rows [] = (refl, refl)
first_hit-checked rows (key ∷ keys) =
    let (c, e) = first_hit-checked rows keys in (ground (arith, c), ground (arith, e))

any-has_key :
    (rows : List Entry) (keys sub : List Text)
    → All (λ k. mem_text k keys ≡ true) sub
    → any (has_key (rows_with_key keys rows)) sub ≡ any (has_key rows) sub
any-has_key rows keys [] h = refl
any-has_key rows keys (k ∷ sub) (m, h) =
    ground (arith, has_key-rows_with_key k keys rows m, any-has_key rows keys sub h)

-- A checked result without an error that tells whether the URL is a threat.
abbrev pub IsReport : Bool → Option UrlhausResult → Type 0
IsReport threat none = ⊥
IsReport threat (some r) = (r.is_threat ≡ threat) × (r.checked ≡ true) × (r.error ≡ none)

module _ (session : Session) (rows : List Entry) (answers : Answers session rows) where
  first_row-any_url :
      (targets : List Text)
      → (o : Option Entry) × (first_row session targets ≡ some o)
        × (is_some o ≡ any_url rows targets)
  unfolding first_row
  first_row-any_url [] = (none, refl, refl)
  first_row-any_url (t ∷ targets) =
      let (o, e, s) = first_row-any_url targets in
      elim (Option-cases (row_with_url t rows)) [
        | inl f ↦ (
          o,
          rw (first_row, answers.by_url_lem t, f) e,
          ground (arith, row_with_url-has_url t rows, f, s),
        )
        | inr (row, f) ↦ (
          some row,
          rw (first_row, answers.by_url_lem t, f) refl,
          ground (arith, row_with_url-has_url t rows, f),
        )
      ]

  check_keys-IsReport :
      (keys : List Text) → IsReport (any (has_key rows) keys) (check_keys session (some keys))
  unfolding check_keys
  check_keys-IsReport [] = (refl, refl, refl)
  check_keys-IsReport (key ∷ keys) =
      let (c, e) = first_hit-checked (rows_with_key (key ∷ keys) rows) (key ∷ keys) in
      rw (check_keys, answers.by_keys_lem (key ∷ keys))
        (
          first_hit-is_threat (rows_with_key (key ∷ keys) rows) (key ∷ keys)
              ∙ any-has_key rows (key ∷ keys) (key ∷ keys) (All-mem_text (key ∷ keys)),
          c,
          e,
        )

  -- After the first query.
  after_rows-IsReport :
      (tenants : Text → Option ℕ) (target : Text) (keys : List Text)
      → derive_keys tenants target ≡ some keys
      → (o : Option Entry) → is_some o ≡ any_url rows (url_variants target)
      → IsReport
          (any_url rows (url_variants target) || any (has_key rows) keys)
          (elim o as (λ (p : Option Entry). Option UrlhausResult) [
            | some row ↦ some (to_result row MatchType.url row.url)
            | none ↦ check_keys session (derive_keys tenants target)
          ])
  unfolding to_result
  after_rows-IsReport tenants target keys h none s = rw (sym s, h) (check_keys-IsReport keys)
  after_rows-IsReport tenants target keys h (some row) s = rw (sym s) (refl, refl, refl)

-- Where the queries answer from a table, and the keys of the URL can be derived, the lookup reports
-- the URL as checked, without an error, and as a threat exactly when a row of the table has one of
-- the URL's variants, or one of its keys.
pub check_urlhaus-IsReport :
    (tenants : Text → Option ℕ) (session : Session) (rows : List Entry) (target : Text)
    (keys : List Text)
    → Answers session rows
    → derive_keys tenants target ≡ some keys
    → IsReport
        (any_url rows (url_variants target) || any (has_key rows) keys)
        (check_urlhaus tenants session target)
unfolding check_urlhaus to_result
check_urlhaus-IsReport tenants session rows target keys answers h =
    let (o, e, s) = first_row-any_url session rows answers (url_variants target) in
    rw (e, check_urlhaus) (after_rows-IsReport session rows answers tenants target keys h o s)

-- The keys lead to no row: there are none, or the second query was answered without a row for any.
abbrev pub HasNoKey : (Text → Option ℕ) → Session → Text → Type 0
HasNoKey tenants session target =
    (derive_keys tenants target ≡ some [])
    ⊎ ((keys : List Text) × (rows : List Entry) × (derive_keys tenants target ≡ some keys)
        × (session.by_keys keys ≡ some rows)
        × All (λ (key : Text). by_key key rows ≡ none) keys)

-- A query of the lookup failed.
abbrev pub HasFailed : (Text → Option ℕ) → Session → Text → Type 0
HasFailed tenants session target =
    Some (λ (candidate : Text). session.by_url candidate ≡ none) (url_variants target)
    ⊎ ((keys : List Text) × (derive_keys tenants target ≡ some keys)
        × (session.by_keys keys ≡ none))

abbrev IsThreat : UrlhausResult → Type 0
IsThreat r = (r.checked ≡ true) × (r.error ≡ none) × (r.is_threat ≡ true)

abbrev IsClear : UrlhausResult → Type 0
IsClear r = (r.checked ≡ true) × (r.error ≡ none) × (r.is_threat ≡ false)

abbrev IsUnknown : UrlhausResult → Type 0
IsUnknown r = (r.checked ≡ false) × (r.error ≡ some (text "db_error")) × (r.is_threat ≡ false)

-- A threat, or clean after queries that all were answered with nothing, or not checked after a query
-- that failed. `none` is a URL whose keys cannot be derived.
abbrev pub IsAnswered : (Text → Option ℕ) → Session → Text → Option UrlhausResult → Type 0
IsAnswered tenants session target none = derive_keys tenants target ≡ none
IsAnswered tenants session target (some r) =
    IsThreat r
    ⊎ (IsClear r
        × All (λ (candidate : Text). session.by_url candidate ≡ some none) (url_variants target)
        × HasNoKey tenants session target)
    ⊎ (IsUnknown r × HasFailed tenants session target)

first_hit-cases :
    (rows : List Entry) (keys : List Text)
    → IsThreat (first_hit rows keys)
      ⊎ (IsClear (first_hit rows keys) × All (λ (key : Text). by_key key rows ≡ none) keys)
unfolding first_hit to_result
first_hit-cases rows [] = inr ((refl, refl, refl), tt)
first_hit-cases rows (key ∷ keys) = elim (Option-cases (by_key key rows)) [
  | inr (hit, e) ↦ rw (e, first_hit) (inl (refl, refl, refl))
  | inl e ↦ elim (first_hit-cases rows keys) [
    | inl t ↦ rw (e, first_hit) (inl t)
    | inr (c, a) ↦ rw (first_hit, e) (inr (c, (refl, a)))
  ]
]

-- What the first queries have shown, by their result.
abbrev Shows : Session → List Text → Option (Option Entry) → Type 0
Shows session candidates none =
    Some (λ (candidate : Text). session.by_url candidate ≡ none) candidates
Shows session candidates (some none) =
    All (λ (candidate : Text). session.by_url candidate ≡ some none) candidates
Shows session candidates (some (some row)) = Unit

Shows-next :
    (session : Session) (candidate : Text) (candidates : List Text) (o : Option (Option Entry))
    → session.by_url candidate ≡ some none
    → Shows session candidates o
    → Shows session (candidate ∷ candidates) o
Shows-next session candidate candidates none e h = inr h
Shows-next session candidate candidates (some none) e h = (e, h)
Shows-next session candidate candidates (some (some row)) e h = tt

row-cases :
    (o : Option (Option Entry))
    → (o ≡ none) ⊎ (o ≡ some none) ⊎ ((row : Entry) × (o ≡ some (some row)))
row-cases none = inl refl
row-cases (some none) = inr (inl refl)
row-cases (some (some row)) = inr (inr (row, refl))

first_row-Shows :
    (session : Session) (candidates : List Text)
    → Shows session candidates (first_row session candidates)
unfolding first_row
first_row-Shows session [] = tt
first_row-Shows session (candidate ∷ candidates) = elim (row-cases (session.by_url candidate)) [
  | inl e ↦ rw (e, first_row) (inl e)
  | inr (inl e) ↦
      rw (e, first_row)
        (Shows-next session candidate candidates _ e (first_row-Shows session candidates))
  | inr (inr (row, e)) ↦ rw (e, first_row) tt
]

check_keys-IsAnswered :
    (tenants : Text → Option ℕ) (session : Session) (target : Text) (keys : Option (List Text))
    → derive_keys tenants target ≡ keys
    → All (λ (candidate : Text). session.by_url candidate ≡ some none) (url_variants target)
    → IsAnswered tenants session target (check_keys session keys)
unfolding check_keys
check_keys-IsAnswered tenants session target none d a = d
check_keys-IsAnswered tenants session target (some []) d a =
    inr (inl ((refl, refl, refl), a, inl d))
check_keys-IsAnswered tenants session target (some (key ∷ keys)) d a =
    elim (Option-cases (session.by_keys (key ∷ keys))) [
      | inl e ↦ rw (check_keys, e) (inr (inr ((refl, refl, refl), inr (key ∷ keys, d, e))))
      | inr (rows, e) ↦ elim (first_hit-cases rows (key ∷ keys)) [
        | inl t ↦ rw (check_keys, e) (inl t)
        | inr (c, n) ↦ rw (check_keys, e) (inr (inl (c, a, inr (key ∷ keys, rows, d, e, n))))
      ]
    ]

pub check_urlhaus-IsAnswered :
    (tenants : Text → Option ℕ) (session : Session) (target : Text)
    → IsAnswered tenants session target (check_urlhaus tenants session target)
unfolding check_urlhaus to_result
check_urlhaus-IsAnswered tenants session target =
    let s = first_row-Shows session (url_variants target) in
    elim (row-cases (first_row session (url_variants target))) [
      | inl e ↦ rw (check_urlhaus, e) (inr (inr ((refl, refl, refl), inl (rw e at s))))
      | inr (inl e) ↦
          rw (check_urlhaus, e)
            (check_keys-IsAnswered tenants session target (derive_keys tenants target) refl
              (rw e at s))
      | inr (inr (row, e)) ↦ rw (check_urlhaus, e) (inl (refl, refl, refl))
    ]
