-- ===== src/ThreatDb/Gsb.antt =====
-- app/services/threat_db/gsb.py: one request to the Lookup API, and the result for each way in which
-- it can end. The reply of the HTTP client is the argument; `none` is an exception that `check_gsb`
-- does not catch, for JSON of another shape.
use lin_clean_be_fastapi.Prelude.{
  ℕ, Bool, true, false, ◌&&◌, ◌||◌, not, ◌≡◌, ◌≢◌, refl, ◌⊎◌, inl, inr, Option, none, some, List,
  [], ◌∷◌, ◌++◌, Text, text, is_empty, truthy, decimal, leb, ltb, ◌==◌, if◌then◌else◌, Bool-cases,
  Option-cases, arith, sym, ◌∙◌,
}
use lin_clean_be_fastapi.Schemas.Results.{GsbMatch, GsbResult}
use lin_clean_be_fastapi.Content.OpenAi.Json.{
  ◌>>=◌, Json, null, boolean, number, string, array, object, Elements, element, end_of_array,
  Members, member, end_of_object, get,
}
use lin_clean_be_fastapi.ThreatDb.Merge.{is_nil}

-- The body of a reply: no JSON, or a value.
pub data Body : Type 0 where
  no_json : Body
  json : Json → Body

pub data Reply : Type 0 where
  timed_out : Reply
  http_error : Reply
  response : ℕ → Body → Reply

abbrev pub unchecked : Text → GsbResult
unchecked error = record { checked = false; is_threat = false; matches = []; error = some error }

-- `m.get("threatType", "UNKNOWN")`, which GSBMatch takes if it is a text.
unfoldable pub threat_type_of : Option Json → Option Text
threat_type_of none = some (text "UNKNOWN")
threat_type_of (some (string s)) = some s
threat_type_of (some _) = none

-- `m.get(key)`, which GSBMatch takes if it is a text or None.
unfoldable pub optional_text : Option Json → Option (Option Text)
optional_text none = some none
optional_text (some null) = some none
optional_text (some (string s)) = some (some s)
optional_text (some _) = none

unfoldable pub to_match : Json → Option GsbMatch
to_match (object m) = do
  threat_type ← threat_type_of (get (text "threatType") m)
  platform_type ← optional_text (get (text "platformType") m)
  cache_duration ← optional_text (get (text "cacheDuration") m)
  some (record {
    threat_type = threat_type;
    platform_type = platform_type;
    cache_duration = cache_duration;
  })
to_match _ = none

unfoldable pub to_matches : Elements → Option (List GsbMatch)
to_matches end_of_array = some []
to_matches (element m ms) = do found ← to_match m; rest ← to_matches ms; some (found ∷ rest)

-- The list of the matches, from `data.get("matches") or []`. A value that is true as a condition and
-- no array has no elements that are objects. The argument says which numbers are zero.
unfoldable pub matches_of : (Text → Bool) → Option Json → Option (List GsbMatch)
matches_of is_zero none = some []
matches_of is_zero (some null) = some []
matches_of is_zero (some (boolean b)) = if b then none else some []
matches_of is_zero (some (number n)) = if is_zero n then some [] else none
matches_of is_zero (some (string s)) = if is_empty s then some [] else none
matches_of is_zero (some (array ms)) = to_matches ms
matches_of is_zero (some (object end_of_object)) = some []
matches_of is_zero (some (object (member key value rest))) = none

abbrev pub checked_with : List GsbMatch → GsbResult
checked_with matches = record {
  checked = true;
  is_threat = not (is_nil matches);
  matches = matches;
  error = none;
}

unfoldable pub from_body : (Text → Bool) → Body → Option GsbResult
from_body is_zero no_json = some (unchecked (text "invalid_response"))
from_body is_zero (json (object members)) = do
  matches ← matches_of is_zero (get (text "matches") members)
  some (checked_with matches)
from_body is_zero (json _) = none

unfoldable pub from_status : (Text → Bool) → ℕ → Body → Option GsbResult
from_status is_zero status body =
    if status == 400 || status == 401 || status == 403
    then some (unchecked (text "auth_error"))
    else if status == 429
    then some (unchecked (text "rate_limited"))
    else if leb 500 status && ltb status 600
    then some (unchecked (text "server_error_" ++ decimal status))
    else if not (status == 200)
    then some (unchecked (text "http_error"))
    else from_body is_zero body

unfoldable pub from_reply : (Text → Bool) → Reply → Option GsbResult
from_reply is_zero timed_out = some (unchecked (text "timeout"))
from_reply is_zero http_error = some (unchecked (text "http_error"))
from_reply is_zero (response status body) = from_status is_zero status body

-- `check_gsb` with the API key of the settings.
unfoldable pub check_gsb : (Text → Bool) → Option Text → (Text → Reply) → Text → Option GsbResult
check_gsb is_zero api_key post target =
    if truthy api_key
    then from_reply is_zero (post target)
    else some (unchecked (text "not_configured"))

-- Independent of the code: a reply with status 200 and JSON; one whose matches are not missing, null
-- or empty; and one that lists a match.
unfoldable pub is_answer : Reply → Bool
is_answer (response status (json value)) = status == 200
is_answer _ = false

unfoldable pub lists_something : Reply → Bool
lists_something (response status (json (object members))) = elim (get (text "matches") members) [
  | none ↦ false
  | some null ↦ false
  | some (array end_of_array) ↦ false
  | some _ ↦ true
]
lists_something _ = true

unfoldable pub lists_match : Reply → Bool
lists_match (response status (json (object members))) = elim (get (text "matches") members) [
  | some (array (element m ms)) ↦ true
  | _ ↦ false
]
lists_match _ = false

-- What a call ends in, for whether there is a key and for the reply.
abbrev pub IsHonest : Bool → Reply → Option GsbResult → Type 0
IsHonest has_key reply none = ((has_key && is_answer reply) ≡ true) × (lists_something reply ≡ true)
IsHonest has_key reply (some r) =
    (((has_key && is_answer reply) ≡ true)
      × (r.checked ≡ true)
      × (r.error ≡ none)
      × (r.is_threat ≡ lists_match reply))
    ⊎ (((has_key && is_answer reply) ≡ false)
        × (r.checked ≡ false)
        × (r.error ≢ none)
        × (r.is_threat ≡ false)
        × (r.matches ≡ []))

unchecked-IsHonest :
    (has_key : Bool) (reply : Reply) (error : Text)
    → (has_key && is_answer reply) ≡ false
    → IsHonest has_key reply (some (unchecked error))
unchecked-IsHonest has_key reply error h = inr (h, refl, (λ e. cc), refl, refl)

-- Whether a list was read, and then whether it has elements.
abbrev Has : Bool → Option (List GsbMatch) → Type 0
Has more none = Unit
Has more (some matches) = not (is_nil matches) ≡ more

to_matches-Has : (m : Json) (ms : Elements) → Has true (to_matches (element m ms))
unfolding to_matches is_nil
to_matches-Has m ms = elim (Option-cases (to_match m)) [
  | inl e ↦ rw (e, to_matches) tt
  | inr (found, e) ↦ elim (Option-cases (to_matches ms)) [
    | inl f ↦ rw (e, f, to_matches) tt
    | inr (rest, f) ↦ rw (e, f, to_matches) refl
  ]
]

module _ (is_zero : Text → Bool) (members : Members) where
  abbrev this : Reply
  this = response 200 (json (object members))

  with_matches :
      (more : Bool) (found : Option (List GsbMatch))
      → lists_match this ≡ more
      → (found ≡ none → lists_something this ≡ true)
      → Has more found
      → IsHonest true this (found >>= λ matches. some (checked_with matches))
  unfolding is_answer
  with_matches more none m s h = (refl, s refl)
  with_matches more (some matches) m s h = inl (refl, refl, refl, h ∙ sym m)

  from_matches-IsHonest :
      (found : Option Json)
      → get (text "matches") members ≡ found
      → IsHonest true this (matches_of is_zero found >>= λ matches. some (checked_with matches))
  unfolding matches_of lists_match lists_something is_nil to_matches is_empty
  from_matches-IsHonest none e =
      with_matches false (some []) (rw (e, lists_match) refl) (λ n. absurd cc) refl
  from_matches-IsHonest (some null) e =
      with_matches false (some []) (rw (e, lists_match) refl) (λ n. absurd cc) refl
  from_matches-IsHonest (some (boolean true)) e =
      with_matches false none (rw (e, lists_match) refl) (λ n. rw (e, lists_something) refl) tt
  from_matches-IsHonest (some (boolean false)) e =
      with_matches false (some []) (rw (e, lists_match) refl) (λ n. absurd cc) refl
  from_matches-IsHonest (some (number n)) e =
      with_matches false _ (rw (e, lists_match) refl) (λ q. rw (e, lists_something) refl)
        (either_empty (is_zero n))
    where
      either_empty : (b : Bool) → Has false (if b then some [] else none)
      either_empty true = refl
      either_empty false = tt
  from_matches-IsHonest (some (string [])) e =
      with_matches false (some []) (rw (e, lists_match) refl) (λ n. absurd cc) refl
  from_matches-IsHonest (some (string (c ∷ s))) e =
      with_matches false none (rw (e, lists_match) refl) (λ n. rw (e, lists_something) refl) tt
  from_matches-IsHonest (some (array end_of_array)) e =
      with_matches false (some []) (rw (e, lists_match) refl) (λ n. absurd cc) refl
  from_matches-IsHonest (some (array (element m ms))) e =
      with_matches true (to_matches (element m ms)) (rw (e, lists_match) refl)
        (λ n. rw (e, lists_something) refl) (to_matches-Has m ms)
  from_matches-IsHonest (some (object end_of_object)) e =
      with_matches false (some []) (rw (e, lists_match) refl) (λ n. absurd cc) refl
  from_matches-IsHonest (some (object (member k v rest))) e =
      with_matches false none (rw (e, lists_match) refl) (λ n. rw (e, lists_something) refl) tt

from_body-IsHonest :
    (is_zero : Text → Bool) (body : Body)
    → IsHonest true (response 200 body) (from_body is_zero body)
unfolding from_body is_answer lists_something
from_body-IsHonest is_zero no_json = unchecked-IsHonest true (response 200 no_json) _ refl
from_body-IsHonest is_zero (json (object members)) =
    from_matches-IsHonest is_zero members (get (text "matches") members) refl
from_body-IsHonest is_zero (json null) = (refl, refl)
from_body-IsHonest is_zero (json (boolean b)) = (refl, refl)
from_body-IsHonest is_zero (json (number n)) = (refl, refl)
from_body-IsHonest is_zero (json (string s)) = (refl, refl)
from_body-IsHonest is_zero (json (array ms)) = (refl, refl)

not_200 :
    (status : ℕ) (body : Body)
    → (status == 200) ≡ false
    → (true && is_answer (response status body)) ≡ false
unfolding is_answer
not_200 status no_json h = refl
not_200 status (json value) h = h

from_status-IsHonest :
    (is_zero : Text → Bool) (status : ℕ) (body : Body)
    → IsHonest true (response status body) (from_status is_zero status body)
unfolding from_status
from_status-IsHonest is_zero status body =
    elim (Bool-cases (status == 400 || status == 401 || status == 403)) [
      | inl e ↦ rw (e, from_status) (fails (text "auth_error") (ground arith))
      | inr e ↦ elim (Bool-cases (status == 429)) [
        | inl f ↦ rw (e, f, from_status) (fails (text "rate_limited") (ground arith))
        | inr f ↦ elim (Bool-cases (leb 500 status && ltb status 600)) [
          | inl g ↦
              rw (e, f, g, from_status)
                (fails (text "server_error_" ++ decimal status) (ground arith))
          | inr g ↦ elim (Bool-cases (status == 200)) [
            | inl h ↦
                let same : status ≡ 200 = ground (arith, h) in
                rw (e, f, g, h, from_status) (rw same (from_body-IsHonest is_zero body))
            | inr h ↦ rw (e, f, g, h, from_status) (fails (text "http_error") h)
          ]
        ]
      ]
    ]
  where
    fails :
        (error : Text)
        → (status == 200) ≡ false
        → IsHonest true (response status body) (some (unchecked error))
    fails error h = unchecked-IsHonest true (response status body) error (not_200 status body h)

reply-IsHonest :
    (is_zero : Text → Bool) (reply : Reply) → IsHonest true reply (from_reply is_zero reply)
unfolding from_reply is_answer
reply-IsHonest is_zero timed_out = unchecked-IsHonest true timed_out _ refl
reply-IsHonest is_zero http_error = unchecked-IsHonest true http_error _ refl
reply-IsHonest is_zero (response status body) = from_status-IsHonest is_zero status body

pub check_gsb-IsHonest :
    (is_zero : Text → Bool) (api_key : Option Text) (post : Text → Reply) (target : Text)
    → IsHonest (truthy api_key) (post target) (check_gsb is_zero api_key post target)
unfolding check_gsb
check_gsb-IsHonest is_zero api_key post target = elim (Bool-cases (truthy api_key)) [
  | inl e ↦ rw (e, check_gsb) (reply-IsHonest is_zero (post target))
  | inr e ↦ rw (e, check_gsb) (unchecked-IsHonest false (post target) (text "not_configured") refl)
]
