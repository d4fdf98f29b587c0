-- ===== src/Content/OpenAi/Json.antt =====
-- The values that `json` reads, and how app/services/content_analyzer/ai_openai.py takes them apart.
use lin_clean_be_fastapi.Prelude.{Bool, Option, none, some, Text, text_eq, if◌then◌else◌}

infixl 10 ◌>>=◌
abbrev pub ◌>>=◌ : {A B : Type 0} → Option A → (A → Option B) → Option B
none >>= f = none
some a >>= f = f a

-- A value that `json` reads; a number is its literal, and a key of an object stands once.
mutual
  pub data Json : Type 0 where
    null : Json
    boolean : Bool → Json
    number : Text → Json
    string : Text → Json
    array : Elements → Json
    object : Members → Json

  pub data Elements : Type 0 where
    end_of_array : Elements
    element : Json → Elements → Elements

  pub data Members : Type 0 where
    end_of_object : Members
    member : Text → Json → Members → Members

-- `members.get(key)`
unfoldable pub get : Text → Members → Option Json
unfolding text_eq
get key end_of_object = none
get key (member name value members) = if text_eq key name then some value else get key members

unfoldable pub not_null : Json → Option Json
not_null null = none
not_null value = some value

-- `members.get(key)`, with `none` also for null.
unfoldable pub get_value : Text → Members → Option Json
unfolding get not_null
get_value key members = do value ← get key members; not_null value

-- `value[0]` and `value[key]`, with `none` for a KeyError, TypeError or IndexError.
unfoldable pub first_element : Json → Option Json
first_element (array (element value _)) = some value
first_element _ = none

unfoldable pub index : Text → Json → Option Json
unfolding get
index key (object members) = get key members
index key _ = none
