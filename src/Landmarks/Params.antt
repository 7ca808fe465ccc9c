-- ===== src/Landmarks/Params.antt =====
-- parseQueryParams, applyFilters and applySorting of internal/api/handlers/landmark_handler.go.
use Prim.Native.Char.{Char, code}
use landmark_api.Common.{
  ℕ, ◌+◌, ◌-◌, ◌*◌, String, Bool, true, Option, none, some, List, [], ◌∷◌, if◌then◌else◌, ◌==◌,
  ◌||◌, ◌&&◌, eqb, ltb, leb,
}
use landmark_api.Common.Text.{is_empty, split, ◌+++◌}
use landmark_api.Common.Int.{ℤ, pos, negsuc}
use landmark_api.Common.Maps.{Map, insert, lookup}
use landmark_api.Models.Landmark.{Landmark}

-- strconv.Atoi in base ten: the digits' number, a text that is no number, or one that is too large.
pub data Digits : Type 0 where
  number : ℕ → Digits
  no_number : Digits
  too_large : Digits

abbrev is_digit : Char → Bool
is_digit c = leb b'0' (code c) && leb (code c) b'9'

unfoldable pub digits : ℕ → String → Digits
digits n String.[] = number n
digits n (String.◌∷◌ c s) =
    let m = n * 10 + (code c - b'0') in
    let rest = digits m s in
    if is_digit c then if ltb m 18446744073709551616 then rest else too_large else no_number

-- At least one digit.
abbrev unsigned : String → Digits
unsigned String.[] = no_number
unsigned s = digits 0 s

abbrev max_int : ℕ
max_int = 9223372036854775807

-- The value that is returned beside an error is kept: 0, or the bound that is passed.
unfoldable pub positive : Digits → ℤ
positive (number n) = if leb n max_int then pos n else pos max_int
positive no_number = pos 0
positive too_large = pos max_int

unfoldable pub negative : Digits → ℤ
negative (number n) =
    if eqb n 0 then pos 0 else if leb n (max_int + 1) then negsuc (n - 1) else negsuc max_int
negative no_number = pos 0
negative too_large = negsuc max_int

unfoldable pub atoi : String → ℤ
unfolding digits positive negative
atoi String.[] = pos 0
atoi (String.◌∷◌ c s) =
    if eqb (code c) b'-'
    then negative (unsigned s)
    else if eqb (code c) b'+'
    then positive (unsigned s)
    else positive (digits 0 (String.◌∷◌ c s))

abbrev checked_positive : Digits → Option ℤ
checked_positive (number n) = if leb n max_int then some (pos n) else none
checked_positive no_number = none
checked_positive too_large = none

abbrev checked_negative : Digits → Option ℤ
unfolding negative
checked_negative (number n) = if leb n (max_int + 1) then some (negative (number n)) else none
checked_negative no_number = none
checked_negative too_large = none

-- strconv.Atoi, `none` where it gives an error.
unfoldable pub checked_atoi : String → Option ℤ
unfolding digits checked_negative
checked_atoi String.[] = none
checked_atoi (String.◌∷◌ c s) =
    if eqb (code c) b'-'
    then checked_negative (unsigned s)
    else if eqb (code c) b'+'
    then checked_positive (unsigned s)
    else checked_positive (digits 0 (String.◌∷◌ c s))

pub record QueryParams : Type 0 where
  pub limit : ℤ
  pub offset : ℤ
  pub sort_by : String
  pub sort_order : String
  pub fields : List String
  pub filters : Map String

abbrev value_or_empty : Option String → String
value_or_empty none = ""
value_or_empty (some v) = v

-- r.URL.Query().Get(k)
abbrev pub get_query : String → List (String × String) → String
get_query k query = value_or_empty (lookup k query)

abbrev pub is_reserved : String → Bool
is_reserved k = (k == "limit" || k == "offset") || (k == "sort" || k == "fields")

-- The first value of each key that is not reserved.
unfoldable pub filters_of : List (String × String) → Map String
filters_of [] = []
filters_of ((k, v) ∷ query) =
    let rest = filters_of query in if is_reserved k then rest else insert k v rest

-- The sort key without its leading "-", and the order that this stands for.
abbrev pub sort_of : String → String × String
sort_of String.[] = ("", "asc")
sort_of (String.◌∷◌ c s) = if eqb (code c) b'-' then (s, "desc") else (String.◌∷◌ c s, "asc")

-- `if limit == 0 { limit = 10 }`
abbrev pub or_ten : ℤ → ℤ
or_ten (pos n) = if eqb n 0 then pos 10 else pos n
or_ten (negsuc n) = negsuc n

unfoldable pub parse_query_params : List (String × String) → QueryParams
unfolding filters_of
parse_query_params query =
    let fields = get_query "fields" query in
    let (sort_by, sort_order) = sort_of (get_query "sort" query) in
    record {
      limit = or_ten (atoi (get_query "limit" query));
      offset = atoi (get_query "offset" query);
      sort_by = sort_by;
      sort_order = sort_order;
      fields = if is_empty fields then [] else split b',' fields;
      filters = filters_of query;
    }

-- The name of the filter goes into the SQL as it is: what the text "<field> = ?" means for a row is
-- up to the database.
module _ (column_is : String → String → Landmark → Bool) where
  unfoldable pub apply_filters : Map String → Landmark → Bool
  apply_filters [] l = true
  apply_filters ((field, value) ∷ filters) l = column_is field value l && apply_filters filters l

abbrev pub allowed_sort_by : String → Bool
allowed_sort_by s = s == "name" || (s == "city" || s == "country")

abbrev pub allowed_sort_order : String → Bool
allowed_sort_order s = s == "asc" || s == "desc"

-- The text of the ORDER BY clause.
unfoldable pub apply_sorting : String → String → String
apply_sorting sort_by sort_order =
    if allowed_sort_by sort_by && allowed_sort_order sort_order
    then sort_by +++ (" " +++ sort_order)
    else "name asc"
