-- ===== src/Utils.antt =====
-- vumi/utils.py: the telephone numbers and the routing keys. Texts are byte strings, so that `isdigit` is
-- true of the ten digits only.
pub mod Msisdn
mod Tests
use Prim.Native.Char.{Char, code}
use Prim.Native.String as S
use vumi.Base.{ℕ, ◌==◌, String, Bool, ◌&&◌, ◌||◌, Option, ◌++◌, leb, if◌then◌else◌, suc, zero}
use vumi.Base.Dict.{Dict, lookup}
use vumi.Base.Text.{starts_with}

-- `len(s)`
unfoldable pub size : String → ℕ
size S.[] = 0
size (S.◌∷◌ c s) = suc (size s)

-- `s[1:]`
abbrev pub tail : String → String
tail S.[] = S.[]
tail (S.◌∷◌ c s) = s

-- `c.isdigit() or c == '+'`
abbrev pub is_dialled : Char → Bool
is_dialled c = (leb 48 (code c) && leb (code c) 57) || (code c == 43)

unfoldable pub dialled : String → String
dialled S.[] = S.[]
dialled (S.◌∷◌ c s) = let rest = dialled s in if is_dialled c then S.◌∷◌ c rest else rest

-- What `normalize_msisdn` does with a number that has nothing else in it.
unfoldable pub normalize_dialled : String → String → String
unfolding starts_with
normalize_dialled raw country_code =
    if starts_with "00" raw
    then S.◌∷◌ "+" (tail (tail raw))
    else if starts_with "0" raw
    then S.◌∷◌ "+" (S.◌++◌ country_code (tail raw))
    else if starts_with "+" raw
    then raw
    else if starts_with country_code raw
    then S.◌∷◌ "+" raw
    else raw

unfoldable pub normalize_msisdn : String → String → String
unfolding size dialled normalize_dialled
normalize_msisdn raw country_code =
    if leb (size raw) 5 then raw else normalize_dialled (dialled raw) country_code

-- `re.sub('\\+', '', number)`
unfoldable pub without_plus : String → String
without_plus S.[] = S.[]
without_plus (S.◌∷◌ c s) = let rest = without_plus s in if code c == 43 then rest else S.◌∷◌ c rest

unfoldable pub cleanup_msisdn : String → String → String
unfolding without_plus starts_with
cleanup_msisdn number country_code =
    let number = without_plus number in
    if starts_with "0" number then S.◌++◌ country_code (tail number) else number

-- Operators by the start of a number, at each level in the order in which the dict gives them.
mutual
  pub data Operator : Type 0 where
    operator : String → Operator
    longer : Operators → Operator

  pub data Operators : Type 0 where
    none_left : Operators
    prefixed : String → Operator → Operators → Operators

unfoldable pub get_operator_name : String → Operators → String
unfolding starts_with
get_operator_name msisdn none_left = "UNKNOWN"
get_operator_name msisdn (prefixed key (operator name) rest) =
    let later = get_operator_name msisdn rest in if starts_with key msisdn then name else later
get_operator_name msisdn (prefixed key (longer mapping) rest) =
    let later = get_operator_name msisdn rest in
    let here = get_operator_name msisdn mapping in if starts_with key msisdn then here else later

unfoldable pub get_operator_number : String → String → Operators → Dict String → Option String
unfolding cleanup_msisdn get_operator_name
get_operator_number msisdn country_code mapping numbers =
    lookup (get_operator_name (cleanup_msisdn msisdn country_code) mapping) numbers

-- `*` becomes `s` and `#` becomes `h`.
unfoldable pub safe_routing_key : String → String
safe_routing_key S.[] = S.[]
safe_routing_key (S.◌∷◌ c s) =
    let rest = safe_routing_key s in
    if code c == 42 then S.◌∷◌ "s" rest else if code c == 35 then S.◌∷◌ "h" rest else S.◌∷◌ c rest
