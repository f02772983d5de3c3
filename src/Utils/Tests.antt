-- ===== src/Utils/Tests.antt =====
-- The theorem on telephone numbers at a concrete number, and runs of the helpers.
use vumi.Base.{◌≡◌, refl}
use vumi.Base.{some, [], ◌∷◌}
use vumi.Base.Dict.{lookup}
use vumi.Utils.{
  normalize_msisdn, safe_routing_key, prefixed, operator, longer, none_left, get_operator_number,
}
use vumi.Utils.Msisdn.{all_dialled, normalize_msisdn-normalize_msisdn}

normalize_msisdn_run : normalize_msisdn "076 123-4567" "27" ≡ "+27761234567"
unfolding normalize_msisdn
normalize_msisdn_run = refl

normalize_msisdn-normalize_msisdn_example :
    normalize_msisdn (normalize_msisdn "076 123-4567" "27") "27"
    ≡ normalize_msisdn "076 123-4567" "27"
unfolding all_dialled
normalize_msisdn-normalize_msisdn_example =
    normalize_msisdn-normalize_msisdn "076 123-4567" "27" refl

safe_routing_key_run : safe_routing_key "*32323#" ≡ "s32323h"
unfolding safe_routing_key
safe_routing_key_run = refl

get_operator_number_run :
    get_operator_number "+0761234" "27"
      (prefixed "27" (longer (prefixed "2776" (operator "VODACOM") none_left)) none_left)
      (("VODACOM", "*120#") ∷ [])
    ≡ some "*120#"
unfolding get_operator_number lookup
get_operator_number_run = refl
