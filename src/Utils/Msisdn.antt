-- ===== src/Utils/Msisdn.antt =====
-- Normalising a number again changes nothing.
use Prim.Native.String as S
use text.Mathlib.TextLemmas.{cons-append, nil-append}
use vumi.Base.{String, ◌≡◌, refl, Bool, true, ◌&&◌, arith, Bool-cases, inl, inr, leb}
use vumi.Base.Text.{starts_with}
use vumi.Utils.{size, tail, is_dialled, dialled, normalize_dialled, normalize_msisdn}

unfoldable pub all_dialled : String → Bool
all_dialled S.[] = true
all_dialled (S.◌∷◌ c s) = is_dialled c && all_dialled s

dialled-all : (s : String) → all_dialled s ≡ true → dialled s ≡ s
unfolding dialled all_dialled
dialled-all S.[] h = refl
dialled-all (S.◌∷◌ c s) h = ground (arith, h, dialled-all s)

all-dialled : (s : String) → all_dialled (dialled s) ≡ true
unfolding dialled all_dialled
all-dialled S.[] = refl
all-dialled (S.◌∷◌ c s) = elim (Bool-cases (is_dialled c)) [
  | inl keep ↦ rw keep (rw keep (all-dialled s))
  | inr drop_ ↦ rw drop_ (all-dialled s)
]

all_dialled-append :
    (s t : String) → all_dialled s ≡ true → all_dialled t ≡ true → all_dialled (S.◌++◌ s t) ≡ true
unfolding all_dialled
all_dialled-append S.[] t h k = rw (nil-append t) k
all_dialled-append (S.◌∷◌ c s) t h k =
    rw (cons-append c s t) (ground (arith, h, k, all_dialled-append s t))

all_dialled-tail : (s : String) → all_dialled s ≡ true → all_dialled (tail s) ≡ true
unfolding all_dialled
all_dialled-tail S.[] h = refl
all_dialled-tail (S.◌∷◌ c s) h = ground (arith, h)

normalize_dialled-all :
    (raw country_code : String)
    → all_dialled raw ≡ true
    → all_dialled country_code ≡ true
    → all_dialled (normalize_dialled raw country_code) ≡ true
unfolding normalize_dialled all_dialled
normalize_dialled-all raw cc h k =
    let one = all_dialled-tail raw h in
    let two = all_dialled-tail (tail raw) one in
    let joined = all_dialled-append cc (tail raw) k one in
    elim (Bool-cases (starts_with "00" raw)) [
      | inl a ↦ rw a two
      | inr a ↦ elim (Bool-cases (starts_with "0" raw)) [
        | inl b ↦ rw a (rw b joined)
        | inr b ↦ elim (Bool-cases (starts_with "+" raw)) [
          | inl c ↦ rw a (rw b (rw c h))
          | inr c ↦ elim (Bool-cases (starts_with cc raw)) [
            | inl d ↦ rw a (rw b (rw c (rw d h)))
            | inr d ↦ rw a (rw b (rw c (rw d h)))
          ]
        ]
      ]
    ]

normalize_dialled_again :
    (raw country_code : String)
    → normalize_dialled (normalize_dialled raw country_code) country_code
      ≡ normalize_dialled raw country_code
unfolding normalize_dialled starts_with
normalize_dialled_again raw cc = elim (Bool-cases (starts_with "00" raw)) [
  | inl a ↦ rw a refl
  | inr a ↦ elim (Bool-cases (starts_with "0" raw)) [
    | inl b ↦ rw a (rw b refl)
    | inr b ↦ elim (Bool-cases (starts_with "+" raw)) [
      | inl c ↦ rw a (rw b (rw c (rw a (rw b (rw c refl)))))
      | inr c ↦ elim (Bool-cases (starts_with cc raw)) [
        | inl d ↦ rw a (rw b (rw c (rw d refl)))
        | inr d ↦ rw a (rw b (rw c (rw d (rw a (rw b (rw c (rw d refl)))))))
      ]
    ]
  ]
]

-- Normalising a number that is normalised already changes nothing, where the country code has only
-- digits and `+`. This holds of short codes, of numbers with other characters in them, and of every
-- way in which a number may start.
pub normalize_msisdn-normalize_msisdn :
    (raw country_code : String)
    → all_dialled country_code ≡ true
    → normalize_msisdn (normalize_msisdn raw country_code) country_code
      ≡ normalize_msisdn raw country_code
unfolding normalize_msisdn
normalize_msisdn-normalize_msisdn raw cc k = elim (Bool-cases (leb (size raw) 5)) [
  | inl short ↦ rw short (rw short refl)
  | inr long ↦
      let out = normalize_dialled (dialled raw) cc in
      let same = dialled-all out (normalize_dialled-all (dialled raw) cc (all-dialled raw) k) in
      let again = normalize_dialled_again (dialled raw) cc in
      rw long (elim (Bool-cases (leb (size out) 5)) [
        | inl shorter ↦ rw shorter refl
        | inr longer_ ↦ rw longer_ (rw same again)
      ])
]
