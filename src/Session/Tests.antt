-- ===== src/Session/Tests.antt =====
-- The theorems on sessions at concrete inputs.
use vumi.Base.{ℕ, String, ◌≡◌, ◌≢◌, true, false, some, [], ◌∷◌, ◌==◌}
use vumi.Base.Exec.{ok}
use vumi.Redis.State.{Redis, text, hash, value_at}
use vumi.Redis.Keys.{ttl}
use vumi.Session.{session_key, load_session, create_session}
use vumi.Session.Store.{session, create_session_lem}

abbrev store : Redis
store = record {
  values = ("session:u", hash (("a", "1") ∷ [])) ∷ ("other", text "x") ∷ [];
  known = ("session:u", true) ∷ ("other", true) ∷ [];
  expiries = [];
}

create_session_lem_example :
    let (res, r') = create_session (some 60) 5 "5.0" "u" (("b", "2") ∷ []) store in
    (res ≡ ok (session (some 60) 5 "5.0" "u" (("b", "2") ∷ []) store))
    × (load_session "u" r' ≡ (ok (session (some 60) 5 "5.0" "u" (("b", "2") ∷ []) store), r'))
    × ((t : ℕ) → some 60 ≡ some t → (t == 0) ≡ false → ttl 5 (session_key "u") r' ≡ some t)
    × ((j : String) → session_key "u" ≢ j → value_at r' j ≡ value_at store j)
create_session_lem_example = create_session_lem (some 60) 5 "5.0" "u" (("b", "2") ∷ []) store
