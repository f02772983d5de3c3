-- ===== src/Sandbox/Tests.antt =====
-- The theorems on the sandbox at concrete inputs.
use vumi.Base.{
  ℕ, ◌+◌, ◌≤◌, String, ◌≡◌, refl, false, none, some, List, [], ◌∷◌, arith, if◌then◌else◌,
}
use vumi.Base.Int.{pos}
use vumi.Base.Dict.{lookup}
use vumi.Base.PySet.{member}
use vumi.Base.Exec.{Result, ok, raise, pure, key_error}
use vumi.Redis.State.{empty, text, value_at}
use vumi.Sandbox.Protocol.{
  Process, out_received, process_data, check_recv, split_lines, all_but_last, last_line, size,
}
use vumi.Sandbox.Lines.{receive_all, whole, receive_all_lem}
use vumi.Sandbox.Kv.{Store, success, too_many_keys, sandboxed_key, handle_set}
use vumi.Sandbox.Quota.{Counted}
use vumi.Sandbox.Limits.{allowed, written, handle_set_lem}
use vumi.Sandbox.Requests.{
  Request, set_key_to, get_key, delete_key, incr_key, perform_all, IsWithin, perform_all-IsWithin,
}
use vumi.Sandbox.Api.{Command, Api, Resource, reply}

abbrev process : Process
process = record {
  recv_limit = 20;
  recv_bytes = 0;
  chunk = "";
  error_chunk = "";
  error_lines = [];
  requests = [];
  killed = false;
  logged = [];
}

abbrev pieces : List String
pieces = "{a" ∷ "}\n{b}\n" ∷ "{c" ∷ []

two_requests : (receive_all pieces process).requests ≡ "{a}" ∷ "{b}" ∷ []
unfolding receive_all out_received process_data check_recv split_lines all_but_last last_line size
two_requests = refl

short_enough : process.recv_bytes + size (whole pieces) ≤ process.recv_limit
unfolding whole size
short_enough = omega arith

receive_all_lem_example : receive_all pieces process ≡ out_received (whole pieces) process
receive_all_lem_example = receive_all_lem "{a" ("}\n{b}\n" ∷ "{c" ∷ []) process short_enough

abbrev loads : String → Result String
loads s = ok s

abbrev dumps : String → String
dumps s = s

abbrev no_keys : Store
no_keys = record { redis = empty; logged = [] }

none-Counted : Counted "box" [] empty
unfolding lookup member
none-Counted = record { no_dup = tt; count = refl; held = λ key. refl }

handle_set_lem_example :
    (s' : Store) × (handle_set 1 3 "box" dumps loads (some "k") "v" no_keys
      ≡ (ok (if allowed 1 3 "box" [] "k" then success else too_many_keys), s'))
    × Counted "box" (written 1 3 "box" [] "k") s'.redis
    × (value_at s'.redis (sandboxed_key "box" "k")
        ≡ (if allowed 1 3 "box" [] "k" then some (text (dumps "v")) else none))
handle_set_lem_example = handle_set_lem 1 3 "box" dumps loads [] "k" "v" no_keys none-Counted

abbrev requests : List (Request 1 3 "box" dumps loads)
requests =
    set_key_to (some "k") "v"
    ∷ incr_key (some "n") (some (pos 2))
    ∷ set_key_to (some "l") "w"
    ∷ delete_key (some "k")
    ∷ get_key (some "n")
    ∷ []

perform_all-IsWithin_example :
    IsWithin 1 3 "box" dumps loads (perform_all 1 3 "box" dumps loads requests no_keys)
perform_all-IsWithin_example =
    perform_all-IsWithin 1 3 "box" dumps loads requests no_keys refl ([], none-Counted, omega arith)

-- A resource that echoes, and fails at any other command that it knows.
abbrev echo : Resource ℕ
echo =
    ("echo", λ c. pure (some (reply c (("success", "true") ∷ []))))
    ∷ ("fail", λ c. raise key_error)
    ∷ []

abbrev api : Api ℕ
api = record { state = 0; inbound_messages = []; sent = []; killed = false; logged = [] }

abbrev command : Command
command = record { cmd = some "e.fail"; cmd_id = "7"; is_reply = false; fields = [] }
