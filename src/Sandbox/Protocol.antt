-- ===== src/Sandbox/Protocol.antt =====
-- `SandboxProtocol` of vumi/application/sandbox.py: what the process writes comes in pieces, and a
-- request or an error is a line. A request that is dispatched is its line; killing the process and
-- what is logged are steps that are noted.
use Prim.Native.Char.{Char, code}
use Prim.Native.String as Text
use Prim.Native.String.{◌++◌}
use vumi.Base.{
  ℕ, suc, ◌+◌, ◌==◌, String, Bool, true, false, List, [], ◌∷◌, leb, str_eq, if◌then◌else◌,
}
use mathlib.Core.List.{◌++◌ as append}
use vumi.Base.Text.{join}

pub record Process : Type 0 where
  pub recv_limit : ℕ
  pub recv_bytes : ℕ
  pub chunk : String
  pub error_chunk : String
  pub error_lines : List String
  pub requests : List String
  pub killed : Bool
  pub logged : List String

-- `len(data)`
unfoldable pub size : String → ℕ
size Text.[] = 0
size (Text.◌∷◌ c s) = suc (size s)

abbrev pub onto_first : Char → List String → List String
onto_first c [] = (Text.◌∷◌ c "") ∷ []
onto_first c (l ∷ ls) = (Text.◌∷◌ c l) ∷ ls

-- `data.split("\n")`, which has a line at least
unfoldable pub split_lines : String → List String
split_lines Text.[] = "" ∷ []
split_lines (Text.◌∷◌ c s) =
    let rest = split_lines s in if code c == 10 then "" ∷ rest else onto_first c rest

abbrev pub with_chunk : String → List String → List String
with_chunk chunk [] = []
with_chunk chunk (l ∷ ls) = (chunk ++ l) ∷ ls

-- `lines[:-1]` and `lines[-1]`
unfoldable pub all_but_last : List String → List String
all_but_last [] = []
all_but_last (l ∷ []) = []
all_but_last (l ∷ m ∷ ls) = l ∷ all_but_last (m ∷ ls)

unfoldable pub last_line : List String → String
last_line [] = ""
last_line (l ∷ []) = l
last_line (l ∷ m ∷ ls) = last_line (m ∷ ls)

-- `check_recv`, with whether there was room
unfoldable pub check_recv : ℕ → Process → Bool × Process
check_recv nbytes p =
    let p' = record p { recv_bytes = p.recv_bytes + nbytes } in
    if leb p'.recv_bytes p.recv_limit then (true, p') else (
      false,
      record p' {
        killed = true;
        logged = append p.logged ("killed for producing too much data" ∷ []);
      },
    )

unfoldable pub process_data : String → String → Process → List String × Process
unfolding check_recv split_lines size
process_data chunk received p =
    let (fits, p') = check_recv (size received) p in
    (if fits then with_chunk chunk (split_lines received) else "" ∷ [], p')

unfoldable pub out_received : String → Process → Process
unfolding process_data all_but_last last_line
out_received received p =
    let (lines, p') = process_data p.chunk received p in
    record p' { requests = append p.requests (all_but_last lines); chunk = last_line lines }

unfoldable pub out_connection_lost : Process → Process
out_connection_lost p =
    if str_eq p.chunk ""
    then p
    else record p { requests = append p.requests (p.chunk ∷ []); chunk = "" }

unfoldable pub err_received : String → Process → Process
unfolding process_data all_but_last last_line
err_received received p =
    let (lines, p') = process_data p.error_chunk received p in
    record p' {
      error_lines = append p.error_lines (all_but_last lines);
      error_chunk = last_line lines;
    }

unfoldable pub err_connection_lost : Process → Process
err_connection_lost p =
    if str_eq p.error_chunk ""
    then p
    else record p { error_lines = append p.error_lines (p.error_chunk ∷ []); error_chunk = "" }

-- What `processEnded` logs of the error lines.
unfoldable pub log_errors : Process → Process
log_errors p = elim p.error_lines [
  | [] ↦ p
  | l ∷ ls ↦ record p { logged = append p.logged (join "\n" (l ∷ ls) ∷ []); error_lines = [] }
]
