-- ===== src/Sandbox/Api.antt =====
-- `SandboxApi`, `SandboxResource` and `SandboxCommand` of vumi/application/sandbox.py: a request names
-- its resource before the first dot. `S` is what the resources keep. What is sent to the process,
-- killing it and what is logged are noted; the texts of errors, which are taken to be ASCII, are left
-- out.
use Prim.Native.String as Text
use Prim.Native.String.{◌++◌}
use mathlib.Core.List.{◌++◌ as append}
use vumi.Base.{String, Bool, true, false, Option, none, some, List, [], ◌∷◌, str_eq, if◌then◌else◌}
use vumi.Base.Dict.{Dict, lookup, lookup_or, insert}
use vumi.Base.Exec.{Exec, Result, ok, err, type_error, pure, raise, modify, skip, ◌>>=◌, ◌>>◌}

-- A command with its other fields. A process may send any value as `cmd`: `none` is one that is not a
-- text.
pub record Command : Type 0 where
  pub cmd : Option String
  pub cmd_id : String
  pub is_reply : Bool
  pub fields : Dict String

pub record Api (S : Type 0) : Type 0 where
  pub state : S
  pub inbound_messages : Dict String
  pub sent : List Command
  pub killed : Bool
  pub logged : List String

-- `cmd.partition('.')`
unfoldable pub partition : String → String × String × String
partition Text.[] = ("", "", "")
partition (Text.◌∷◌ c s) =
    let (before, sep, after) = partition s in
    if str_eq (Text.◌∷◌ c "") "." then ("", ".", s) else (Text.◌∷◌ c before, sep, after)

-- The name of the resource, the dot if there is one, and the rest of the command.
unfoldable pub split_command : String → String × String × String
unfolding partition
split_command cmd =
    let (before, sep, after) = partition cmd in
    if str_eq sep "" then ("", sep, before) else (before, sep, after)

-- `SandboxResource.reply`
abbrev pub reply : Command → Dict String → Command
reply command kwargs = record {
  cmd = command.cmd;
  cmd_id = command.cmd_id;
  is_reply = true;
  fields = kwargs;
}

-- A resource is its handlers by the name of the command.
abbrev pub Resource : Type 0 → Type 0
Resource S = Dict (Command → Exec (Api S) (Option Command))

-- What is sent instead of a reply after an error.
abbrev pub failure : Command → Command
failure command = record {
  cmd = some "unknown";
  cmd_id = command.cmd_id;
  is_reply = true;
  fields = ("success", "false") ∷ [];
}

-- A value that is not a text is not shown.
abbrev pub shown : Option String → String
shown none = ""
shown (some cmd) = cmd

module _ {S : Type 0} where
  abbrev pub sandbox_send : Command → Exec (Api S) (Unit {0})
  sandbox_send c = modify (λ s. record s { sent = append s.sent (c ∷ []) })

  abbrev pub sandbox_kill : Exec (Api S) (Unit {0})
  sandbox_kill = modify (λ s. record s { killed = true })

  abbrev pub log : String → Exec (Api S) (Unit {0})
  log msg = modify (λ s. record s { logged = append s.logged (msg ∷ []) })

  unfoldable pub unknown_request : Command → Exec (Api S) (Option Command)
  unknown_request command = do
    log ("unknown command " ++ shown command.cmd)
    sandbox_kill
    pure none

  unfoldable pub dispatch_to_resource : Resource S → Command → Exec (Api S) (Option Command)
  unfolding unknown_request
  dispatch_to_resource resource command = elim command.cmd [
    | none ↦ unknown_request command
    | some cmd ↦ lookup_or cmd resource unknown_request command
  ]

  -- The reply to send: an error is answered with a failure.
  abbrev pub caught : Command → Result (Option Command) → Exec (Api S) (Option Command)
  caught command (ok found) = pure found
  caught command (err e) = do log "error"; pure (some (failure command))

  abbrev pub send_reply : String → Option Command → Exec (Api S) (Unit {0})
  send_reply cmd none = skip
  send_reply cmd (some c) = sandbox_send (record c { cmd = some cmd })

  abbrev pub dispatch_text : Dict (Resource S) → Command → String → Exec (Api S) (Unit {0})
  dispatch_text resources command cmd s =
      let (name, sep, rest) = split_command cmd in
      let named = record command { cmd = some rest } in
      let (res, s') = dispatch_to_resource (lookup_or name resources []) named s in
      (do found ← caught named res; send_reply (name ++ sep ++ rest) found) s'

  -- Only a text has `partition`.
  unfoldable pub dispatch_request : Dict (Resource S) → Command → Exec (Api S) (Unit {0})
  unfolding split_command dispatch_to_resource
  dispatch_request resources command = elim command.cmd [
    | none ↦ raise type_error
    | some cmd ↦ dispatch_text resources command cmd
  ]

  -- The messages that the process has been given, by their ids; `cmd_id` is generated.
  unfoldable pub sandbox_inbound_message : String → String → String → Exec (Api S) (Unit {0})
  sandbox_inbound_message cmd_id message_id msg = do
    modify (λ s. record s { inbound_messages = insert message_id msg s.inbound_messages })
    sandbox_send (record {
      cmd = some "inbound-message";
      cmd_id = cmd_id;
      is_reply = false;
      fields = ("msg", msg) ∷ [];
    })

  unfoldable pub get_inbound_message : String → Api S → Option String
  get_inbound_message message_id s = lookup message_id s.inbound_messages
