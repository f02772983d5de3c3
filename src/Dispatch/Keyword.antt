-- ===== src/Dispatch/Keyword.antt =====
-- `ContentKeywordRouter` of vumi/dispatchers/base.py, over `Session`. `lower` is `str.lower`.
pub mod Events
use Prim.Native.String as S
use vumi.Base.{
  ℕ, String, Bool, true, false, not, Option, none, some, List, [], ◌∷◌, ◌++◌, if◌then◌else◌, str_eq,
  ◌&&◌, ◌||◌, map,
}
use vumi.Base.Text.{join, starts_with}
use vumi.Base.Dict.{Dict, lookup, lookup_or}
use vumi.Base.Exec.{
  Exec, Result, ok, err, key_error, type_error, config_error, pure, raise, lift, or_raise, skip,
  ◌>>=◌, ◌>>◌,
}
use vumi.Session.{load_session, create_session}
use vumi.Message.{Payload, Value, null, text}
use vumi.Dispatch.{
  Dispatcher, Middlewares, publish, field_of, get_at, log_error, inbound_message, inbound_event,
  outbound_message,
}
use vumi.Dispatch.Grouping.{Worker, on_redis, on_dispatcher}

-- A rule as it is configured.
pub record Configured : Type 0 where
  pub app : Option String
  pub keyword : Option String
  pub to_addr : Option String
  pub prefix : Option String

pub record Rule : Type 0 where
  pub app : String
  pub keyword : String
  pub to_addr : Option String
  pub prefix : Option String

-- `(content or '').partition(' ')[0]`
unfoldable pub get_first_word : String → String
get_first_word S.[] = S.[]
get_first_word (S.◌∷◌ c s) =
    let rest = get_first_word s in if str_eq (S.◌∷◌ c S.[]) " " then S.[] else S.◌∷◌ c rest

abbrev pub content_of : Value → Result String
content_of null = ok ""
content_of (text t) = ok t
content_of _ = err type_error

abbrev pub is_text : String → Value → Bool
is_text t (text u) = str_eq u t
is_text t _ = false

abbrev pub required :
    Option String → Option String → Option String → Option String → (String → String) → Result Rule
required (some app) (some keyword) to_addr prefix lower =
    ok (record { app = app; keyword = lower keyword; to_addr = to_addr; prefix = prefix })
required _ _ to_addr prefix lower = err config_error

-- What `self.rules` is made of: the rules, then the mappings from applications to keywords.
unfoldable pub rules_of : (String → String) → List Configured → Dict String → Result (List Rule)
rules_of lower [] keyword_mappings = ok (
    map (λ m. record { app = m.0; keyword = lower m.1; to_addr = none; prefix = none })
      keyword_mappings)
rules_of lower (c ∷ cs) keyword_mappings =
    let rest = rules_of lower cs keyword_mappings in
    elim (required c.app c.keyword c.to_addr c.prefix lower) [
      | err e ↦ err e
      | ok rule ↦ elim rest [ err e ↦ err e | ok rules ↦ ok (rule ∷ rules) ]
    ]

-- `(not 'to_addr' in rule) or (msg['to_addr'] == rule['to_addr'])`
abbrev pub meets_to_addr : Payload → Option String → Result Bool
meets_to_addr msg none = ok true
meets_to_addr msg (some t) = elim (lookup "to_addr" msg) [
  | none ↦ err key_error
  | some v ↦ ok (is_text t v)
]

abbrev pub has_prefix : String → Value → Result Bool
has_prefix p (text t) = ok (starts_with p t)
has_prefix p _ = err type_error

abbrev pub meets_prefix : Payload → Option String → Result Bool
meets_prefix msg none = ok true
meets_prefix msg (some p) = elim (lookup "from_addr" msg) [
  | none ↦ err key_error
  | some v ↦ has_prefix p v
]

-- All three conditions are computed before any is looked at.
unfoldable pub is_msg_matching_routing_rules : String → Payload → Rule → Exec Worker Bool
unfolding starts_with
is_msg_matching_routing_rules keyword msg rule = do
  to_addr ← lift (meets_to_addr msg rule.to_addr)
  prefix ← lift (meets_prefix msg rule.prefix)
  pure (str_eq keyword rule.keyword && (to_addr && prefix))

-- `get_message_key`
unfoldable pub message_key : String → String
unfolding join
message_key id = join ":" ("message" ∷ id ∷ [])

abbrev pub text_of : Value → Result String
text_of (text t) = ok t
text_of _ = err type_error

module _ (apply_publish : Middlewares) (rules : List Rule) where
  -- The loop over the rules: whether one matched.
  unfoldable pub publish_matching : String → Payload → List Rule → Exec Worker Bool
  unfolding is_msg_matching_routing_rules publish
  publish_matching keyword msg [] = pure false
  publish_matching keyword msg (rule ∷ rest) = do
    matches ← is_msg_matching_routing_rules keyword msg rule
    if matches then on_dispatcher (publish apply_publish inbound_message rule.app msg) else skip
    others ← publish_matching keyword msg rest
    pure (matches || others)

  abbrev pub fall_back : Option String → Payload → Exec Worker (Unit {0})
  fall_back none msg = on_dispatcher log_error
  fall_back (some app) msg = on_dispatcher (publish apply_publish inbound_message app msg)

  unfoldable pub keyword_inbound :
      (String → String) → Option String → Payload → Exec Worker (Unit {0})
  unfolding publish_matching get_first_word field_of
  keyword_inbound lower fallback_application msg = do
    v ← lift (field_of "content" msg)
    content ← lift (content_of v)
    matched ← publish_matching (lower (get_first_word content)) msg rules
    if matched then skip else fall_back fallback_application msg

-- A publication whose failure is logged, as by `except:`.
abbrev pub recover : Result (Unit {0}) × Dispatcher → Result (Unit {0}) × Dispatcher
recover (ok u, d) = (ok u, d)
recover (err e, d) = log_error d

abbrev pub or_log : Exec Dispatcher (Unit {0}) → Exec Dispatcher (Unit {0})
or_log m d = recover (m d)

abbrev pub route_event : Middlewares → Option String → Payload → Exec Dispatcher (Unit {0})
route_event apply_publish none msg = do log_error; log_error
route_event apply_publish (some name) msg = do
  if str_eq name "" then log_error else skip
  or_log (publish apply_publish inbound_event name msg)

-- An event goes to the application that the message went out for.
unfoldable pub keyword_event : Middlewares → Payload → Exec Worker (Unit {0})
unfolding publish field_of message_key load_session
keyword_event apply_publish msg = do
  v ← lift (field_of "user_message_id" msg)
  id ← lift (text_of v)
  session ← on_redis (load_session (message_key id))
  on_dispatcher (route_event apply_publish (lookup "name" session) msg)

-- What is remembered under the message's id.
abbrev pub remember : ℕ → ℕ → String → Payload → Exec Worker (Unit {0})
remember expire_routing_timeout now stamp msg = do
  i ← lift (field_of "message_id" msg)
  id ← lift (text_of i)
  n ← lift (field_of "transport_name" msg)
  name ← lift (text_of n)
  on_redis (
      create_session (some expire_routing_timeout) now stamp (message_key id) (("name", name) ∷ []))
  skip

unfoldable pub keyword_outbound :
    Middlewares → Dict String → ℕ → ℕ → String → Payload → Exec Worker (Unit {0})
unfolding publish field_of message_key create_session
keyword_outbound apply_publish transport_mappings expire_routing_timeout now stamp msg = do
  from_addr ← lift (field_of "from_addr" msg)
  transport_name ← lift (get_at from_addr transport_mappings)
  elim transport_name [
    | none ↦ on_dispatcher log_error
    | some name ↦ do
      on_dispatcher (publish apply_publish outbound_message name msg)
      remember expire_routing_timeout now stamp msg
  ]
