-- ===== src/Dispatch/Tests.antt =====
-- The theorems on the routers at concrete inputs.
use vumi.Base.{String, ◌≡◌, refl, Bool, true, some, [], ◌∷◌}
use vumi.Base.Decimal.{parse_int}
use vumi.Base.Int.{pos, ◌+ℤ◌}
use vumi.Base.Text.{sorted, insort, join}
use vumi.Base.Dict.{Dict, lookup}
use vumi.Base.PySet.{member}
use vumi.Base.Exec.{ok}
use vumi.Redis.State.{Redis, value_at}
use vumi.Redis.State as State
use vumi.Redis.Texts.Counter.{count_of}
use vumi.Message.{Payload, text}
use vumi.Dispatch.{inbound_event, outbound_message, Dispatcher, Middlewares}
use vumi.Dispatch.Grouping.{get_group_for_user, user_key}
use vumi.Dispatch.Grouping.Sticky.{get_group_for_user_lem}
use vumi.Dispatch.Keyword.{keyword_event, keyword_outbound}
use vumi.Dispatch.Balancer.{Msg, State as BalancerState, Carrying}
use vumi.Dispatch.Keyword.Events.{sent_on, keyword_event-keyword_outbound}

abbrev pass : Middlewares
pass kind endpoint msg = ok msg

abbrev msg : Payload
msg =
    ("transport_name", text "t")
    ∷ ("from_addr", text "1")
    ∷ ("message_id", text "m")
    ∷ ("user_message_id", text "m")
    ∷ []

abbrev routes : Dict String
routes = ("t", "s") ∷ []

abbrev dispatcher : Dispatcher
dispatcher = record {
  transport_names = "t" ∷ "s" ∷ [];
  exposed_names = "a" ∷ "b" ∷ "t" ∷ [];
  sent = [];
  logged = 0;
}

abbrev groups : Dict String
groups = ("g2", "app2") ∷ ("g1", "app1") ∷ []

abbrev store : Redis
store = record { values = ("round-robin", State.text "3") ∷ []; known = []; expiries = [] }

get_group_for_user_lem_example :
    let (res, r') = get_group_for_user groups "u" store in
    (res ≡ ok "g2")
    × (count_of (value_at r' "round-robin") ≡ some (pos 3 +ℤ pos 1))
    × (get_group_for_user groups "u" r' ≡ (ok "g2", r'))
unfolding lookup user_key join sorted insort parse_int
get_group_for_user_lem_example = get_group_for_user_lem groups "u" store 3 "g2" refl refl refl refl

keyword_event-keyword_outbound_example :
    let (res, w') =
      keyword_outbound pass
        (("1", "s") ∷ [])
        60
        5
        "5.0"
        msg
        (record { redis = store; dispatcher = dispatcher }) in
    let (res', w'') = keyword_event pass msg w' in
    (res ≡ ok tt)
    × (w'.dispatcher ≡ sent_on pass outbound_message "s" msg dispatcher)
    × (res' ≡ ok tt)
    × (w''.dispatcher ≡ sent_on pass inbound_event "t" msg w'.dispatcher)
unfolding lookup member
keyword_event-keyword_outbound_example =
    keyword_event-keyword_outbound pass msg "m" "t" 5 "5.0" 60
      (record { redis = store; dispatcher = dispatcher }) (("1", "s") ∷ []) "1" "s" msg refl refl
      refl refl refl refl refl refl

abbrev passing : Carrying
passing names = pass

abbrev balanced : Bool → BalancerState
balanced affinity = record {
  router = record {
    reply_affinity = affinity;
    rewrite_transport_names = true;
    exposed_name = "a";
    transport_name_cycle = "s" ∷ "t" ∷ [];
    transport_name_set = "t" ∷ "s" ∷ [];
  };
  dispatcher = dispatcher;
}

abbrev a_reply : Msg
a_reply = record { payload = ("in_reply_to", text "m0") ∷ []; transport_names = [] }
