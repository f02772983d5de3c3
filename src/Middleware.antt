-- ===== src/Middleware.antt =====
-- vumi/middleware/base.py: `MiddlewareStack` and `create_middlewares_from_config`. A middleware is a
-- parameter: for the name of a handler, the message and the name of the connector it gives the
-- message to go on with, or `None`, or an error, and may change the state `S` that the middlewares
-- share.
pub mod Order
mod Tests
use vumi.Base.{
  str_eq, String, Option, none, some, List, [], ◌∷◌, ◌++◌, reverse, ◌==◌, length, if◌then◌else◌,
}
use vumi.Base.Dict.{Dict, lookup, lookup_or}
use vumi.Base.Exec.{
  Exec, Result, ok, err, middleware_error, config_error, type_error, pure, raise, skip, lift, ◌>>=◌,
  ◌>>◌,
}

-- The direction of a handler: `consume_…` or `publish_…`.
pub data Direction : Type 0 where
  consume publish : Direction

pub record Middleware (S M : Type 0) : Type 0 where
  pub handle : Direction → String → M → String → Exec S (Option M)
  pub teardown_middleware : Exec S (Unit {0})

-- `BaseMiddleware`: the handlers of a kind of message serve both directions, unless a subclass
-- overrides one of those; there `handle` is given whole.
pub record BaseMiddleware (S M : Type 0) : Type 0 where
  pub handle_inbound : M → String → Exec S (Option M)
  pub handle_outbound : M → String → Exec S (Option M)
  pub handle_event : M → String → Exec S (Option M)
  pub handle_failure : M → String → Exec S (Option M)
  pub teardown_middleware : Exec S (Unit {0})

module _ {S M : Type 0} where
  -- What none of the methods overrides gives the message on.
  abbrev pub base_middleware : BaseMiddleware S M
  base_middleware = record {
    handle_inbound = λ message connector_name. pure (some message);
    handle_outbound = λ message connector_name. pure (some message);
    handle_event = λ message connector_name. pure (some message);
    handle_failure = λ message connector_name. pure (some message);
    teardown_middleware = skip;
  }

  -- The handler of a name; another name is no attribute.
  abbrev pub method : BaseMiddleware S M → String → M → String → Exec S (Option M)
  method b name =
      if str_eq name "inbound"
      then b.handle_inbound
      else if str_eq name "outbound"
      then b.handle_outbound
      else if str_eq name "event"
      then b.handle_event
      else if str_eq name "failure"
      then b.handle_failure
      else λ message connector_name. raise type_error

  abbrev pub of_base : BaseMiddleware S M → Middleware S M
  of_base b = record { handle = λ direction. method b; teardown_middleware = b.teardown_middleware }

module _ {S M : Type 0} where
  -- `if message is None: raise MiddlewareError`
  abbrev pub never_none : Option M → Exec S M
  never_none none = raise middleware_error
  never_none (some message) = pure message

  -- `_handle`
  unfoldable pub handle_all : List (Middleware S M) → Direction → String → M → String → Exec S M
  handle_all [] direction handler_name message connector_name = pure message
  handle_all (m ∷ ms) direction handler_name message connector_name = do
    result ← m.handle direction handler_name message connector_name
    message' ← never_none result
    handle_all ms direction handler_name message' connector_name

  unfoldable pub apply_consume : List (Middleware S M) → String → M → String → Exec S M
  unfolding handle_all
  apply_consume middlewares handler_name message connector_name =
      handle_all middlewares consume handler_name message connector_name

  unfoldable pub apply_publish : List (Middleware S M) → String → M → String → Exec S M
  unfolding handle_all
  apply_publish middlewares handler_name message connector_name =
      handle_all (reverse middlewares) publish handler_name message connector_name

  unfoldable pub teardown_all : List (Middleware S M) → Exec S (Unit {0})
  teardown_all [] = skip
  teardown_all (m ∷ ms) = do m.teardown_middleware; teardown_all ms

  unfoldable pub teardown : List (Middleware S M) → Exec S (Unit {0})
  unfolding teardown_all
  teardown middlewares = teardown_all (reverse middlewares)

-- `load` gives the class of a name, as a function of the name and the configuration of a
-- middleware; `sections` holds the configurations.
module _ {C M : Type 0} (load : String → Result (String → C → M)) (default : C)
    (sections : Dict C) where
  abbrev pub create : Dict String → Result M
  create [] = err config_error
  create ((name, cls_name) ∷ []) = elim (load cls_name) [
    | err e ↦ err e
    | ok cls ↦ ok (cls name (lookup_or name sections default))
  ]
  create (a ∷ b ∷ item) = err config_error

  unfoldable pub create_middlewares_from_config : List (Dict String) → Result (List M)
  create_middlewares_from_config [] = ok []
  create_middlewares_from_config (item ∷ items) =
      let rest = create_middlewares_from_config items in
      elim (create item) [
        | err e ↦ err e
        | ok m ↦ elim rest [ err e ↦ err e | ok ms ↦ ok (m ∷ ms) ]
      ]
