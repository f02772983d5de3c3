-- ===== src/Lib.antt =====
-- Vumi is a messaging engine: transports turn the traffic of mobile networks into messages,
-- dispatchers route the messages between transports and applications, and applications answer
-- them. These modules model the parts that decide what happens to a message and what is remembered
-- about it, and prove what each of them promises.
--
-- The parts and their files, with the code below vumi/ that each is translated from:
--   Redis          persist/fake_redis.py: the store. State holds the values by key, which keys were
--                  ever set, and the delayed calls that expire keys; Keys, Texts, Hashes, Sets, Lists
--                  and Zsets hold one function for each method; Zset is the class Zset.
--   Tagpool        components/tagpool.py: pools of addresses that are acquired and released.
--   Window         components/window_manager.py: windows of keys, some waiting and some in flight.
--   Session        components/session.py: sessions of users, with a time to live.
--   Message        message.py: the fields of messages and events and their validation; Methods has
--                  the endpoint of a message, replies and new messages.
--   Middleware     middleware/base.py: the stack that a message goes through.
--   Connector      connectors.py: endpoint handlers, consuming and publishing.
--   Application    application/base.py: what a worker does with messages, and how it answers.
--   Dispatch       dispatchers/base.py: the worker's publishers and the simple routers; Grouping,
--                  Keyword and Balancer (dispatchers/load_balancer.py) are the routers with a store
--                  or a state, and Table (dispatchers/endpoint_dispatchers.py) the dispatcher between
--                  endpoints.
--   TicTacToe      demos/tictactoe.py: the game of a demo application.
--   MessageCache   components/message_store_cache.py: the counts and the newest keys of a batch of
--                  messages. Counters, Messages and Queries have its methods.
--   Heartbeat      blinkenlights/heartbeat: storage.py, and monitor.py, which audits the workers that
--                  are to check in.
--   Metrics        blinkenlights/metrics_workers.py: how metrics are spread over aggregators, and the
--                  aggregator.
--   Smpp           transports/smpp: Stash is the message stash of smpp_transport.py, Transport the
--                  transport with its throttling, and Sequence is sequence.py.
--   Failures       transports/failures.py: the worker that sends failed messages again.
--   Sandbox        application/sandbox.py: Protocol reads the requests of a sandboxed process, Api
--                  answers them, and Kv is the resource that keeps keys.
--   Utils          utils.py: the helpers on telephone numbers, operators and routing keys.
--   Base           what the parts share: actions that keep the state beside a raised error, dicts,
--                  sets, slices, texts, numbers and their decimal form.
-- The tag pool, the windows, the sessions, two routers, the cache, the monitor, the stash and the
-- failure worker stand on the store, and see it only by its methods; Redis.Effects and its child Sets
-- say what each method leaves in the store, and the proofs above it use no more. An application answers by a connector, which passes messages through the middlewares.
--
-- How the code is read. A method that changes its object is an action: a function of the state that
-- gives a result or an error, and the state, since what was written before a raise stays written. A
-- deferred that is waited for is the next step of the same action, so the theorems speak of one call
-- at a time with no other call between its steps. A Python dict is an association list; where
-- the code goes through a dict, the items come in the order of that list. Times, scores and counts are whole numbers; the code also allows floats. What is
-- not in the repository is a parameter: JSON as the texts that are written and read, the clock, the
-- source of identifiers, compiled patterns, lower-casing, and the middlewares themselves. An
-- operation on a key of another kind ends in the one error that stands for Python's AttributeError and
-- TypeError, also where the code's `get` would return the value and its `llen` would measure it. The
-- texts of errors are ASCII. Payloads are values, so a copy of a message is the message, and the metadata that a
-- reply shares with its message is not shared in the model.
--
-- Loops over lists are recursive on the list. Two loops are on fuel: that of the window monitor, which
-- calls back into code that may add keys, and that of `deliver_retries`, which takes one key of the
-- store in each round. The model of a delayed call is the delay that it was scheduled with, and the
-- call itself an action.
--
-- Not modelled: the AMQP and HTTP channels, the SMPP protocol and its processors, which stand on the
-- library python-smpp, the other transports, persistence in Riak, the collectors of metrics, scripts
-- and configuration, which are input and output or glue; `keys` and `scan` of the store, which need
-- the patterns of fnmatch; and the delays of the store's asynchronous mode.
pub mod Base
pub mod Redis
pub mod Tagpool
pub mod Window
pub mod Message
pub mod MessageCache
pub mod Metrics
pub mod Utils
pub mod Session
pub mod Dispatch
pub mod Middleware
pub mod Connector
pub mod Application
pub mod TicTacToe
pub mod Heartbeat
pub mod Smpp
pub mod Failures
pub mod Sandbox
