-- ===== src/Lib.antt =====
-- Imperial Auto Governor: a controller that plays parts of a Stellaris campaign. Applications (economy,
-- fleets, research) keep a plan each; the plan book evaluates a plan on the facts of the newest save,
-- runs the deterministic actions that are due, and asks a model about the parts that facts contradict.
-- Actions reserve resources in a ledger that the Applications share, and reach the game as command
-- records that are inserted into its reliable stream.
--
-- src/iag/core/application_plan.py is modelled under Plan:
--   Plan.Json           values as Python holds them, with `==`, truth and numbers
--   Plan.Condition      `_condition_result`, `_conditions_pass`, `_waiver_matches`,
--                       `_execution_is_provisional`
--   Plan.Node           PlanAction, PlanNode, PlanDraft and their validators; the errors
--   Plan.Graph          `_validate_graph` and `_dependents`; proofs in Graph.Acyclic, Graph.Closure
--   Plan.Book           what the store holds for one Application; `create`, external reviews, audit; proofs in
--                       Book.Reviews
--   Plan.Edit           `edit`; proofs in Edit.Kept
--   Plan.Watch          what `evaluate` reads: watched and changed facts, affected nodes,
--                       `_provisional_resolution`
--   Plan.Evaluate       the loop of `evaluate` over affected nodes; proofs in Evaluate.Moves, and
--                       waivers of None in Evaluate.Waivers
--   Plan.Decide         the decision of `evaluate`; `accept_localized_anomaly`; proofs in Decide.Due and
--                       Decide.Keeps
--   Plan.Substitute     `_substitute_prepare_values`
--   Plan.Execute        `execute_due_action`; proofs in Execute.Records
--   Plan.Lifecycle      sequences of calls of `edit`, `evaluate` and `accept_localized_anomaly`
-- src/iag/core/resource_ledger.py is modelled by Ledger: the table as a list of rows, `status`, `reserve`,
-- `release` and `apply_to_stockpile`; proofs in its child modules, the sequences of calls in Ledger.Reached.
-- src/iag/stellaris/execution/packet/iag_stream_command_injector.py is modelled in part by Stream (the
-- 24-bit offsets and `StreamTranslator`, on lists of bytes; proofs in Stream.Bytes and Stream.Translator)
-- and Stream.Commands (the search for command records, the shift of serials and the insertion of a
-- command; proofs in its child modules).
-- src/iag/stellaris/execution/session_proxy.py is modelled in part by Flow (FlowKey and the direction of a
-- packet), Flow.Candidates (FlowEvidence) and Flow.Discovery (`FlowDiscovery`); proofs in Flow.Lock,
-- Flow.Settling and Flow.Counts. Its command records are under Wire, with those of
-- packet/autonomous_commands.py and the prefix of packet/ship_commands.py:
--   Wire                the tagged fields of a record and the writes that every builder makes; proofs on
--                       writes in Wire.Puts and Wire.Sizes
--   Wire.Buildings      the building request; proofs in Buildings.Sizes; its insertion without
--                       translation in Buildings.Insert
--   Wire.Moves          the requests that move a fleet to an object, Wire.Coordinates to coordinates
--   Wire.Research       the requests that start and stop research
--   Wire.Serials        `next_actor_serial`, `observe_command_serials`,
--                       `translate_outbound_command_serials`; proofs in Serials.Fresh,
--                       Serials.Shift, Serials.Apart and Serials.Written
--   Wire.Boundary       `_build_request_record`, the application prefix and `inject_at_packet_boundary`;
--                       proofs in Boundary.Fragments, Boundary.Prefix and Boundary.Pages
--   Wire.Filled         proofs on the numbers of a built fleet move; on its stamp in Wire.Stamped
--   Wire.Responses      `retag_matching_response`; proofs in Responses.Places and Responses.Retagged
-- The loop of its `run` on the packets of the locked flow is modelled by Session (what `run` keeps,
-- `state_name`, `finish_request` and the arm file) and Session.Packets (one packet: `handle`; any sequence
-- of packets and arm files: `run`). The proofs split a packet's treatment into the four ways of
-- Session.Effects; Session.Sound and Session.Reached have the invariant, Session.Kept, Session.Once and
-- Session.Insertion the insertions, Session.Rewrites and Session.Replays the rewrites of carriers,
-- Session.Sends the datagrams and Session.Timeouts the end of requests.
-- src/iag/infrastructure/llm/model_pool_runtime.py is modelled by Models (endpoints, their health, the
-- classification of errors, candidates, context limits; proofs in Models.Context) and Models.Calls
-- (`execute` and the probes, whose calls are parameters; proofs in Calls.Order, Calls.Cooling and
-- Calls.Unique).
-- src/iag/core/context_window.py is modelled in part by Context: the estimate of tokens, the truncation of a
-- summary (proofs in Context.Truncate) and the choice of segments (Context.Choice).
-- Common holds the shared names: texts, dicts, integers and lists over the native numbers.
--
-- A method is a function of the state and its arguments that returns the new state beside a result or an
-- error. A book is what the store holds for one Application, and one call is one step, since the methods
-- hold the plan's lock. The toolbox that `execute_due_action` calls is a parameter, and its calls may
-- change the book. The world's clock is a parameter of each call.
--
-- Bounds: the depth-first search of `_validate_graph` has as fuel the number of nodes plus one, which no
-- path without a repeated node exceeds, and `_dependents` as many rounds, since each round but the last
-- adds a node. The datagrams of an insertion have as fuel the number of bytes, since each takes one at
-- least, and the binary search of a truncation the length of the text, since each step narrows the range.
-- The other loops are structural. Amounts of the ledger are whole multiples of 1e-9 and floats of facts of
-- 1e-6, in exact arithmetic: rounding is not modelled. A stockpile's numbers are finite, as those of a save
-- are: what `_summary` makes of an infinite stock or of NaN is not modelled. Times are whole microseconds.
--
-- Not modelled: the flattening of facts and the inspection calls of the plan book, the locks of SQLite and
-- of threads, the limits that pydantic puts on the lengths of texts and of inner lists, the template of a
-- construction command, the parsing of arm documents (the model has what it returns or raises), the logs
-- and status files of the session, the records of districts, zones, ships and armies (the builder, and the
-- test of a response, are parameters), the response to a ship design, the budgets and prompts of a
-- summary, and the remaining parts of the program.
pub mod Common
pub mod Ledger
pub mod Plan
pub mod Session
pub mod Stream
pub mod Flow
pub mod Wire
pub mod Models
pub mod Context
