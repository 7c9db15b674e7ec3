-- ===== src/Lib.antt =====
-- Models and proofs for the cordyceps daemon, a local harness that drives CLI coding agents.
--
-- The program: clients send JSON-RPC requests over a WebSocket (src/transport); the daemon keeps a
-- service bus (src/core/bus.ts), a registry of drivers (src/drivers) and the live agents with one
-- controller each (src/agents); plugins (src/plugins) add methods, among them the code review
-- council.
--
-- The files:
-- Common: shared tests, lists, text as a list of UTF-16 code units, JavaScript maps.
-- Council/Chunker: `chunkByLines` of src/plugins/builtin/council/index.ts. Its loop variables are
--   the record Scan, the two halves of the loop's body are `make_room` and `take_line`.
-- Council/Diff: `fetchDiff` of the same file; running git is a function argument.
-- Council/Reviewer: `runOneReviewer`, `runChair` and the choice of the mode, over a record of what they
--   call of the manager and of an agent; `extractFindings` is a function argument.
-- Drivers/Registry: `DriverRegistry` of src/drivers/registry.ts; a method takes the registry and
--   returns the new one. A probe is `begin_probe`, up to the `await` of the driver's own `probe()`, and
--   `finish_probe`, when its answer has come in; `probe` is one with nothing in between, as in `spawn`.
-- Drivers/Parsers: the JSON parsers of src/drivers/codex/parser.ts, src/drivers/gemini/parser.ts and
--   src/drivers/ollama/parser.ts. `feed` takes and returns the private scratch buffer; `JSON.parse`
--   and the clock are arguments. Step has what the three share and the run over a stream.
-- Agents/Types, Agents/Output: the state of an agent, and how src/agents/exec-controller.ts turns
--   output into calls of the parser. The loop over a buffer runs on fuel, one more than the
--   buffer's length: each round takes a newline off.
-- Agents/Manager: `AgentManager` of src/agents/manager.ts over any type of runtimes. `spawn` is
--   `begin_spawn` (the tests, up to the call of the factory) and `finish_spawn`, since other calls
--   can come while the factory is awaited; the theorems about `spawn` are about an undisturbed one.
-- Transport: src/transport. Sessions has `ClientSession` and the set of clients, as one function of
--   events; Rpc has `dispatch` and the message handler of src/transport/server.ts over any state.
--   Methods has the core methods of src/transport/methods.ts over a record of what they call of the
--   manager, the registry, the bus and the instances.
-- Agents/Exec: the life of the controller in src/agents/exec-controller.ts, as one function of the
--   calls and the events of its child processes, in any order. A submit that interrupts a busy agent is
--   two events, one for each side of its `await`. It fills the interface Runtime that Agents/Manager
--   takes.
-- Agents/Feed: what src/agents/pty-controller.ts, src/agents/server-ws-controller.ts and
--   src/agents/server-http-controller.ts have in common: the state and its copy on the bus,
--   `feedChunk`, the exit, and `waitForMessage` (Waiters). Steps has the steps that an agent makes,
--   and Mirror what they keep; every call and event of the three controllers is a row of them.
-- Agents/Pty, Agents/Ws, Agents/Http: the three controllers, each one function of the calls and the
--   events of its terminal, socket or requests, in any order. A call with an `await` is an event for
--   each piece between two of them. The driver's parser is an argument; its control is an event that
--   writes or, for HTTP, a function from prompts to bodies.
-- Plugins/Sort: `sortPlugins` and `topoSort` of src/plugins/loader.ts. The loop over the queue runs on
--   fuel, one more than the number of names: each round takes a name that was not taken.
-- Plugins/Life: `loadPlugin`, `destroyPlugin` and the loop of `loadAll` of src/plugins/loader.ts, over the
--   dispatcher's methods and the rest of the daemon; what a plugin's own code does is a function on both.
-- Core/Semver: src/core/semver.ts. The regular expressions are written as functions that read from
--   the left; they never have to go back.
-- Core/Env: src/core/env.ts; reading a file is a function argument.
-- Core/Bus: the listeners of src/core/bus.ts. The sets of listeners are objects with an identity,
--   since a handle keeps the set it was made with.
--
-- Not modelled: the keys and waits of the bus, the handler daemon.health, the council's panels,
-- prompts and its search for findings in a text, the parser and the controls of the drivers for
-- terminals, and the other plugins, whose models are missing; and terminals, sockets, processes,
-- files and the command line, which are input and output.
pub mod Common
pub mod Council
pub mod Drivers
pub mod Agents
pub mod Transport
pub mod Core
pub mod Plugins
