-- ===== src/Lib.antt =====
-- Verification of the Sagara Mission Control frontend (frontend/src): the core logic that the pages of
-- the dashboard share, as functions on explicit state.
--
-- THE PROGRAM. A backend (outside this development) watches a gateway that runs agents. The frontend
-- shows what it learns:
--
-- - frontend/src/features/realtime: a client that keeps a WebSocket open (realtime-client.ts), follows
--   the numbered messages of a server instance, writes their payloads to the query cache
--   (realtime-cache.ts) through mappers (realtime-mappers.ts), and tells a store (realtime-store.ts)
--   how the connection is.
-- - frontend/src/api/mappers and frontend/src/types: transfer objects to domain objects.
-- - frontend/src/features/office/layout: a snapshot of agents, delegations, tasks and approvals to the
--   rooms, seats, workers and summaries of an office scene.
-- - frontend/src/features/agent-config: drafts of the skills that a user adds to and removes from a
--   profile, kept in the local storage, with recommended blueprints and their previews.
-- - frontend/src/features/schedule: schedule items in the local storage, and their conflicts.
-- - frontend/src/api/client.ts and provider.ts: the HTTP client, and the operations on tasks and
--   approvals that the pages call, with a mock mode that keeps its own tasks and approvals.
-- - frontend/src/features/office/animation: the behaviours and the ways of the characters that the
--   office shows for agents and workers, from frame to frame.
--
-- The client calls the cache and the store; the cache calls the mappers; the office is computed from
-- lists that the pages read out of the cache; drafts and schedules are stores of their own. The
-- provider calls the client and the mappers; the animation reads the scene of the office.
--
-- THE FILES, and what they are about.
--
-- - Prelude: shared names, list and number functions with their lemmas; Prelude/JsMap and
--   Prelude/JsSet: `Map` and `Set` of JavaScript in insertion order; Prelude/Sort: `Array.sort`, a
--   stable sort; Prelude/Arrays; Prelude/Pointwise: lists that correspond item by item;
--   Prelude/NumberText: a number as decimal text; Prelude/Texts: methods of strings.
-- - Engine: the functions of the JavaScript engine that the code relies on and does not define
--   (`localeCompare`, letter case, `trim`, `Date` parsing, UTF-16 code units), a record that sections
--   take as a parameter.
-- - Domain/*: frontend/src/types. Dto/*: frontend/src/api/dto. Mapper/*: frontend/src/api/mappers
--   (common, agent, runtime, mission-control, task and approval).
-- - Realtime/Protocol, Realtime/Mappers, Realtime/Store: realtime-protocol.ts, realtime-mappers.ts,
--   realtime-store.ts. Realtime/Queries: the query keys of frontend/src/api/query-keys.ts that the
--   cache uses and the interface QueryClient; Realtime/Queries/Table: an instance of it.
-- - Realtime/Cache: `applyRealtimeSnapshot`, `applyRealtimeDelta` and their parts; its children: the
--   merge of the agents and of the attention queue, coherence of the counters with the lists, details,
--   severities.
-- - Realtime/Client: `RealtimeClient`: `connect`, `disconnect`, `scheduleReconnect`, `resync` and the
--   handlers of a socket and of the timer. Realtime/Messages: its `handleMessage`. The children of
--   Realtime/Client: a replica of the server and sequences of messages against it, sequences of any
--   events, recovery, coming back, closing, gaps, the states it shows, late events.
-- - Draft/Store, Draft/Blueprint: draft-store.ts with types.ts, and recommended-blueprint.ts; the
--   theorems in the other modules of Draft.
-- - Office/Types, Office/Rooms, Office/Work, Office/Desks, Office/Summaries, Office/Scene:
--   office.ts and office-layout-engine.ts, `buildOfficeScene` in Office/Scene; the theorems in
--   Office/Placement and Office/Approvals.
-- - Schedule/Types, Schedule/Conflicts, Schedule/Initial, Schedule/Store: types.ts, schedule-utils.ts
--   and store.ts; the theorems in Schedule/Overlaps and Schedule/Edits.
-- - Api/Http, Api/Client: client.ts, its data and `request`; Api/Client/Outcomes: what a caller
--   learns. Api/Provider: the modes and the errors of provider.ts; its children Reads, Tasks with
--   TaskFilters and TaskChanges, Approvals with ApprovalFilters and ApprovalChanges: the operations of
--   `dataProvider`; Operations: sequences of the operations that change the state; TaskMoves,
--   Decisions, Queries and the children of Operations: theorems.
-- - Office/Animation/Behavior: behavior.ts; Office/Animation/Postures and Navigation: navigation.ts;
--   Office/Animation/Controller with Desks, Workers, Exits and Step: controller.ts, a module for each
--   of its three loops and one for `stepOfficeCharacters`; Honesty and the other children of
--   Controller: theorems.
-- - Tests: the data of the tests, and the theorems at concrete inputs.
--
-- HOW STATE AND OPERATIONS CORRESPOND. A class with fields is a record (Client: the fields of
-- `RealtimeClient`); a store of zustand is a record of its state, and a setter is a function on it. The
-- sockets that the client opens are a list in the world, each with its `readyState`; the field `ws` is
-- an id in it, since a handler of an old socket can run after the client has a new one. An event of the
-- browser (a socket opens, closes or has a message; the timer fires) is a function on the world, and
-- Realtime/Client/Events has the sequences of events as lists. A callback runs to its end before the
-- next, so a sequence of events is an order of calls. The field names are the source's in snake case.
-- An operation of the provider takes the state of the mock mode and gives the next one with a result,
-- a value or what is thrown; a frame of the animation takes the characters and gives the next ones.
--
-- BOUNDS. Numbers are natural numbers. JSON numbers that the code counts with (sequence numbers,
-- durations, counters) are natural numbers; times are milliseconds from the earliest date that
-- JavaScript has. The hash of an agent's id is kept modulo 2 ^ 32, as the code does. `number_text` runs on
-- fuel one more than the number, and each round divides by ten. All else is structural recursion.
--
-- PARAMETERS. Engine, as said. QueryClient: the documented reads and writes of the query cache, with the
-- laws of `getQueryData` after `setQueryData`, `invalidateQueries` and the removal of one agent's
-- details as fields (other keys are removed by their prefix, which the code does not use); the instance
-- Table shows that they can hold. The text that the `WebSocket` constructor throws, the random
-- part of a delay, the current time and fresh ids are arguments of the function that uses them. The
-- local storage is the value last saved, with a flag that says whether it accepts a write. `fetch` is
-- any function from requests to outcomes; the type of JSON values, the reading of a transfer object
-- from one, the printing of one and the text of `URLSearchParams` are arguments too. The animation's
-- floating-point numbers are a type with operations of which no law is assumed.
--
-- NOT MODELLED. The base of the address of a socket (its parameters are). Parsing of JSON text: a
-- message comes parsed, or as what failed to parse, and a payload is null or an object with the
-- fields of the protocol. The listeners of stores and of the query cache.
-- The delays of the mock mode and the signals that abort a request (an aborted request is an outcome).
-- The reads of profiles, skills, sessions, health, activity, audit records, governance and artifacts of
-- provider.ts, and its operations on sessions and the system's cache; actionSafety.ts. The labels of
-- behaviours; the renderers, components, pages and hooks. The mappers of catalog, governance, activity
-- and health objects; the labels of schedules; the backend, scripts and configuration.
pub mod Prelude
pub mod Engine
pub mod Domain
pub mod Dto
pub mod Mapper
pub mod Api
pub mod Realtime
pub mod Draft
pub mod Office
pub mod Schedule
pub mod Tests
