-- ===== src/Lib.antt =====
-- Verification library of inferencesim, a simulator of inference on machines with many
-- accelerators.
--
-- The program describes a machine (inferencesim/hardware.py), a model and its deployment
-- (inferencesim/workload.py), lowers a model to operations (inferencesim/ops.py), prices them with
-- an analytic engine (inferencesim/engine.py) or by scheduling a graph of tasks
-- (inferencesim/sched.py, whose graphs inferencesim/collectives.py, des.py and graphdes.py build),
-- and simulates continuous batching over the prices (inferencesim/serve.py). This library models
-- the following parts; a definition has the name of the function that it translates, without a
-- leading underscore.
--
-- Serve: the event loop of `serve` in inferencesim/serve.py. Serve.Request has `_Req` and
-- `RequestRecord`, Serve.Kv the closures `kv_bytes` and `kv_grow` of `_kv_accounting`, Serve.State
-- the local variables of the loop, Serve.Loop its closures (`can_admit`, `preempt`, `finish`,
-- `step_decoders`) with intake and admission, Serve.Step one iteration and the loop. Each
-- operation takes the state and returns the next one. Serve.Config has the token grid, percentiles
-- and the transfer link, Serve.Setup the checks before the loop, Serve.Arrivals the requests of
-- explicit arrivals, and Serve.Grid and Serve.Checks their proofs. The other modules are proofs:
-- Accounting, Finish, Sound, Prefill and Batch for the KV, Conserve for the requests, Progress,
-- Queue, Completion and Served for termination, Reach for the states that the loop reaches, Chunk
-- and Shed for chunked prefill and for preemption, Unfailed for `list.remove`. A field of the state
-- says that `list.remove` has raised.
--
-- Sched: inferencesim/sched.py. Task has `Task`, Heap the heaps and tables of `schedule`, Schedule
-- its variables and closures (`release`, `advance`, `next_departure`, and the two ways to serve a
-- task), Loop the rounds of its event loop. Times has the times at which tasks would finish if no
-- two of them waited for one resource. The other modules are proofs: Count, Children, Release and
-- Ending for the bookkeeping, Within, Capacity, Spent and Slots for the times, the slots and what they
-- were busy, First for the start, Popped and Fifo for a round on resources with slots, Valid, Worked,
-- Limited, Busy and Critical for what is returned.
--
-- Graph: inferencesim/graph.py. Names has the names of nodes and the endpoints of edges, Node the
-- records and their aggregates, Links `node`, `has_node` and the capacity of an edge, Expand
-- `expand`, Validate `validate`, Dict and Serialise the conversions to a dict and back. Derate has
-- `derate_instances`. Lookup, Wiring, Checked, Total, Aggregates and RoundTrip are proofs.
--
-- Collectives: the builders of inferencesim/collectives.py. A builder appends to the list of tasks
-- and returns it with the key to chain on. Ports has the names of the resources, Ring and AllToAll
-- the builders, Graph, Exchange and ClosedForm the proofs.
--
-- Hardware: inferencesim/hardware.py. Workload: inferencesim/workload.py, with Moe and Model the
-- definitions, Blocks and Layers the proofs.
--
-- Ops: inferencesim/ops.py. Ops has the check of a deployment and the KV of a sequence on a chip,
-- Lower the operations of attention and of a matrix, Passes the other operations and the lists of
-- `decode_ops`, `prefill_ops` and `prefill_chunk_ops`. Reads, Scores, Chunks and Work are proofs.
--
-- Disagg: `serve_disagg` in inferencesim/serve.py, with its two pools. Disagg.State has the
-- replicas of both pools, the events and the local variables of the loop, Disagg.Prefill and
-- Disagg.Decode the closures and the handlers of either pool (`dispatch_prefill`,
-- `dispatch_decode`, `start_decode_iter`, `admit_to_decode`, `preempt_from_decode`, `finish`),
-- Disagg.Step the dispatch on an event and the loop, Disagg.Setup the checks before it. The source
-- shares one request object between its lists; here a list has the number of a request, and the
-- requests are in a table. Costs, the budget of a decode replica and the bytes of a transfer are
-- fields of `Pools`. Place has the seven places of a request's lifecycle and the courses between
-- them. Replicas, Rules, Dispatch, Events, Alters, Ends, Tokens, Moves, Wired, Course, Weights,
-- Live, Reserve, Reach, Unfailed, Safe, Outcome and Served are proofs. A field of the state says that
-- `list.remove` has raised, and an event in which it has is an error.
--
-- Simulate: the weights on a chip (inferencesim/simulate.py). Serve.Footprint has
-- `_kv_accounting`, which serve derives from them.
--
-- Engine: inferencesim/engine.py and inferencesim/efficiency.py. Engine has the closed forms of the
-- rings, Engine.Timing the efficiencies, the timing of an operation (`time_op`), the links of a
-- deployment and the duration and busy times of a phase. An efficiency is a number of parts of a
-- whole, and the bytes of a collective are rounded down. Rings, Priced, Linked and Phases are
-- proofs.
--
-- Des: inferencesim/des.py. Des has the split of the layers over the stages, Des.Costs what is read
-- off the lowered operations (`_costs`, `_comm_plan`) and the phase (`run_phase`), Des.Stage the tasks
-- of a stage and of a hop, built with the collectives, Des.Rounds the rounds of a decode, the walk of
-- a prefill, and `_round_period`, `_decode_wall` and `_prefill_wall` on their schedule. The unit costs
-- are those of the roofline engine. A label is cut to the last word of the source's. Grown, Keyed,
-- Built, Whole and Converge are proofs about the graph of tasks, Measured, Serial, Charged, Dense,
-- Lowered, Reduced, Walled and Oracle proofs about its time.
--
-- Numbers. What ops.py computes is a fraction, its numerator and its denominator kept apart.
-- Elsewhere times, bytes, rates, powers and costs, which are floats in the source, are whole
-- numbers of a unit; their sums and differences are exact in both as long as they stay below 2^53,
-- and a quotient is rounded down to the unit. The bytes of a number format are counted in
-- quarters. The mean of an odd number of tokens is doubled. A popularity is a number of parts of
-- the sum of all. Subtraction stops at 0, where a float would go below it, which matters only
-- where more KV is given back than is used. A division by 0, an exception in the source, is an
-- error of the engine where it divides by the rate of a chip, of its DRAM or of a stream; elsewhere
-- bandwidths are taken as positive, and a division by 0 is 0.
--
-- Parameters. What an engine computes enters Serve as fields of `Replica`: the time of a decode
-- iteration, of a prefill and of a chunk. The sharded KV of a token and the share of it that
-- windowed layers have are fields of `KvModel`, which `kv_accounting` fills, and most of Serve
-- assumes only that the share is at most the whole. `running.remove` of Serve compares requests by their
-- fields, as the source's dataclass does; the source compares the prefiller by identity, which is
-- the same where numbers differ.
--
-- The numbers of distinct experts that a round reads, powers of floats, are parameters of the
-- lowering (`Routing`).
--
-- The names of resources, their order (which breaks ties between departures) and the table of
-- resources are parameters of `schedule`. A heap is a list of which the least entry is taken, and
-- a dict that is indexed by a key is a function with the value that a missing key stands for. A
-- shared resource divides the time that has passed by its flows; the quotient is exact where the
-- unit of time is fine enough, and `_EPS`, the tolerance of floats, is 0.
--
-- Texts. A name in a graph is a text in the source, which `split_endpoint` takes apart with a
-- regular expression; here a name is what that match finds, or a text that does not match. The
-- numbers that are texts in a dict, and the selectors in a name, are taken as written without
-- leading zeros. A dict of fixed keys is a record, with `none` for a key that is not there. The
-- values of `meta` are kept as they are and have any type.
--
-- Loops. The loop of `serve` runs on the iteration budget that the source itself has, and the
-- error of that budget is a result. The loops that preempt run on the number of running requests,
-- each round removing one. The loop of `schedule` runs on twice the number of tasks, since a task
-- is served once and departs at most once. Names of resources are constructors with the values of
-- their f-strings, the prefix of a stage being its number.
--
-- The loop of `serve_disagg` runs on the event budget that the source has. The loop that doubles the
-- rounds of a decode starts with a round at least and doubles up to `max_rounds`, so that one step
-- more than `max_rounds` is enough.
--
-- Not modelled: sampling from a random generator, reports and statistics, the command line,
-- presets, calibration, the profiles of an engine (its phases by category, named efficiencies), of
-- the pipeline simulation the tile schedules of a graph of the chip and the use of resources, and of
-- the component graph `flatten`, the queries `max_flow` and `widest_path`, and the engines' views of
-- it.
pub mod Prelude
pub mod Hardware
pub mod Workload
pub mod Ops
pub mod Simulate
pub mod Sched
pub mod Graph
pub mod Collectives
pub mod Engine
pub mod Des
pub mod Serve
pub mod Disagg
