-- ===== src/Lib.antt =====
-- Void OS Merger: a master that joins several devices into one logical computer.
-- The master (master/src) keeps the cluster: it plans workloads as graphs of chunks, leases ready
-- chunks to workers, watches the heartbeats and recovers what a lost worker held.
-- Each part keeps its tables behind a mutex of its own, so each call is one step: the model of a
-- part is a record for the tables, one function per entry point, and `step` and `run` for the calls
-- in any order.
-- The files and what they model:
-- Base: what the parts share. Bytes are numbers, a C string is the list of its bytes, a table with
--   a count is a list, and integers of w bits are numbers below 2 ^ w with the wrap written out. A
--   pointer that may be null is an Option or is left out.
-- Scheduler: master/src/scheduler.c. `register_worker`, `submit_ready_chunk`, `tick` and
--   `release_lease` are the `vom_scheduler_*` functions; `evaluate_hard_filters` and
--   `calculate_worker_score` keep their names. Doubles and `atoi` are parameters.
-- Recovery: master/src/recovery.c. `register_worker_heartbeat`, `sweep_timeouts`,
--   `process_incoming_result` and `inject_test_lease` are the `vom_recovery_*` functions.
-- Workload: master/src/workload.c. `submit`, `cancel`, `update_chunk_result` and `check_deadlines`
--   are the `vom_workload_*` functions, `evaluate_ready_chunks` and `recalculate_job_progress` keep
--   their names. The quotient of the progress is kept as its two numbers.
-- Cluster: master/src/cluster_state.c. The operations keep the names of the `cluster_state_*`
--   functions, and `recalculate_aggregates` is `internal_recalculate_aggregates`. The journal is a
--   file that holds one snapshot or none that can be read; the file system decides whether a write
--   is refused, short or whole.
-- Worker.Machine and its neighbours Diagram and Busy: worker/src/worker_state.c. `transition` and
--   `update_tasks` are the `vom_worker_state_*` functions.
-- Worker.Leases: worker/src/recovery.c. The operations keep the names of the
--   `vom_worker_recovery_*` functions.
-- Registry: master/src/registry.c. The operations keep the names of the `vom_registry_*` functions.
-- Ring: the ring of snapshots with counts of readers, which cluster_state.c and registry.c both
--   have, over the type of the snapshots.
-- Planner: master/src/chunk_planner.c. The functions keep their names; `drain` is the loop of
--   `verify_plan_topology_is_dag`, and runs for as many rounds as there are chunks. `char` is
--   signed, as on the platforms built for.
-- Worker.Executor: worker/src/executor.c. `validate` and `run` are `vom_executor_validate` and
--   `vom_executor_run`, the static functions keep their names. `wait_loop` has the rounds that its
--   caller gives; a round whose clock has reached the timeout is always its last one.
-- Worker.Discovery: worker/src/discovery.c. The functions keep the names of the
--   `vom_worker_discovery_*` functions.
-- Wire: the envelope before each message, of 24 bytes without padding on a little-endian machine,
--   and the parts that a ZeroMQ socket gives. ZeroMQ itself is a parameter of what uses it: the
--   socket of the master's main is of type ROUTER, which puts the identity of the sender before a
--   message, and of what it sends takes the first part as the identity of the receiver and discards
--   the rest if there is no such peer. A length that zmq_recv returns is an `int`.
-- Router: master/src/router.c. The functions keep the names of the `vom_master_router_*` functions.
--   The socket that it asks for has the type 4, which is ZMQ_REP.
-- Worker.Transport: worker/src/transport.c. The functions keep the names of the
--   `vom_worker_transport_*` functions.
-- Delivery: what the transport of a worker makes of a message, and what passes between it and the
--   router, whose socket answers requests.
-- Master: master/src/main.c on top of Cluster and Wire. `loop` and `round` are the loop of `main`,
--   `receive` is its receipt of a message and `handle_envelope` the switch in it. The loop has the
--   rounds that it is given, and ends before where it waits for good or writes outside a buffer.
-- Worker.Main: worker/src/main.c. `send_envelope`, `recv_envelope` and `cli_parse` are the static
--   functions, `launch_worker` and `work` are parts of `main`. `await_join` has the 50 attempts of
--   the source.
-- Worker.Identity: the name in worker/src/main.c that a worker takes from its network address.
-- Worker.Monitor: worker/src/resource_monitor.c. The functions keep the names of the
--   `vom_monitor_*` functions.
-- Agent: agent/src/heartbeat.c. `caps_init`, `caps_snapshot` and `caps_deinit` are the `vom_caps_*`
--   functions, `agent_round` and `agent_loop` the loop of `main`, which has the rounds that it is
--   given.
-- Cli: cli/src/main.c. `commands_parse` is `vom_cli_commands_parse`.
-- Worker.Arguments: worker/src/cli.c. `worker_cli_parse` is `vom_worker_cli_parse`.
-- Config: common/src/config.c. The functions keep their names; `fgets_lines` cuts a file into the
--   lines that `fgets` reads, and `read_line` is the body of the loop of `vom_config_load`.
-- Ui: ui/src/model.c. `ui_model_transform_snapshot` keeps its name, `node_loop` and `task_loop` are
--   its loops. Floats and doubles are parameters. The snapshot is the copy of the types that this
--   file declares, not that of Cluster.
-- The other loops are over tables, but for the search of the ring of snapshots, which its four
-- slots bound, and the worker's reconciliation, which makes one round for each lease that it
-- started with; both bounds are enough, as the theorems about them need no other fuel. Names that
-- come from outside may be longer than the fields that store them: `strncpy` cuts them as the code
-- does.
-- Not modelled: the coordinator of the user interface, the options of the master, the inside of
--   ZeroMQ, threads, logging, the probes of the devices and the text of the dashboards, which only
--   carry or print what these parts decide.
mod Base
pub mod Scheduler
pub mod Recovery
pub mod Workload
pub mod Cluster
pub mod Worker
pub mod Registry
pub mod Planner
pub mod Config
pub mod Ui
pub mod Ring
pub mod Wire
pub mod Router
pub mod Delivery
pub mod Master
pub mod Agent
pub mod Cli
