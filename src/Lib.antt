-- ===== src/Lib.antt =====
-- A verification library for the launch manager daemon: its health monitor
-- (src/launch_manager_daemon/health_monitor_lib/src/score/lcm/saf, where the first paths below start)
-- and its process group manager (src/launch_manager_daemon/src/process_group_manager).
--
-- A checkpoint is a mark that a supervised process reports. Alive, deadline and logical supervisions
-- watch the checkpoints of their processes; a local supervision joins the statuses of several of
-- them; a global supervision accumulates the local ones and, when an expired one outlasts its
-- tolerance, stops and sends the recovery notification. Each level stores the updates it observes in
-- a buffer sorted by time and works through them when it is evaluated at the synchronization of a
-- cycle.
--
--   Base: the libraries' names, Boolean tests, lists and association lists.
--   Buffer: common/TimeSortingBuffer.hpp over FixedSizeVector.hpp. Order and Contract: its order and
--     what its clients may rely on.
--   Tracker: supervision/ProcessStateTracker.cpp. Changes: the changes it reports after a crash.
--   Checkpoint: supervision/ICheckpointSupervision.cpp, the updates and their types.
--   Alive: supervision/Alive.cpp; Evaluate has `evaluate` with its loop. Valid, Invariant,
--     Termination, Cycles, Judged and Debounce: validity, the end of the loop, whole evaluations, and
--     the counter of failed cycles.
--   Deadline: supervision/Deadline.cpp with Evaluate. Statuses, Invariant and Overdue.
--   Logical: supervision/Logical.cpp with Evaluate. Search, Paths and Transitions: one step of
--     the graph; Walks: sequences of checkpoints; Deactivated: the graph by the status.
--   Monitor: the published statuses (health_monitor_lib/include/score/lcm/Monitor.h).
--   Local: supervision/Local.cpp. Reported, Invariant and Recovery.
--   Global: supervision/Global.cpp with Evaluate. Accumulate, Invariant, Since and
--     Tolerance. Notified: what an evaluation can do to the notifications.
--   Notification: recovery/Notification.cpp. Requests: sequences of its inputs.
--   Cluster: a chain of supervisions in one cycle (daemon/SwClusterHandler.cpp). Escalation.
--   ProcessReader: ifexm/ProcessStateReader.cpp and ProcessState.cpp. News, Steps and Delivery: the
--     changes of the processes that a cycle hands on.
--   MonitorInterface: ifappl/MonitorIfDaemon.cpp and Checkpoint.cpp. Reading: the reports that a
--     cycle takes from the channel; Overflow: what a data loss leaves.
--   Watchdog: watchdog/WatchdogImpl.cpp. Calls: the operating system below it; Setup: its
--     configuration; Holding and Descriptors: who holds which descriptor; Service and Shutdown.
--   Daemon: daemon/PhmDaemon.cpp over an interface of the clusters. Serving: the service of the
--     watchdogs over the cycles; Reaction: the way of an error to the watchdog, through a Cluster.
--   Timer: the deadlines of timers/CycleTimer.cpp and their conversion in timers/TimeConversion.cpp;
--     Drift: their sequence.
--   Group: process_group_manager/graph.cpp, the state of a process group with abort and cancel.
--     Nodes: the phases of a transition; Work and Start: processinfonode.cpp; Requests: the handlers
--     of processgroupmanager.cpp. States: sequences of setState; Ready and Heads: the nodes queued
--     first; Released: those queued later; Drain: the end of a phase; Kept, Counted, Starting and
--     Workers: the count of the jobs in flight; Errors and Exits: refused transitions and unexpected
--     exits; Doubled: exits while stopping; Requested and Recovery: what the requests lead to;
--     Managers and Polling: the list of the state managers and the loop over it.
--   Manager: the process groups of process_group_manager/processgroupmanager.cpp and the channels of
--     src/launch_manager_daemon/common/src/internal/controlclientchannel.cpp. Taken and Routing: the
--     group that a request reaches and what it makes of it; Acknowledged: its answer; Responses: the
--     way of an event to its state manager.
--   JobQueue: process_group_manager/jobqueue.cpp. Slots and Fifo: its abstract queue.
--   ProcessMap: process_group_manager/safeprocessmap.cpp. Trie, Deletion and Toggle: the order of
--     the tree and one search; Searches: sequences of them.
--   Examples: the theorems on small inputs.
--
-- A method is a function from the state before to the state after, under the method's name; the
-- state is a record with the members of the class. The observers that a supervision pushes its
-- results to are the list `published`. An object that the code knows by its address (a checkpoint, a
-- process, a supervision) is a number. The operating system below
-- the watchdogs answers by the calls so far, and the calls are part of the state. Times are 64-bit: additions and differences that may wrap are
-- written modulo 2^64.
--
-- Loops over the buffer are recursion on its elements. The loop of Alive::evaluate takes an event
-- again after each reference cycle that ended before it, and has fuel for the rounds of one event;
-- each such round moves the end of the cycle on by at least one, so fuel beyond the time of the
-- synchronization is enough. The loop of the cycle timer takes off a second a turn, and has 61 turns
-- for an interval of at most 60 s. The loop over the state managers and the one inside it, which
-- takes the dead ones out, have fuel for their turns; the length of a list without a cycle bounds both.
--
-- A transition of a process group has a phase that stops the processes that are not wanted and one
-- that starts those that are; the process group queues the nodes of a phase as jobs, and the workers
-- report them when they are done. The process map joins the nodes of forked processes with the exits
-- that the operating system reports. A handler, a job of a worker and a search of the
-- process map are one step each; the exits of processes, the results of forks and waits and the room
-- in a channel are inputs. The restart attempts are recursion on their counter.
--
-- Not modelled: logging; the construction of the objects from the configuration; shared memory, IPC
-- and the clock, whose results are inputs; the observers that join the monitor interfaces, the
-- checkpoint supervisions and the process states in one cluster; the interleaving of the workers
-- inside a job and the shutdown of the process groups; the configuration manager, the process
-- launcher and the OS handler. The
-- branches for values outside an enumeration are kept only where the type has such a value.
pub mod Base
pub mod Buffer
pub mod Tracker
pub mod Watchdog
pub mod Checkpoint
pub mod Alive
pub mod Deadline
pub mod Logical
pub mod Monitor
pub mod Local
pub mod Notification
pub mod Global
pub mod Cluster
pub mod Timer
pub mod Group
pub mod ProcessReader
pub mod MonitorInterface
pub mod Daemon
pub mod Manager
pub mod JobQueue
pub mod ProcessMap
pub mod Examples
