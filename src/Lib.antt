-- ===== src/Lib.antt =====
-- The eBPF traffic mirror: it copies HTTP requests that arrive at an APIGEE gateway, rebuilds them
-- from TCP segments and replays them to an EWP backend.
--
-- Parts, and the files that model them:
--   kernel/mirror.bpf.c           Event/Kernel: mirror_ingress on the bytes of a packet, with the answers
--                                 of the BPF helpers as arguments.
--   mirror-agent/loader.go        Event: the body of ReadEvents (`decode`) and ipStr; Loader: NewLoader
--                                 and Close as sequences of effects, PrintStats.
--   mirror-agent/tracker.go       Tracker/Request (parseOneRequest), Tracker/Batch (parseHTTPRequests),
--                                 Tracker/Segment (looksLikeHTTP, looksLikeContinuation),
--                                 Tracker/Streams (the map of streams), Tracker/Feed (Feed),
--                                 Tracker/Trace (Feed over a sequence of events), Tracker/Reaper,
--                                 Tracker/Live (Feed, and the reaper's ticks between the events).
--   mirror-agent/routes.go        Routes: loadRoutes and resolveRoute.
--   mirror-agent/mirror.go        Mirror: Send, doSend, logResult, bodySnippet, isHopByHop.
--   mirror-agent/main.go          Agent: the callback of ReadEvents, which runs Feed and then the Sends,
--                                 with the ticks of the reaper that NewTCPTracker starts in between;
--                                 Agent/Wire: the chain from the packets to that callback; Agent/Session:
--                                 main, from the flags to the last summary; Agent/Machine: the goroutines
--                                 (callback, reaper, Sends) as interleaved steps on one state.
--   mirror-agent/stats.go         Stats: agentStats and printStats.
--   ewp-sim/main.go               Sims/Ewp (record), Sims/Ewp/Handlers, Sims/Ewp/Report
--                                 (validationReportHandler).
--   apigee-sim/main.go            Sims/Apigee.
-- Sims/Http and Sims/Payload hold what both simulators are made of, and Sims/Agree compares them. Go
-- models what these use of Go's standard library, Base holds what all files share, and Tests runs the
-- model on concrete inputs.
--
-- A Go string or byte slice is the list of its bytes. An int is a 64-bit integer, and the one sum
-- that can leave its range (bodyStart + contentLength) wraps around as Go's does. A panic is a value:
-- nothing in the agent recovers, so it ends the process. `make` panics above 2^48 bytes, as on 64-bit
-- Linux. Times are in nanoseconds. The counters are numbers: an int64 wraps only after 2^63 events.
-- An http.Header is a list of entries with canonical names; Go leaves the order of a map open, and
-- what is stated of a header is stated by name.
--
-- Fuel: parseHTTPRequests runs a round for each byte and one more, which is enough since a request has
-- at least the four bytes of its blank line; splitting a text runs a round for each byte; printing a
-- number runs a round for each unit and one more.
--
-- Parameters: encoding/json (Go/Json), the network (Mirror.Network: url.Parse and http.Client.Do), the
-- BPF helpers, the answers of cilium/ebpf and netlink (Loader.System); for the simulator float64,
-- encoding/json and the matching of http.ServeMux (Sims/Http.Platform). In Agent, Feed, the reaper's ticks
-- and the Sends run one after the other; in Agent/Machine a step is one critical section of Feed, one tick of the reaper or one
-- addition to a counter, and the steps of the goroutines interleave freely. Agent/Machine leaves out what
-- Send sends and logs. The list that stands for the map of streams has an order, which Tracker/Order
-- forgets. The simulators handle one request after the other.
--
-- Not modelled: tickers, the parsing of flags, signals, the text of the log lines
-- but for the summary line, the constant text in the simulator's report, and the scripts and
-- containers, which are deployment.
mod Base
pub mod Go
pub mod Stats
pub mod Event
pub mod Tracker
pub mod Routes
pub mod Mirror
pub mod Agent
pub mod Loader
pub mod Sims
mod Tests
