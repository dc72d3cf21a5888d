-- ===== src/Lib.antt =====
-- Verification library of MX Sentinel, an observability platform for mail relays, written in Go.
--
-- The relays' daemons put SMTP events on a bus; workers keep windows and counters in memory over
-- these events, decide, and store incidents and files that other parts act on. What the workers
-- decide is modelled here: the functions and the state of the packages under internal/, and the
-- loops of the daemons under cmd/ that the list names. The parts share no state but the bus and
-- the stores, so that each has modules of its own.
--
-- - Bounce: internal/bounce. Classify is Classify with its patterns (classify.go); Suppression is
--   SuppressionFor and ExpiryFor, and Export is BuildExport with postfixReason (suppression.go).
--   Evidence has what a category and a suppression rest on. bounced and suppressionsync use
--   these.
-- - Failover: internal/relayfailover and cmd/relayfailoverd. Breaker is Evaluate (policy.go);
--   StateFile is WriteDomains and RenderSmarthost (statefile.go, render.go); Worker is tick,
--   resolveEffective and recordIncident with the start and the loop of run (main.go), with the
--   query of the defer rate, the stored settings and the clock as its inputs. Runs has sequences
--   of evaluations, Ticks has the size of the file that a tick leaves, Follows any ticks of the
--   daemon.
-- - RateLimit: internal/ratelimit, which the API server uses. Limiter is Allow over the Counter
--   interface and MemCounter; Window has any run of requests.
-- - AuthWatch: internal/authwatch/detector.go. Score is score and IsOffHours, Detector is
--   Observe, maybeRollBaseline and Prune. Cooldown has runs of the detector, Window one
--   observation, OffHours the band of hours.
-- - Anomaly: internal/anomaly. Detector is Record in the two parts that hold the lock, rollover,
--   fire and Sweep; Sweeping has Sweep and the keys, Trips any interleaving of the parts.
-- - Alerts: internal/alertchannels/dispatch.go with the queries of
--   internal/store/postgres/alert_channels.go. Dispatch is Dispatch and dispatchOne over the log
--   of deliveries; Delivered has runs, Logged the audit trail. Secrets is secrets.go with the
--   JSON codec and the cipher as parameters, and Echo has a configuration that is shown and
--   posted back.
-- - Correlate: internal/correlate. Reason is ClassifyRejection (rejection.go), Spike is
--   DetectSpike and RootCause is Correlate (correlate.go), Aggregator is Observe, Evaluate and
--   Prune (aggregator.go). Counting, Pruning, Latest and Blame have their theorems. correld uses
--   these.
-- - MtaSts: internal/mtasts. Policy is ParsePolicy and ParseTXT; Parsed, Ignored and Record have
--   what they accept. Inspect is Inspect with the kinds of findings of Dns, and Health has what
--   makes a domain healthy.
-- - Dns: internal/dns. Spf is spfLookups with resolveSPFTarget and the terms, over a resolver
--   that is a parameter, and Lookups has the count and the loops. Findings is evaluateSPF with
--   the kinds of findings, Tags is evaluateDMARC and evaluateDKIM, Inspect is Inspect, and Calm
--   and Health have what makes a domain healthy. Poll is poll of cmd/dnsd, Announced has its
--   runs, and Visits the domains that the walk enters. The depth is counted down from 12, at
--   which the code gives up.
-- - Incidents: internal/incidents and cmd/incidentd, with InsertIncident of
--   internal/store/postgres/incidents.go. Mapping is FromEnvelope with its helpers, Storing is
--   InsertIncident and onEvent. Storable has what the enums of the table ask for, Once any
--   sequence of deliveries, failures of the database among them.
-- - AlertRules: cmd/alertd/main.go over the queries of internal/store/postgres/alerts.go. Rules
--   is checkRule and its four checks, Evaluation is evaluateTenant, fire and notify. Firing has
--   sequences of evaluations, Messages the messages of one, and Blind the rule on blacklists over
--   the incidents that Incidents stores.
-- - HealthScore: internal/healthscore/score.go. Components has the score of each input, Compute
--   is Compute, Grade and Drags. Bounds and Neutral have their theorems; constants such as 0.02
--   and the rounding of math.Round are parameters.
-- - Rbl: internal/rbl. Status is Upsert, PruneStale and HealthyIPs over the rows of the table
--   (store.go) and BuildStatus (status.go), and Agree has both views of a healthy address.
-- - SeedTest: internal/seedtest/placement.go. Placement is Summarize with its classifications,
--   Rows has its counters and Ordering the order of its rows.
-- - Telemetry: internal/telemetry and cmd/telemetryd. Words has what single words of a mail log
--   mean, Parser is Parse and emit over regular expressions that are parameters, and Spool is the
--   file of waiting events with handle and drainOnce of the collector. Apart has logs with the
--   lines of several queue ids, Messages logs in which an id is used again, Durable any sequence
--   of events and drains.
-- - Prelude: tests on numbers, lists, texts as bytes, maps, sorting and the operations of floats.
--
-- Times are natural numbers of nanoseconds since Go's zero time, or of whole seconds where the
-- code uses only these, and 0 is the zero time. A difference such as now.Sub(t) >= d is written t
-- + d <= now, which is the same on the integers; an int that the code never makes negative is a
-- natural number, and counters are below 2^63, which no process reaches by counting events. The
-- max_age of a policy is an integer of 64 bits with the range check of strconv.Atoi. Maps are
-- association lists with one entry for each key, in any order, since Go's range has any order;
-- statements over all lists cover each. Texts that the code looks into are lists of bytes and are
-- read as ASCII, other texts are opaque strings. The operations on float64 are a parameter,
-- FloatOps, of which no law holds but those that a theorem names; the concrete runs use
-- thousandths. Formatted messages and error texts are kept as the values that they are made of.
-- Go's strings, sort and strconv functions are defined in Prelude and where they are used.
-- Functions that can fail return an option or a sum.
--
-- Recursion is on lists and numbers. Fuel is used once, for printing a decimal number, with one
-- round more than the number itself, and each round divides by ten.
--
-- Mutexes make each operation one step; where Record of the anomaly detector lets its lock go
-- between two parts, the parts are separate steps. Database, bus, file system, clock and drivers
-- are inputs of the definitions: what they answer, failures included, is any value. Not modelled:
-- HTTP handlers, SQL other than the statements named above, network clients, message wording, the
-- wiring of the daemons, the web frontend, and the parsers of reports.
pub mod Prelude
pub mod Alerts
pub mod AlertRules
pub mod Anomaly
pub mod Bounce
pub mod Dns
pub mod Failover
pub mod HealthScore
pub mod Incidents
pub mod MtaSts
pub mod RateLimit
pub mod Rbl
pub mod SeedTest
pub mod Telemetry
pub mod AuthWatch
pub mod Correlate
