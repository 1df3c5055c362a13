-- ===== src/Lib.antt =====
-- v2rayA: the DNS module of core/dns, and the parts of the service that keep the nodes.
--
-- A query comes in from the listener. The handler (core/dns/handler.go) asks the router
-- (core/dns/router.go) for an action and an upstream; the router takes the first of its rules whose
-- matchers (core/dns/rule.go) match. A rejected query is refused. A routed query is looked up in the
-- cache (core/dns/cache.go) by the upstream's address, its proxy tag, the name and the type, and on a
-- miss is sent to the upstream instance of the registry (core/dns/upstream.go), its answer stored. A
-- hit near its end starts a prefetch in the background. Every step is counted in the statistics of
-- the module and in the metrics (core/dns/metrics.go).
--
-- The listener (core/dns/listener.go) gives the module its queries and cleans the replies for the
-- client; it refuses a query that carries this process's own mark (core/dns/loop.go).
--
-- The service stores servers and subscriptions in tables whose rows carry an ordinal
-- (service/db/listOp.go), and refers to a node by its position (service/db/configure/which.go). So
-- whatever moves nodes renumbers the references of the connected ones: the deletion of nodes
-- (service/server/service/touch.go) and the update of a subscription
-- (service/server/service/subscription.go), which is made by hand or by a worker at deadlines
-- (service/server/service/automation.go).
--
-- The service runs the core as a process (service/kernel/v2ray/processManager.go). A start replaces the
-- old process, installs the rules of the transparent proxy and commits, in steps between which the
-- mutex is free; stops, the exit of the core, and the monitor (service/kernel/v2ray/connectivity.go)
-- come in between.
--
-- The core runs by a template (service/kernel/v2ray/template_core.go) whose rules say which outbound a
-- connection takes. They come from the mode of the rule ports, which may be RoutingA, a language of the
-- user's own rules; the transparent inbound has its own mode, or follows the rule ports
-- (service/kernel/v2ray/template_routing.go).
--
-- A group of nodes is chosen by connecting references to it (service/server/service/connect.go), which
-- are stored by group (service/db/configure/configure.go); a change is taken back where the core does
-- not take it.
--
-- Files and the code they are about:
--   Base, Base/*          Booleans, lists, association lists, integers, byte strings
--   Dns/Types             core/dns/types.go, and the messages of miekg/dns as records
--   Dns/Cache/Ttl         lifetimes: calculateEffectiveTTL, negativeTTL, copyCachedResponse
--   Dns/Cache/Lru, Index  container/list as a list of identified elements, and a map into it
--   Dns/Cache/Ops         DnsCache and its methods Get, Set, Remove, Clear
--   Dns/Cache/Prefetch    ShouldPrefetch, SetPrefetching, RecordPrefetchFailure and -Success
--   Dns/Cache/Branches, Invariant, Refinement, Reads, Lifetimes, Stored   proofs about the cache
--   Dns/Net               what net.IPNet does, over bytes; the parsers are parameters
--   Dns/Rule              DnsRule, the matchers, BuildMatchers, MatchAll; the meaning of an entry is in
--                         Rule/Entries, proofs are in Rule/Suffix, Fields and Meaning
--   Dns/Router            Router, Route, UpdateRules, Reload; proofs in Router/Choice and Router/Update
--   Dns/Metrics           DnsMetrics and its records; proofs in Metrics/Counts
--   Dns/Upstream          UpstreamManager; proofs in Upstream/Keys
--   Dns/Module            DnsModule, the replies that are made up, the choice of an upstream
--   Dns/Handler           HandleQuery, handleRoute, handleReject, handleBypass, prefetchAsync;
--                         proofs in Handler/Cached, Handler/Safety and Handler/Rtt
--   Dns/Config            the defaults and Validate (core/dns/config.go); proofs in Config/Valid
--   Dns/Validator         ValidateResponse (core/dns/validator.go); proofs in Validator/Accepted
--   Dns/Response          ExtractRecords, ExtractQuestion, synthesizeDNS64 (core/dns/response.go);
--                         proofs in Response/Synthesis
--   Dns/Loop              markOutgoing and carriesOwnToken (core/dns/loop.go); proofs in Loop/Token
--   Dns/Listener          handlePacket and sanitizeForClient; proofs in Listener/Replies
--   Dns/Tests             sample data, and the theorems applied to it
--   Service/Nodes         references, their order and location (service/db/configure/which.go)
--   Service/Nodes/Removal DeleteWhich and RemoveNodes; proofs in Nodes/Shifts and
--                         Nodes/Following
--   Service/Database/Table   the statements on the table of servers (service/db/listOp.go); proofs in
--                         Database/Ordinals and Database/Refinement
--   Service/Automation    what the worker of service/server/service/automation.go calls on; process is
--                         in Automation/Process, the round of step over the subscriptions in
--                         Automation/Round, nextDeadline in Automation/Deadline; proofs in
--                         Automation/Updated, Alive, Wakeup, LoopAlive and AllAlive
--   Service/Subscriptions storeSubscriptionUpdate up to the write; proofs in Subscriptions/Matches,
--                         Covered, Settled and Remapped
--   Service/Process       CoreProcessManager, and what is done under one hold of its mutex; start, in
--                         steps, with all that may come between them, is in Process/Start; proofs in
--                         Process/Safe, Steps, Begin, Runs, Ends, Clean, Whole and Forward
--   Service/Routing       the rules and the setters of service/kernel/v2ray/template_routing.go, and
--                         the end of NewTemplate; parseRoutingA and the rules of custom inbounds are in
--                         Routing/Parse, the modes in Routing/Modes, and the checks of
--                         service/kernel/v2ray/template_validate.go in Routing/Validate;
--                         proofs in Routing/Choices, Decisions, Direct and Known
--   Service/Connections   the stored groups, and Connect, Disconnect and replaceOutboundConnections;
--                         proofs in Connections/Written, Normal, Left, Restored and Removed
--   Service/Tests         sample data, and the theorems applied to it
-- Functions have the names of the code in snake case; Remove is remove_key, Match is match_one for a
-- single matcher and matches for a group.
--
-- State is passed explicitly: a method takes the state and gives the new one, with its result. The
-- source holds a mutex in every method of the cache, the router and the registry, so a method is one
-- step, and calls from several goroutines are one sequence of steps. A call of the handler is taken as
-- one step too, with the end of a prefetch as another: what other calls do between the lookup and the
-- store of one call is not in the model of the handler, though it is in that of the cache, where any
-- sequence of method calls is allowed. A start of the core is the other way round: each hold of the
-- mutex is a step, and any events come in any order between the steps. Starts themselves exclude each
-- other (startMu), and a change of the host is one step with the test before it, as hostMu is taken
-- before the mutex is given back. The steps of a start form no loop, so sixteen end it.
--
-- The commands that remove the rules of the transparent proxy may fail, and the code does not look at
-- their result (service/kernel/v2ray/transparent.go): the flag is cleared all the same. In the model
-- the host may refuse a removal; the rules then stay behind, and the manager counts them as a residue.
-- The restoration of the system proxy, which is only logged where it fails, is part of that removal.
--
-- Where the context ends while the worker processes a group, step returns no deadline, and the worker
-- sleeps until it is notified, which follows a cancellation in service/server/controller/controller.go.
-- What step returns is modelled on every path; the pass over the groups is not.
--
-- Times are nanoseconds since Go's zero time and are given to each call. Numbers are natural numbers;
-- conversions to 32 and 64 bits are written out where the code makes them, and the counters are taken
-- to stay in their range. All loops of the code run over lists, so no fuel is needed.
--
-- Parameters are what the code calls elsewhere: the exchange with an upstream, the identity of a new
-- message, dns.Fqdn, net.ParseIP, net.ParseCIDR, regexp.Compile, the geosite resolver, the methods of
-- a message and its OPT record (Wire and Edns), the methods of a node (ServerObj), and what the
-- worker calls (World): the clock, the context, the download, the probes, encoding/json, and
-- storeSubscriptionUpdate, which is modelled apart. Errors of the database itself are left out, as are
-- an overflow of a time and the order in which Go ranges over a map where the code sorts after it.
--
-- Not modelled: the transports, the platform's sockets and the start and stop of the listener, which
-- are input and output; log output; the reply builders and EDNS0 of core/dns/response.go; the
-- programs core/main and core/hint; of the service, the rows of the table of subscriptions, the
-- groups of the worker, of the process manager the user's hooks where they cannot fail a start and
-- CheckAndSetupTransparentProxy, of the template what is not about rules or duplicates, the kernel
-- otherwise with its node links and server kinds, the settings, and the web server; and the user
-- interface.
mod Base
pub mod Dns
pub mod Service
