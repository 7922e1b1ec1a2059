-- ===== src/Lib.antt =====
-- The exporter_creator component: an OpenTelemetry exporter that starts sub-exporters for the
-- endpoints that observers report, and routes telemetry to them by resource attributes. This
-- library models its Go code as functions and states and proves what makes it correct.
--
-- How the program works. Observers report endpoints to a subscription (observernotify.go), which
-- hands each notification to one shared handler (observerhandler.go) and to a tracker that counts
-- endpoints (endpointtracker.go). The handler evaluates each template's rule (rules.go) on an added
-- endpoint, expands the template's configuration (config_expansion.go), asks the runner
-- (exporter_runner.go) for an exporter, keeps it in a multimap (exportermap.go) and registers it
-- with the router (router.go). A batch of telemetry (exporter.go) is grouped by the exporters that
-- the router names for each resource, and sent.
--
-- The parts, their files and the code:
--   Prelude     tests, lists, 64-bit words, equality, outcomes, Go maps, maps of slices and numbers.
--   Value       Go's `any` as a tree, maps of `any`, and `toString`, `flattenProperties` (router.go).
--   Path        `parsePropertyPath`, `parseBracketedKey`, `resolveAttributeName`,
--               `getNestedProperty` (router.go). Grammar has the paths as data and as text, Print
--               and Sound the two directions, Fuel the end of the loop, Resolve attribute names, Nested what stands at a path.
--   Router      `telemetryRouter` (router.go): state and every operation. History has the abstract
--               view, Refines the refinement, Gauge what is reported, Matches and Route the
--               decision. Logs is Route with its logs at debug level (and `attrsToMap` of
--               exporter.go), Logged, Silent and Verdicts relate it to Route.
--   Component   component ids, signals and endpoints; `endpointTypeOf` (observerhandler.go).
--   ExporterMap `exporterMap` (exportermap.go).
--   Tracker     `endpointTracker` (endpointtracker.go): Counts and Invariant for the totals, Live for
--               the endpoints of each subscription.
--   Expansion   `evalBackticksInConfigValue`, `expandConfig`, `expandAny`, `removeNilValuesFromMap`
--               (config_expansion.go). Pieces has the templates as data, Scan and Template the
--               scanner, Tree, Prune and Entries the maps.
--   Rules       `rule.eval` (rules.go); Pattern is `ruleRe` and `newRule`, with the type names of
--               observer_endpoint_types.go, Takes and Starts what it accepts.
--   Config      the data types of config.go; Signals is `signalsFromConfig`, Routing the check of the
--               routing rules, Unmarshal `newExporterTemplate` and `Config.Unmarshal`, Template and
--               Accepted what it makes.
--   Handler     `observerHandler` (observerhandler.go). Resolve is the part of `startExporter` before
--               the exporter is started; History is the induction over notifications, InStep, Calls,
--               Leaks, Errors, Removed, Target and Routed the theorems, Answered the log of
--               the runner's answers.
--   Wrapped     `wrappedExporter` (exporter_runner.go), `warnUnsupportedSignal` (exporter.go).
--   Runner      `exporterRunner` (exporter_runner.go) with `loadRuntimeExporterConfig`,
--               `mergeTemplatedAndDiscoveredConfigs` and `createLogsRuntimeExporter`. Merged is what
--               the merge is given, Created what a start creates, Endpoint the way of an endpoint
--               from the handler to what is loaded. Serving is the runner behind the interface of the
--               handler, Once and Served are about the handler with this runner.
--   Pdata       the telemetry data that is counted, and the counts (exporter.go).
--   Consume     the code that ConsumeLogs and ConsumeTraces share (exporter.go); Metrics is
--               ConsumeMetrics as it is written. Groups, Sent, Defaults and Batch account for a
--               batch, Same compares the two, WarnOnce has the warnings.
--   Notify      `observerNotify` (observernotify.go) over the handler and the tracker, each callback in
--               two halves; Tracked is about every order of the halves.
--   Creator     `newExporterCreator`, `Start`, `Shutdown` and the entry points (exporter.go); Found
--               and Subscribed are about `Start`, Consuming about the entry points.
--   Factory     `getOrAddExporterCreator` and the create functions (factory.go). Store has the
--               histories of calls, Sound their invariant, Sharing and Released the theorems, and
--               MapStore a component store that meets the laws.
--
-- How the model corresponds to the code:
--   * A function of the code is a function of the same name in this spelling; a method is a function
--     of its state, which it returns; the body of a loop is a function of its own. An error is a
--     value, and an error message is kept where the code tests it.
--   * A string is its bytes. An `int` or `int64` is its bit pattern modulo 2 ^ 64.
--   * A Go map is the list of its entries in the order of a range. Go leaves this order open, and
--     every theorem holds for every order.
--   * A component is a reference, a number; `Consume` takes what stands behind a reference. The runner
--     counts the calls before a start for the reference of what it makes (`Runner.Serving`). The wrapper
--     that factory.go hands out by its pointer has an address, which the next one does not have.
--     Start returns its calls of ListAndWatch with the creator.
--   * A method that holds a lock from its first line to its last is one step. A callback of an observer
--     is two steps, one for the handler and one for the tracker (`Notify.Half`). ConsumeLogs,
--     ConsumeMetrics and ConsumeTraces call Route once for each resource, and others may change the
--     router between two of these calls: each resource of a batch comes with the state of the router
--     that its call meets (`Creator.Consuming.AtRoute`).
--   * Code outside the repository is a parameter: `eval` for expr.Eval and a rule's `program` for
--     expr.Run, `composite` for the `%v` rendering of maps and slices, `attribute` for a resource's
--     attributes, `consume` and `call` for the exporters of the host, and in Runner a record of what
--     a factory answers, `to_text` for cast.ToString, `id_text` for ID.String (also in Notify) and `merge` for confmap's
--     Merge. Config has what confmap answers for a document, and Factory the component store with its
--     laws. The handler takes the runner as the interface `Handler.Runner`, as the code does. The
--     answers of exporters and of the runner may depend on all calls before.
--
-- Bounds. All recursion is structural but for the loop of `parsePropertyPath`, which has the length
-- of the path as fuel: each round takes a byte at least, and Path.Fuel has that it is never
-- used up. The digits of a number have the number itself as fuel.
--
-- Not modelled: the logs other than those of Route, and `setLogger`; `NewFactory`, `Capabilities`
-- and the methods of `sharedExporter` that pass a call on; internal/sharedcomponent, which is a copy
-- of another project's package; internal/metadata and internal/metadatatest, which are generated.
pub mod Prelude
pub mod Value
pub mod Path
pub mod Router
pub mod Component
pub mod ExporterMap
pub mod Tracker
pub mod Expansion
pub mod Rules
pub mod Config
pub mod Handler
pub mod Wrapped
pub mod Pdata
pub mod Consume
pub mod Notify
pub mod Creator
pub mod Factory
pub mod Runner
