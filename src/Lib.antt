-- ===== src/Lib.antt =====
-- Botkube: a model of the agent's event routing, plugin supervision, command guard and analytics.
--
-- The program. Botkube watches a Kubernetes cluster and sends notifications to chat platforms. The
-- Kubernetes source (internal/source/kubernetes) builds a routing table from the configurations of
-- all sources, registers informers, and for every change of an object asks which sources it goes to;
-- for each of these the event passes filters and recommendation checks before a message is sent. The
-- agent (pkg/plugin) runs sources and executors as plugin processes: it collects the plugins that
-- the configuration uses, starts them, and two supervisors restart those that fail. Commands from
-- chat pass a guard (internal/command) that knows which verbs a resource has. Heartbeats report what
-- was collected of the events (internal/analytics).
--
-- The files.
--   Base               lists, Go maps as association lists, sets, texts, and steps that add elements
--   Config             pkg/config/config.go: the records that the agent's logic reads
--   Plugin/Health      pkg/plugin/health_stats.go: `HealthStats` is a record, a method a function
--   Plugin/Monitor     pkg/plugin/health_monitor.go: a supervisor loop is a function over the list of
--                      failures in the order of its channel; Bounds and Exit have its theorems
--   Plugin/Collector   pkg/plugin/collector.go; Laws and Used have its theorems
--   Plugin/Index, Plugin/Store   pkg/plugin/index.go and store.go: the validation of an index, and the
--                      repositories of known plugins; Valid, Content and Sorted have the theorems
--   Plugin/Manager     pkg/plugin/manager.go: loading indexes, looking plugins up, downloading and
--                      starting them; Clients hands them out, Files, Started and Loaded have the
--                      theorems
--   Execute            pkg/execute: Alias (alias/expand.go), Mapping (mapping.go) and Executor
--                      (executor.go with the look-up of plugin_executor.go); Found and Answers have
--                      the theorems
--   Kube/Config, Kube/Event   internal/source/kubernetes/config/config.go, event/event.go: the data
--   Kube/Allowed       `RegexConstraints.IsAllowed` in config/config.go
--   Kube/Match         `matchEvent` and `kvsSatisfiedForMap` in registration.go; Labels, Meets and Spec have
--                      the theorems
--   Kube/Qualify       `qualifyEvent`, `qualifyEventForUpdate` and the handler of `handleEvent`
--   Kube/Router        router.go: `BuildTable` and what it calls; Routes, Sources, Events and Table
--                      have the theorems
--   Kube/Register      the registration of informers and handlers in router.go and registration.go, and
--                      the handler of `handleMapped`, as `Stream` of source.go wires them; Handlers and
--                      Wired have the theorems
--   Kube/Recommend, Kube/Checks, Kube/Ingress, Kube/Runner   recommendation/: the events, the checks of
--                      pods and of Ingress objects, the factory and the runner
--   Kube/Filter        filterengine/: the engine and both filters
--   Kube/Handle        `handleEventFn` in source.go
--   Guard              internal/command/guard.go
--   Analytics          internal/analytics/batched: what is collected between heartbeats; Totals has the
--                      theorem
--   Config/Keys        pkg/config/plugin.go; Agreement, Conflicts and RoundTrip have its theorems
--   Config/Bindings    the binding checks of pkg/config/validator.go, without the comparison of policies;
--                      Bound and Reports have the theorems
--   Reload             internal/config/reloader/remote.go: the polling loop; Versions and Runs have its
--                      theorems. Reload/InCluster has the event handler of in_cluster.go
--   Source/Scheduler   internal/source/scheduler.go: the open streams and the scheduling; Generate has
--                      `generateConfigs` and `Start`, Bound the bindings that they walk over, and
--                      Streams, Opened, Complete, Walk, Planned, Configs, Plans and Restarts the theorems
--   Source/Dispatcher  internal/source/dispatcher.go; Deliveries has the theorem
--   Config/Aliases     the checks of aliases, include patterns, tokens and channels in
--                      pkg/config/validator.go; Commands has the theorems
--   Execute/SourceBinding   pkg/execute/sourcebinding.go; Edits has the theorems
--   Execute/Switches   pkg/execute/notifier.go and action.go: notifications and actions are switched on
--                      and off, their lists are left out; Changes has the theorem
--   Execute/Listing    the rows of the tables in pkg/execute/exec.go and source.go, and alias/list.go;
--                      Enabled has the theorem
--   Config/Sample      a configuration for the tests
--   Analytics/Tests, Config/Tests, Kube/Tests, Kube/RouterTests, Kube/Scenarios, Plugin/Tests, Plugin/Bindings, Plugin/Catalog, Plugin/ManagerTests,
--   Execute/Tests,
--   Guard/Tests, Reload/Tests, Source/Tests   runs at concrete inputs
--
-- The correspondence. A struct is a record with the source's field names, less the fields that the
-- modelled code does not read; a pointer is an `Option`; a Go map is an association list, and where
-- the source ranges over a map the theorems hold for every order of the list. State is passed
-- explicitly; a mutex makes a method one step. An error is a value; a `panic` or the end of the
-- process is a flag of the result. An `int` of the source that counts is a natural number. Loops are
-- structural recursion, so there is no fuel.
--
-- What stands outside is an argument: `regexp.MatchString` (`match_string`, `none` for a pattern that
-- does not compile), `k8sutil.Diff` (`diff`), the cluster's answers, `TransformIntoTypedObject`, the
-- message builder, the outcome of starting a plugin client, the clock, the discovery client, YAML,
-- `sort.Sort`, the order of versions, a download, the GraphQL service, `config.LoadWithDefaults`
-- and the comparison of two configurations (for any loader and comparison), and for the executor the
-- readers of a message and its flags and what the single executors return.
--
-- Not modelled: the bots, sinks and their SDKs, the reading of flags, the layout of the tables that
-- commands print, configuration loading, external requests, the health watcher, sending analytics, the
-- command line tools, Protocol Buffers code, the informers themselves and message rendering.
-- `downloadBinary` is an argument; one that fails is taken to leave no file at the path.
pub mod Base
pub mod Config
pub mod Plugin
pub mod Kube
pub mod Guard
pub mod Analytics
pub mod Reload
pub mod Source
pub mod Execute
