-- ===== src/Lib.antt =====
-- The operator that installs Helm charts for HelmRelease resources.
--
-- A HelmRelease (Api) names a chart and values. A sync (Release.Prepare, `Sync` of
-- pkg/release/release.go) fetches the chart (Chartsync), composes the values (Values), decides on an
-- action (Release.Decide) and runs the loop over actions (Release.Run), which calls a Helm client
-- (Helm) and records phases and conditions on the resource (Status). The client of Helm 3 (HelmV3)
-- implements that interface on top of the Helm library. The controller (Operator) takes resources off
-- a queue and syncs them; the program (Program) makes the clients from its flags at start-up and
-- serves the request that syncs the git mirrors.
--
-- The files and the code they are about:
--   Api        pkg/apis/helm.fluxcd.io/v1/types.go, types_helmrelease.go: the resource, its accessors
--   Errors     pkg/release/errors.go, pkg/chartsync/errors.go
--   Helm       pkg/helm/helm.go, options.go, release.go, utils.go, values.go: the interface of a
--              client, and releases
--   Kube       what is called of the API server, of the retries and of the metrics registry
--   Status     pkg/status/conditions.go, status.go, metrics.go: Conditions (`GetCondition`,
--              `filterOutCondition`), Phase (`ConditionsForPhase`), Update (`SetConditions`,
--              `SetStatusPhase`, `SetReleaseRevision`, ...), Metrics, Queries (`HasSynced`, ...)
--   Updater    pkg/status/status.go: Loop (`Updater.Loop`)
--   Chartsync  pkg/chartsync: Fetch (download.go), Providers and Aes (oss.go)
--   Values     pkg/release/values.go: Merge (`mergeValues`), Compose (`composeValues`)
--   Release    pkg/release/release.go, annotator.go and metrics.go: Context (what the code calls),
--              Observing (the histograms), Manifest (the resources of a release), Operations
--              (`install`, `upgrade`, ...), Cases and Run (`run`), Decide (`determineSyncAction`),
--              Prepare (`prepareChart`, `Sync`, `Uninstall`), PostRender (`getAppManagerPostRenderer`)
--   Operator   pkg/operator/operator.go: Calls (what the controller calls), Queue
--              (`processNextWorkItem`, `syncHandler`), Handlers (`enqueueUpdateJob`, ...), Turns (the
--              workers of `Run` side by side, call by call)
--   HelmV3     pkg/helm/v3: Convert (converter.go), Repositories (repository.go), Calls (what is
--              called of the Helm library), and the client below Client: Generic (release.go), Actions
--              (helm.go, get.go, history.go, upgrade.go, rollback.go, uninstall.go, test.go),
--              Downloads (pull.go, dependency.go, chart.go), Instance (`New` of helm.go)
--   Program    Options and Startup (cmd/helm-operator/main.go: the flags, `getEnvAsSlice`, the clients
--              and the import of repositories), Daemon (pkg/http/daemon/server.go: `SyncGit`),
--              LogWriter (pkg/utils/logwriter.go)
--   Frame      for all of these: what of the world each component keeps if the calls it makes keep it
--   Tests      a small cluster, and the theorems at concrete inputs
-- The other modules below these hold lemmas and theorems.
--
-- State. `W` is everything outside the process: the API server, files, the releases of Helm, the
-- metrics. A call of code that is not in the repository is a field of a record (Kube, Os, Sources,
-- Client, Library, Env, Controller, System), a function of `W`, so that a theorem holds for whatever
-- it answers. A nil dereference and a failed index are the outcome `panicked`. A deferred call runs at
-- the end of a function, also after a panic. Goroutines that are waited for run one after the other, in an order
-- that is a parameter; the workers of the operator and the goroutines of the HTTP server are the
-- steps of a relation.
--
-- Numbers. A duration and a count of an int64 wrap at 2^63 (Base.Int); versions of releases are
-- natural numbers. A Go map is the list of its entries, without an order where the code walks it in
-- any order.
--
-- Fuel. The loop over actions takes six rounds of fuel: each action has a rank (Release.Diagram), of
-- at most five, that is above those of the actions that follow it. The decryption takes as many rounds
-- as there are bytes, each of which takes a block.
--
-- Not modelled: logging; timeouts of commands; durations that are measured; the work queue, the
-- informers, signals and the shutdown of the operator and the program; the router and the other
-- endpoints of the HTTP server; the Helm library, JSON and YAML, which are parameters;
-- generated code; the copy of the lockedfile package of Go. `AckDecode` also writes the credentials in
-- the clear into the copy of the resource that a sync works on; the model hands them on as a value.
-- Where a resource cannot be read again after a conflict, the code goes on with what the failed call
-- returned; the model keeps the copy that it has. A label that is not a text, and a stored release
-- without a chart or info, are left out.
pub mod Base
pub mod Api
pub mod Errors
pub mod Effects
pub mod Helm
pub mod Kube
pub mod Status
pub mod Chartsync
pub mod Values
pub mod Release
pub mod Operator
pub mod HelmV3
pub mod Updater
pub mod Program
pub mod Frame
pub mod Tests
