-- ===== src/Lib.antt =====
-- RKE2: how the control plane of a node is configured, and run as static pods.
--
-- The program reads its command line into a configuration, resolves the images of the control plane,
-- and has an executor that writes a manifest for each component into a directory that the kubelet
-- watches. The parts that are modelled, and their files:
--
--   * Images (pkg/images/images.go). Resolver is the struct of that name; new_resolver, set_override,
--     get_reference and pull are NewResolver, SetOverride, GetReference and Pull. Images/Registry has
--     setRegistry and splitRegistryAndPath, Images/Preload Pull and checkPreloadedImages. The package
--     `name` of go-containerregistry is the parameter Names; its laws are IsLawful.
--   * Podtemplate (pkg/podtemplate). NewConfig is NewConfigFromCLI; Resources and Probes are
--     parseControlPlaneResources and parseControlPlaneProbeConfs of config.go, with the loops that they
--     share in Assignment. The maps of pointers are functions that read and write a field, and the order
--     in which Go ranges over them is an argument. Spec is spec.go; Pod, Volumes, ProbeAction and Files
--     are podtemplate.go and utils.go.
--   * Staticpod (pkg/executor/staticpod). ApiServer is the loop of APIServer in staticpod.go, which
--     removes from the slice that it ranges over: the array behind the slice is part of its state, and a
--     panic is none. Components has the methods that start a component. Each returns the Spec that the
--     program hands to writeTemplate when a channel is closed. Executor has writeTemplate, writeFile and
--     removeTemplate.
--     Etcd has ETCD, chownr and stopEtcd. Cleanup is cleanup.go: RemoveDisabledPods, and the polls of
--     terminateRunningContainers, whose list shrinks while it is ranged over, so that the array behind
--     it is part of the state; what happens while the program waits is a list of events.
--     Sandboxes is spw.go: checkManifestDeployed, and one poll of reconcileStaticPods behind the
--     connection; the sandboxes and their states are read at one instant.
--   * Bootstrap (pkg/bootstrap/bootstrap.go): the directories of the runtime image, cleanDataDirs, in
--     Charts setChartValues, rewriteChart and getDefaultIngressClassFromCharts, and in Runtime
--     releaseRefDigest and preloadBootstrapFromRuntime, without what they log. The orders in which
--     rewriteChart ranges over the values, one for each object of each file, are an argument.
--   * Commands (pkg/cli/cmds). FlagOptions is commandFromK3S of k3sopts.go; Charts is
--     disableExceptSelected and validateCNI of server.go; CloudProvider is validateCloudProvider of
--     root.go; Profile is profile_linux.go. The calls of clx.Set that are made are a list.
--   * Policies (pkg/rke2). Templates and Network are np.go, ServiceAccounts is serviceaccount.go. The
--     client of Kubernetes is a parameter, and so is how often client-go retries a call: all that is
--     known of it is that it runs the call, again after an error that is to be retried (Runs).
--   * Start (pkg/rke2). prepare and init_static_pod_executor are initStaticPodExecutor of rke2_linux.go,
--     which uses RemoveDisabledPods and the configuration of Podtemplate; Psa is psa.go.
--   * Logging (pkg/logging/logging.go): ExtractFromArgs.
--   * Base: the names that the others share, Go's strings, strconv and path/filepath as far as they are
--     used, maps with string keys, errors, and the calls of the package os on a machine that is a
--     parameter (Os). An action (Act) changes the machine and may fail; what was changed stays so.
--   * Tests: a machine and image names to run the program on, and each theorem at a concrete input.
--
-- Loops are structural on what they range over; the loop of APIServer runs as many rounds as the slice
-- had elements at first, and decimal numerals have as much fuel as their number, so neither runs out.
-- An int32 that the program parses is its value, which is never negative; the port of the apiserver is
-- its 32 bits. Texts are read by characters, where Go reads bytes: all separators are ASCII.
--
-- Not modelled: the log, most goroutines and channels, the extraction of the runtime image, the tables of
-- the flags, the cluster roles, and the executor and the services of Windows. The clients of Kubernetes
-- and of the container runtime, the command line's parser, SHA-256, YAML, resource quantities,
-- kubeconfigs, the user database and the hash of a pod are parameters.
pub mod Base
pub mod Images
pub mod Podtemplate
pub mod Staticpod
pub mod Bootstrap
pub mod Commands
pub mod Policies
pub mod Start
pub mod Logging
pub mod Tests
