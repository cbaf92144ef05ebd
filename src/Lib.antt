-- ===== src/Lib.antt =====
-- lstk: the command line tool that starts LocalStack emulators and works with their snapshots.
--
-- The program's parts and the files that model them:
--
--   * Validators of what users type (internal/validate/validate.go): Validate.antt has a function
--     per validator, with Go's regular expressions as tests and one automaton; Validate/Names.antt
--     and Validate/Services.antt say what is accepted.
--   * References to snapshots (internal/snapshot/destination.go): Snapshot/Reference.antt reads
--     the schemes of a reference and prints one (PodRef), and Snapshot/Destination.antt has
--     ParseSource, ParseDestination, ParseRemovable, ParseShowable and ParseVersionable. Its children are about pods (Pods), commands that take cloud snapshots only
--     (Cloud) and local paths (Files). The validators above decide which names a reference may have.
--   * Environments of child processes: Env.antt has execEnv and BuildEnv of internal/awscli/exec.go,
--     BuildEnv of internal/iac/sam/cli/env.go, and the readers envHasKey and envValue of
--     internal/container/start.go, by which the results below are stated. Env/Laws.antt, Env/Aws.antt,
--     Env/Credentials.antt and Env/Sam.antt are about them.
--   * Published ports: Ports.antt has PortSpec of internal/config/containers.go, PortMapping of
--     internal/runtime/runtime.go, and the two maps in which both files record what is taken.
--     Config/ExposePorts.antt has ExposedPorts of internal/config/containers.go; its result goes to
--     mergeExposePorts of internal/container/expose.go, in Container/Expose.antt, whose result goes to
--     dropBusyOptionalPorts and startWithOptionalPortFallback of internal/container/start.go, in
--     Container/OptionalPorts.antt.
--   * The gateway's addresses (internal/container/gateway.go, servicePortRange of
--     internal/container/start.go): Container/Gateway.antt. The ports it publishes are among the
--     mappings that mergeExposePorts begins with.
--   * The environment of the emulator (filterHostEnv, agentEnv and the assembly in startOnce of
--     internal/container/start.go): Container/HostEnv.antt.
--   * The wait for a started emulator (startupMonitor.await and exitedError of
--     internal/container/start.go): Container/Startup.antt, a step function on what the select
--     receives; an event carries what a check of the container finds at that time.
--   * Blocks of the config file (internal/config/containers.go): Config/Emulators.antt has the types
--     of emulators and the images lstk knows, Config/Volumes.antt a block's volumes, and
--     Config/Containers.antt a block with its image, name, environment and validation, over those
--     and Config/ExposePorts.antt. Each has its laws in a child.
--   * A start (internal/container/start.go): Container/Start.antt has Start and startOnce over the
--     steps that they call in this order: Container/Build.antt makes the blocks of the config into
--     containers, Container/Select.antt chooses what to start and removes
--     leftover containers, Container/Licenses.antt checks licenses, with GetLicense of
--     internal/api/client.go, Container/Pulls.antt pulls images, and Container/Retry.antt mounts the
--     license, starts, and starts once more behind a stale license. What they call of the world is
--     the interface of Container/Outside.antt. A step is an Action (Container/Actions.antt): it takes
--     the state of the world to a result or an error and the state then, so that what was done
--     before an error stays done. Container/Actions/Outcomes.antt has the rules by which the laws
--     go through such steps. Ports/Available.antt is CheckAvailable of internal/ports/ports.go.
--   * Logs of an emulator: Container/Logs.antt has shouldFilter of internal/container/logfilter.go and
--     lineRing and emitFilteredBacklog of internal/container/logs.go, on lines that are read already;
--     Container/LogLines.antt has readBoundedLine and trimEOL of the same file, on the slices that the
--     buffered reader returns; Container/LogStream.antt has forEachLogLine and Logs over what the
--     runtime streams; Container/LogTail.antt has the buffer of
--     internal/container/logtail.go, into which startContainers writes.
--   * Emulators that run: Container/Running.antt has ResolveRunningContainerName and RunningEmulators of
--     internal/container/running.go and Stop of internal/container/stop.go; Container/Switch.antt has
--     ApplyEmulatorType of internal/container/emulator_type.go. The operations of the runtime and of the
--     config file (EnsureCreated, SetEmulatorType and Get of internal/config, which edit and decode the
--     file's text) that they call are two more interfaces of Container/Outside.antt, of which nothing is
--     assumed.
--   * The endpoint of an emulator that lstk did not start (internal/endpoint/target.go): Endpoint.antt
--     has Resolve, over a record of what net/url and the HTTP requests of the probe answer.
--   * Tokens (internal/auth): Auth.antt has auth.go over the interface AuthTokenStorage of
--     token_storage.go, a record of operations whose laws Auth/Sessions.antt takes as a parameter. The
--     token file of file_token_storage.go, in Auth/Files.antt, fills them. systemTokenStorage, the
--     keyring with a file behind it, does not where the keyring can be read and not deleted from;
--     Auth/Keyring.antt says what is read then. Auth/Login.antt has login.go.
--   * The terminal UI (internal/ui/app.go and internal/ui/components): Ui/App.antt has the state of the
--     App, Ui/Messages.antt what it receives and what it asks for, Ui/Update.antt and Ui/Run.antt
--     Update, over Ui/Spinner.antt, Ui/Progress.antt and Ui/Prompt.antt, the components that the App
--     holds, and Ui/Keys.antt, resolveOption and formatResolvedInput. Ui/Prompt.antt has the prompts of
--     internal/output too. A run is a list of messages; its laws are in Ui/Run, what it keeps in
--     Ui/Coherent, the order of lines in Ui/App/Lines.antt.
--   * The update of lstk itself (internal/update): Update/Notify.antt has Check, Update and the
--     notification, Update/Install.antt the download of a program, which reads the manifest by
--     Update/Checksums.antt and unpacks the archive by Update/Extract.antt, and Update/LineWriter.antt
--     the writer that passes on the output of brew and npm.
--   * Tests has concrete runs; Prelude and Text are the shared helpers and what the code uses of Go's
--     strings, strconv and path/filepath.
--
-- Conventions. A Go string is the list of its code points, so it is valid UTF-8; lengths in bytes
-- are computed from them. Paths are those of Unix. A Go error is its kind with the values that its
-- message shows; the texts of messages are left out, except those of the container daemon, which the
-- code searches. A Go map from texts is an association list with the entry written last in front.
-- Arguments by which a caller hands in state, such as the working directory, are arguments here too.
--
-- Parameters. The file system (os.Stat), net/url.Parse, the test whether a host port is free, and
-- the container daemon are functions that the definitions take: the daemon is a state with a start
-- that answers with an identity or an error text, and a removal that succeeds or fails.
-- The test whether a host is an IP address (netip.ParseAddr) is one more. A start takes the world
-- as a record of operations on a state: the runtime, the license server, the license file, the
-- directories and the user. The start of a container, with its retries and the monitor's wait, stands
-- there as one operation whose result is an Ending of Container/Startup.antt with the logs.
--
-- A sequence of events is any list: an event that cannot arrive (an answer without a prompt, a report
-- on a channel that is nil, a timer that has fired) changes nothing.
--
-- Bounds and fuel. Numbers are natural numbers; strconv.Atoi and strconv.ParseUint are given their
-- bounds. Printing a number n in decimal has fuel n + 1, which is enough, since every digit divides
-- it by ten. The retry loop of startWithOptionalPortFallback takes one unit of fuel per attempt; it
-- drops a mapping per attempt, so one unit more than there are mappings is enough. The loop of
-- emitFilteredBacklog multiplies the size it asks for by eight in each round, with the wrap-around of
-- 64-bit integers, until it passes 100000: seven units are enough.
-- The loop of forEachLogLine takes one unit per line, and has one more than there are slices.
--
-- Not modelled, as input and output only: what is written to the terminal, telemetry and tracing, HTTP
-- requests, and the processes that are run; of the terminal UI, View with its styles and wrapping. An
-- event of the UI carries the text that FormatEventLine or a style makes of it. Not modelled for their
-- size: the setup behind a start, the Terraform and CDK proxies and extensions.
--
-- What the code ignores, the model has and the results do not rule out: the removal of the license
-- file and the stop of a container may fail. A range of ports that ends at the largest int, over which
-- the loop of CheckAvailable does not end while all are free, is not meant.
pub mod Prelude
pub mod Text
pub mod Update
pub mod Ui
pub mod Validate
pub mod Snapshot
pub mod Endpoint
pub mod Env
pub mod Ports
pub mod Config
pub mod Container
pub mod Tests
pub mod Auth
