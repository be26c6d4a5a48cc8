-- ===== src/Lib.antt =====
-- pulumi-engine runs Pulumi operations in the caller's process: the Go package engine opens a
-- stack in a backend, keeps its configuration, and starts previews, updates, refreshes and
-- destroys, whose events it streams and whose failures it classifies; the package capi puts a C
-- ABI with handles in front of it. Pulumi's own packages, the file system and the clock are
-- parameters: records of functions, with what the source relies on as named laws.
--
-- Prelude, Text: the shared helpers. Go's maps are association lists in which a key stands once,
-- and a loop over a map takes the order of the list; where the order can be seen, in the plugin
-- host's loops, it is a parameter. Strings are sequences of ASCII characters.
-- Errors: engine/errors.go. The typed errors and their chains are the data type GoError; find_as
-- is errors.As, kind_of is KindOf, classify_backend_error is classifyBackendError. The errors of
-- other packages stand for the Go type or value that the source asks for. Errors.Fallible has
-- the results of functions that return a value and an error.
-- Events: engine/events.go. classify_event is classifyEvent, decoded_event what the loops that
-- feed an operation do with a decoder's answer. Payloads that nothing reads are texts.
-- Queue: eventQueue of engine/operation.go, with its pump and reader as steps of a schedule: the
-- queue's lock serialises them, so any interleaving is a list of actions.
-- Operation: the state of an operation and Cancel, push and handleEvent of engine/operation.go;
-- a channel stands for whether it is closed. Operation.Outcome has fillFailureMessages and finish,
-- planViolations of engine/plan.go and classifyOperationError. finish is the composition of settle, terminate
-- and close_stream; Operation.Stream puts events between them. Operation.Race splits push into its
-- two critical sections, with any number of goroutines between them. The events that reach handleEvent are a list, with the times of the
-- pushes; they are the client's and the engine's alike.
-- Property: propertyToJSON and the part of Outputs that reads a snapshot, of engine/stack.go.
-- Spec: engine/spec.go. validate returns the spec with its defaults instead of writing them into
-- its argument.
-- Config: the handle of engine/stack.go, its project file and SetConfig, GetConfig and
-- RemoveConfig; Config.Open is Open. Each operation runs under the handle's lock and returns the
-- error and the handle after the call. Of Pulumi's value of an object, whose secrets stand inside
-- its JSON, no law is assumed.
-- Checkpoint: Export, Import, Remove, Cancel, GetTags, SetTags and pendingOperationURNs of
-- engine/stack.go, on the backend's answers.
-- Credentials: withSpecCredentials and openBackend of engine/stack.go, over the contents of files.
-- The module Plan: engine/plan.go, with savePlan and mergeEnv of engine/operation.go.
-- Execute: execute of engine/operation.go, split where it takes a resource: a deferred release is
-- the end of a bracket, and the trace has what is taken, given back and run. The flush of the
-- standard output before the listener is given back may wait for ever: then nothing follows it.
-- Stdout: engine/stdout.go. The pump on the chunks that its reads give, the routing of a line, and
-- the listeners by stack; a match of the banner's pattern is a parameter. Stdout.Accounts follows each byte and each line
-- to where it goes. Stdout.Flush has the start
-- of the capture and the flushes.
-- Listing, History: ListStacks and History of engine/stack.go. The loop over the backend's pages
-- runs on fuel, one unit for each page.
-- Capi: capi/capi.go. The registry, its handles as 64-bit words whose counter wraps around, and a
-- function for each exported one; calls are steps. The error of a reply is the one that setErr is
-- called with, and set_err what reaches the caller, who may pass NULL. The engine is the parameter EngineApi there.
-- Secrets: engine/crypto.go. newSecretsManager returns the project file with the key material that
-- it records; OfType and checkpointSecrets are of_type and checkpoint_secrets. Pulumi's managers,
-- the check of a passphrase and the decoding of JSON are fields of SecretsApi.
-- Operation.Scope: scopeSource of engine/operation.go, which hands Cancel to the backend, as a step
-- relation on the goroutine's two selects.
-- Operation.Running: a handle's running operations, with start, the steps of finish and
-- Stack.Cancel, which reads them under the lock and cancels them one by one, in any interleaving.
-- Host: engine/pluginhost.go. The host keeps the language hosts that it launched; a log has what is
-- launched, cancelled and closed. HostApi has Pulumi's default host and the processes.
-- Program: engine/program.go, the preparation of the three kinds of program.
-- Drift: internal/upstream/drift/drift.go. Drift.Header has the patterns of the header lines,
-- Drift.Parse parseUnit, Drift.Resolve the Resolver with its cache, Drift.Check, Drift.Update and
-- Drift.Scan the functions of these names. The go tool, the files, SHA-256 and the differ are the record Tool. A
-- computation's outcome says whether it returned, panicked or did not return. The Resolver runs on
-- fuel, two calls: the second asks at a version, and then calls itself no more, unless a module is
-- listed with neither a directory nor a version.
-- Tests: the theorems at concrete inputs.
--
-- Every other loop is structural recursion on a list, a text or a tree, and needs no fuel.
--
-- Not modelled: the options that execute only hands on to the backend, gRPC servers and the
-- processes of plugins, the diff of two files and the command of the drift checker, the copies of
-- Pulumi's code in internal/upstream, the bindings and the scripts. Locks are taken
-- to serialise what they guard; time is a number that is passed in.
pub mod Prelude
pub mod Text
pub mod Errors
pub mod Events
pub mod Property
pub mod Operation
pub mod Spec
pub mod Config
pub mod Capi
pub mod Credentials
pub mod Queue
pub mod Stdout
pub mod Listing
pub mod History
pub mod Plan
pub mod Execute
pub mod Checkpoint
pub mod Secrets
pub mod Host
pub mod Program
pub mod Drift
pub mod Tests
