-- ===== src/Lib.antt =====
-- A model of the vCloud block storage CSI driver, a Kubernetes storage plugin that serves the
-- Controller and Node services of the CSI over gRPC and keeps its volumes in a vCloud backend.
--
-- Parts and files
--   Client     pkg/vcloud/client/client.go and types.go. `post` is doRequest: one POST of a JSON
--              object, answered by a JSON object or an error text. Client/Volumes and
--              Client/Snapshots have one function per operation and the parsers of the answers;
--              Client/Types has the payload structs with their JSON tags; Client/Decoded what
--              decoding to float64 makes of the numbers; Client/Errors has the tests on error
--              texts, over Text/Contains for the client's own substring search.
--   Locks, Maps  VolumeLocks and the map helpers of pkg/vcloud/utils.go. Locks/Exclusion has the
--              interleavings of concurrent handlers as a step relation.
--   Sizes      RoundUpBytes and the GiB conversions of pkg/vcloud/utils.go.
--   Config     pkg/vcloud/client/config.go: the INI parser over the bytes of the file, and the
--              configuration that is read with it. Config/Document says what a file says.
--   Plugin     main of cmd/vcloud-csi-plugin/main.go: `start` from the parsed flags to a driver,
--              and Plugin/Process from there to the server.
--   Driver     NewDriver, its options and its capability lists, of pkg/vcloud/vcloud.go.
--   Controller  pkg/vcloud/controllerserver.go: Volumes (CreateVolume, DeleteVolume), Publish
--              (publish, unpublish, capability validation, expansion) and Snapshots; Calls has the
--              sum of all calls with their dispatch. A handler asks the backend through the client;
--              all but validation and the listing of snapshots hold the lock of their volume, volume
--              name or snapshot meanwhile. Backend has what the controller relies on in a backend,
--              as an interface: the names of its volumes by ID, and how they stand to its answers.
--              One kind of backend checks names itself, the other only finds names that are in
--              use, and may create a name twice. Backend/Ensures has the specification of
--              CreateVolume on these, Backend/Removed has deletions, as HTTP answers, and
--              Backend/Attached where the volumes are attached.
--   Node       pkg/vcloud/nodeserver.go: Stage, Publish, Stats, Expand, and Calls. The four
--              handlers that mount and unmount hold the lock of their volume and path; all work
--              through the interface Mounter and the host. Mounted says what the calls do to the
--              mount table, from the laws in Mounter/Laws alone, and Cycle puts them together.
--   Mounter    pkg/vcloud/mounter.go: the interface, Host (the type mounter) and Fake (FakeMounter).
--   Os         What is used of the operating system, as an interface; Os/Files and Os/Waiting
--              have the helpers of pkg/vcloud/utils.go on files and timeouts, and its Validate
--              functions.
--   Webhook    validate and isVolumeAttached of cmd/pvc-expand-webhook/main.go, over the Kubernetes
--              API, the decoding of claims and the order of quantities as parameters;
--              Webhook/Handler has handleValidate, over the codec of reviews, and Webhook/Process
--              what main sets up, and the routes.
--   Identity   pkg/vcloud/identityserver.go, and the getters of the two other services.
--   Server     parseEndpoint of pkg/vcloud/server.go; Server/Serving has the gRPC server, and Run
--              of pkg/vcloud/vcloud.go.
--   Grpc       What a handler is: a function from the driver's state to an outcome, which is a
--              reply, a status error or a panic, and a new state. The state is the lock map and a
--              world, of any type, that stands for all that is outside the driver.
--   Base, Text, Dict  Helpers: results, integers with Go's comparisons, byte strings with decimal
--              notation, substrings, lines and words, Go maps as association lists.
--   Tests      A scripted server, a backend of one volume, a host, runs of the model and the theorems
--              at concrete inputs.
--
-- Parameters
--   net/http and encoding/json are a transport: a function from the request's URL, headers and body
--   to a response or an error, over the world. The operating system, os/exec and k8s.io/mount-utils
--   are records of functions on the world, and so are net with grpc-go. A theorem that needs more
--   of them says so in a hypothesis. The clock is a function of the world.
--
-- Choices
--   Text is a list of bytes, as in Go. int64 sizes are integers without a bound where the code
--   compares, prints and copies them only; NodeGetVolumeStats, which computes with them, and the
--   functions of Sizes work on 64 bits. A number in a JSON answer is the integer that int64(f) gives
--   for the float64 it is decoded to; Client/Decoded starts from the number as it is written, and
--   rounds it. strings.Fields and strings.TrimSpace are modelled for the white space of ASCII. The
--   scanner of the configuration file stops at a line of 64 KiB, as bufio does. A panic is an
--   outcome: of a handler, of the parser (none), of the webhook and of the process. The recursions
--   follow lists, or the number of attempts or parents that the code counts to, so no fuel is used.
--   Log output is left out. A deferred Release runs on every outcome, a panic included. Where an
--   operation ranges over a Go map, the order of the list is the order of that one iteration:
--   Maps/Laws has maps whose iterations differ. Of WaitUntilTimeout the host says whether the timer
--   fires first, and in which state; the function that it leaves running in the background is part
--   of the host then.
--
-- Not modelled
--   The parsing of the flags, the signal handlers, and the listening of the webhook's HTTP server,
--   which are calls of libraries alone. logGRPC only logs.
pub mod Base
pub mod Text
pub mod Dict
pub mod Locks
pub mod Client
pub mod Grpc
pub mod Maps
pub mod Driver
pub mod Controller
pub mod Os
pub mod Mounter
pub mod Node
pub mod Webhook
pub mod Config
pub mod Plugin
pub mod Sizes
pub mod Identity
pub mod Server
mod Tests
