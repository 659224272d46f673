-- ===== src/Lib.antt =====
-- The NimbleNet SDK: on-device inference with features computed from user events.
--
-- The SDK keeps tables of user events (nimblenet/UserEvents), models of the ONNX runtime
-- (nimblenet/Executors/onnx), feature vectors from the cloud (nimblenet/FeatureStore), and gets models
-- and features from the device's files or the server (nimblenet/ResourceManager,
-- nimblenet/ServerAPI). An inference takes its inputs from the request, from the feature store, and
-- from the preprocessors of the tables, whose rolling windows aggregate the events of a group. The
-- command center (nimblenet/CommandCenter) makes all of these from the client's configuration, passes
-- the calls of the C interface (nimblenet/nimblenet) on to them, and has a thread that registers the
-- device, updates models and features, and uploads the files of its two loggers (nimblenet/util).
--
-- Files, and the code that they model:
--   Prelude       texts, maps, lists and integers as the modules share them
--   Base64        nimblenet/util/src/base64.cpp
--   Status        nimblenet/nimblenet/include/crossPlatformUtil.h
--   Json          nimblenet/util/include/json.h over an interface of the json library
--   Config        nimblenet/ConfigManager
--   UserEvents    nimblenet/UserEvents: Structs (UserEventsStruct.h), Description
--                 (UserEventsStruct.cpp), AggregateColumn with SumColumn, CountColumn, AverageColumn,
--                 MaxColumn, MinColumn (the last two share ExtremeColumn), Window (RollingWindow and
--                 TimeBasedRollingWindow), PreProcessor, TableStore, Manager (UserEventsManager, over
--                 SQLite as an argument)
--   Executor      nimblenet/Executors/onnx: Structs, Description (from_json), Inputs
--                 (InferenceInputsDatabase), Model (ONNXModel, whose get_inference is in
--                 Model/Session), Manager (ONNXExecutor); Torch is
--                 nimblenet/Executors/pytorch, over libtorch as an argument
--   FeatureStore  nimblenet/FeatureStore
--   Server        nimblenet/ServerAPI; Cloud is get_cloud_config, Logs upload_logs, GetModel
--                 get_model
--   Logger        nimblenet/util/src/Logger.cpp and its header; Upload has send_pending_logs
--   Resources     nimblenet/ResourceManager
--   CommandCenter nimblenet/CommandCenter: the state and set_cloud_config, Start (initialize), Calls
--                 (the calls of a client), Round (a round of perform_long_running_tasks)
--   Nimble        nimblenet/nimblenet/src/nimblenet.cpp: initialize_nimblenet
--   Client        linux/src/client.cpp, over curl as an argument
--   Native        nimblenet/NativeInterface over a client
--   Examples      every theorem with hypotheses or variables at a concrete input
--
-- Methods are functions that take the object's record and return the new one, under the method's name
-- in small letters with underscores. A computation that may have undefined behaviour, such as a read
-- out of bounds or a call through a null pointer, returns an Option whose none is that fault; null
-- pointers, false and exceptions of the source are values of the result type. The network, SQLite, the
-- session of the runtime, the source of preprocessed inputs behind the executor, the metrics of the
-- platform, the order in which a directory is listed and the json library are arguments. So is the
-- clock, on its own or in a Moment, which also says which of the file system's calls to rename, remove
-- and open a file succeed. The thread of the command center is a sequence of rounds, any number of
-- which may stand between two calls.
--
-- Bounds: integers are natural numbers, or integers where the source has -1, and do not overflow; a
-- clock that goes back counts as one that stands still. A time window is in whole seconds. Loops are
-- recursion on the list or on the number of rounds left, so no fuel is needed but for the slashes at
-- the end of a host, with a round for each character of it, and numbers in decimal: in
-- Resources.decimal a number has no more digits than its value plus one, and in UserEvents.Manager a
-- long has fewer than 20.
--
-- Not modelled: what the SDK writes to its own log on the way, the formatting of messages, locks,
-- priorities and sleep of threads, races between a call and a round, writes to a log file that fail,
-- the release of memory but for the tensors of an inference and a model that is replaced; the client
-- for Android (JNI); the demonstration program; the copies of nlohmann json and SQLite.
pub mod Prelude
pub mod Base64
pub mod Status
pub mod UserEvents
pub mod FeatureStore
pub mod Json
pub mod Server
pub mod Config
pub mod Logger
pub mod CommandCenter
pub mod Nimble
pub mod Client
pub mod Native
pub mod Executor
pub mod Resources
pub mod Examples
