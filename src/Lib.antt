-- ===== src/Lib.antt =====
-- Verification of CraftStack, a master and its agents that run game servers and databases in
-- Docker containers on several machines (cmd/master, cmd/agent, internal).
--
-- The master keeps the known agents, serves the web interface with its logins, collects log lines,
-- starts scheduled backups, creates and changes instances, and watches files and pushes those that
-- change. An agent makes a container for every instance that the master assigns to it, restarts
-- those that crashed, and takes the files and the server data that the master sends. The two talk
-- by gRPC: an agent registers and sends heartbeats (Master.Registry), and the master calls
-- PushFile on an agent (Master.FilePusher is the client, Agent.PushFile the server),
-- BackupInstance (Master.Backups), UploadServerData (Master.Instances.Upload, Agent.Upload) and
-- ControlInstance; the answer to a heartbeat carries the instances to synchronise
-- (Master.Instances.Assigned, Agent.Instances.Sync).
--
-- Files and the code they model:
--   Prelude             shared types, lists and numbers; Prelude.Dict is a Go map with string
--                       keys
--   GoText              the functions of strings, strconv and unicode that the code calls, on
--                       bytes
--   GoPath              path/filepath on Unix: Clean, Join, Dir, Base, Abs, Rel; GoPath.Glob is
--                       Match
--   Master.LogBuffer    internal/master/log_buffer.go: LogRingBuffer.Add is `add`, Lines is
--                       `lines`, BroadcastLog is `broadcast_log`, GetLogHistory is
--                       `get_log_history`
--   Master.Cron         the cron parser of internal/master/scheduler.go: cronMatches is
--                       `cron_matches`, ValidateCron is `validate_cron`
--   Master.Users        internal/master/store/user.go: the table of users
--   Master.Auth         internal/master/web/handler_auth.go and its routes in router.go:
--                       sessions, the middleware, and the handlers that write users; a request is
--                       a value of `Request`, and `serve` runs a list of them
--   Master.Registry     internal/master/server.go, store/node.go, RegisterAgent and Heartbeat of
--                       grpc_agent_service.go: `register_agent`, `heartbeat`, `health_check`
--   Master.Backups      tick and runBackup of scheduler.go, over internal/master/store/backup.go
--   Master.FilePusher   internal/master/file_pusher.go and handleEvent of
--                       internal/master/sync/engine.go
--   Master.Watcher      internal/master/watcher/watcher.go: `handle_event` is handleEvent, its
--                       timers and goroutines are the steps of Master.Watcher.Runs
--   Master.Instances    internal/master/store/instance.go, network.go and audit.go, as far as the
--                       handlers of instances use them, with Store for the reads and writes;
--                       Requests are the messages, and Form, Create, Update, Control and Upload
--                       the handlers of internal/master/web/handler_instance.go, Rollback that of
--                       handler_audit.go; Assigned is what the master sends to an agent
--   Agent.Containers    internal/agent/docker/images.go; Memory is computeDockerMemory of
--                       internal/agent/util.go
--   Agent.Instances     internal/agent/instance_sync.go and instance_manager.go: Sync has
--                       syncInstances, Manager has CreateNewInstance and RemoveInstance
--   Agent.Upload        UploadServerData of internal/agent/grpc_agent_service.go and
--                       extractServerZip of internal/agent/util.go
--   Master.SyncMappings internal/master/store/sync_mapping.go: the mappings, their targets,
--                       TargetList
--   Agent.DockerProcess internal/agent/process/docker.go and ControlInstance of
--                       instance_manager.go
--   Agent.AutoRestart   internal/agent/auto_restart.go: one instance in one tick of the loop
--   Agent.Dns           internal/agent/dns/server.go: UpdateRecords is `update_records`,
--                       handleQuery is `handle_query`, handleForward is `handle_forward`
--   Agent.FileService   resolveInstancePath of internal/agent/grpc_file_service.go
--   Agent.PushFile      PushFile of internal/agent/grpc_sync_service.go
--
-- Conventions. A string is the list of its bytes. Stateful code takes its state and returns the
-- new one; what the environment answers (the time, the docker command, the database driver, a
-- disk, a drawn token or id) is an argument, so that a theorem holds for every answer; the reads
-- and writes that succeed without one are named at the top of their file. Code outside the
-- repository is a parameter: bcrypt is the record `Bcrypt` with the one law that a hash that was
-- made accepts its password, SHA-256 is a function, and so are the ids of transfers. A handler or
-- a locked section is one step, and steps follow one another; DockerProcess keeps the goroutines
-- that wait for an exit as separate steps. A Go map is a list of entries, and a loop over it
-- follows the list, so that statements about loops are made for every order. Numbers are natural;
-- where the code multiplies a Duration the product wraps at 64 bits (AutoRestart), and
-- strconv.Atoi refuses what does not fit 64 bits; a decimal number is written with 20 digits at
-- most, enough for 64 bits. Loops are structural recursion: the reads of a file are bounded by its
-- length, which is enough as every read takes a byte at least (`concat-reads`).
--
-- Not modelled: generated code (gen), configuration and logging (internal/common), the pages
-- (internal/master/web/render_*.go) and the handlers of files, databases and synchronisation, the
-- WebSocket hub, the WireGuard mesh, metrics, observability, the mc-operator client, the
-- installation of Docker and its commands, the Java process, and the file operations and the git
-- service of an agent.
mod Prelude
pub mod GoText
pub mod GoPath
pub mod Master
pub mod Agent
