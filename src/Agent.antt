-- ===== src/Agent.antt =====
-- The agent, internal/agent.
pub mod DockerProcess
pub mod AutoRestart
pub mod PushFile
pub mod FileService
pub mod Upload
pub mod Containers
pub mod Instances
pub mod Dns
