-- ===== src/Tests.antt =====
-- The properties at concrete inputs.
mod World
mod Orders
mod ImagesRuns
mod PodRuns
mod ConfigRuns
mod ExecutorRuns
mod ServerRuns
mod CleanupRuns
mod CommandRuns
mod PolicyRuns
mod RuntimeRuns
mod SandboxRuns
mod StartRuns
mod ChartRuns
mod EtcdRuns
