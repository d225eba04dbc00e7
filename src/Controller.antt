-- ===== src/Controller.antt =====
-- internal/controller: PipelineRuns as Kueue jobs, the pending status of MultiKueue's PipelineRuns,
-- and the watch of the webhook's ConfigMap.
pub mod Queue
pub mod Job
pub mod Status
pub mod ConfigMap
pub mod Setup
