-- ===== src/Podtemplate.antt =====
-- pkg/podtemplate: the configuration of the static pods from the command line, and the pods.
pub mod Component
pub mod Assignment
pub mod Resources
pub mod Probes
pub mod Spec
pub mod Files
pub mod Volumes
pub mod ProbeAction
pub mod Pod
pub mod NewConfig
