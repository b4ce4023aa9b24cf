-- ===== src/Staticpod.antt =====
-- pkg/executor/staticpod: the executor that runs the control plane as static pods.
pub mod ApiServer
pub mod Executor
pub mod Components
pub mod Cleanup
pub mod Etcd
pub mod Sandboxes
