-- ===== src/Policies.antt =====
-- pkg/rke2: the network policies and service accounts that a server sets up in the cluster.
pub mod Client
pub mod Templates
pub mod Network
pub mod ServiceAccounts
