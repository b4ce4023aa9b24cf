-- ===== src/Commands.antt =====
-- pkg/cli/cmds: how the commands of k3s are wrapped, and the checks before a server starts.
pub mod FlagOptions
pub mod Charts
pub mod CloudProvider
pub mod Profile
