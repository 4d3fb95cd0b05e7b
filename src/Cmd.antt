-- ===== src/Cmd.antt =====
-- cmd/main.go: the operator's command. It reads its flags, builds the options of the two servers,
-- and registers the parts with a manager that it then starts.
pub mod Flags
pub mod Servers
pub mod Manager
pub mod FlagSet
pub mod Asked
pub mod Secure
pub mod Order
