-- ===== src/Examples.antt =====
-- Examples: the theorems of this library at concrete inputs.
mod Crate
mod Protocol
mod Send
mod Receive
mod Framed
mod Pipeline
mod World
mod Programs
mod Bindings
mod Ends
mod Kernel
mod Servers
mod Clients
