-- ===== src/Router.antt =====
-- dumbarp-routerd/src and dumbarp-routerd-ebpf/src/main.rs: the router, which marks what comes in
-- with a tag and keeps the rules that send the answers back.
pub mod Config
pub mod Ids
pub mod Specs
pub mod Datapath
pub mod Steer
pub mod Pass
mod Simulator
mod Test
