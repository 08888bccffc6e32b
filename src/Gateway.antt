-- ===== src/Gateway.antt =====
-- dumbarp-gateway/src: the gateway, which routes the answers of the daemons' addresses.
pub mod Config
pub mod Fetched
pub mod Pass
pub mod Serve
mod Test
