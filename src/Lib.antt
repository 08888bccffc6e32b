-- ===== src/Lib.antt =====
-- dumbarp answers ARP requests for leased addresses and marks the traffic to them, so that every
-- router of an internal network can send the answers back over the interface they belong to. The
-- parts, and the files that model them:
--
-- Common: Boolean tests, lists and association lists (for the hash maps of the source), bits.
--
-- Wire: dumbarp-common/src/lib.rs, which the programs in the kernel share: the keys of their maps,
-- `tos_with_dscp` and `csum_replace2`. `full_checksum` is the reference of the tests in that file.
--
-- Ebpf: dumbarp-ebpf/src/main.rs. Ebpf.Xdp has the XDP program (`dumbarp`, which is `dumbarp_xdp`
-- here, `try_arp`, `try_stamp`): it answers ARP requests and stamps the DSCP of inbound traffic with
-- the id of the interface, keeping the old one under the key of the answers. Ebpf.Tc has the egress
-- classifier (`try_terminate`), which puts the old DSCP back on the answers. A packet is its length
-- and its bytes, a read outside the bounds fails as in `ptr_at`. The maps are functions; the map
-- with eviction, the socket buffer helpers and the constants of the crate network-types are
-- parameters, with what the code relies on as fields.
--
-- Text: what the programs use of Rust's text functions, with a text as a list of code points. Text.Addr
-- has the reading and writing of an `Ipv4Addr`, Text.Mac `parse_mac` of dumbarp/src/lib.rs.
--
-- Engine: dumbarp/src/lib.rs, which attaches the programs of Ebpf to interfaces and fills their
-- maps. Engine.Calls has sequences of calls as a relation. `Host` has the maps and the links of the
-- kernel, and the record `Aya` says what the crate aya and the files under /sys answer. The programs
-- and maps of the loaded object are taken to be found.
--
-- Daemon: dumbarp-daemon/src. The checks of config.rs, and in Daemon.Dhcp the tasks of
-- `run_dhcp_for_iface`, one for each element of the list of interfaces, as a step relation: what a
-- task does under the lock of the engine is one step, what it does under the lock of the leases is
-- another, and steps of different tasks interleave. Daemon.Answering puts them together with
-- Engine's calls. Daemon.Serve has the leases and routes that the daemon tells of, and a pass of
-- refresh.rs.
--
-- Probe: dumbarp-daemon/src/neigh.rs. The frames of the probe, the waiting for a reply and the three
-- attempts. What arrives is a list, and a probe whose list has run out is still waiting. What the
-- system calls of an attempt answer is the record `Attempt`.
--
-- Http: the token check of dumbarp-daemon/src/http.rs and dumbarp-gateway/src/http.rs.
--
-- Routing: dumbarp-routing/src/lib.rs. `reconcile` brings the policy rules and routes that the kernel
-- has to those of a list of specs, one table for each source address. The netlink socket is the
-- record `Netlink`, whose state is the kernel's; the records `Kernel`, `Reliable` and `Honest` say how
-- requests change what is listed, where all succeed and where any may fail. Routing.Simulator is a kernel in memory that has these laws. Hash maps are
-- visited in an order that is a parameter.
--
-- Api: dumbarp-api/src. Api.Cache is cache.rs: `apply_round` takes the results of a round of fetches
-- and the instant, in nanoseconds, and gives the statistics, the view and the new cache. What a fetch
-- gave is an input, `none` for an error. Api.Responses is lib.rs: the responses and their parsing.
--
-- Router: dumbarp-routerd/src and dumbarp-routerd-ebpf/src/main.rs. Router.Config has the checks of
-- config.rs, Router.Ids `resolve_ids` of reconcile.rs, Router.Specs the specs that a pass asks for,
-- Router.Datapath the map of ids that datapath.rs keeps in the kernel, Router.Steer the classifier that
-- reads that map, and Router.Pass the passes that put these together with Routing. Warnings and
-- what only they use are left out, and the loops of timers are not modelled: each pass is a function
-- from the state and the inputs to the state.
--
-- Gateway: dumbarp-gateway/src, the checks of config.rs, the pass of reconcile.rs and what the gateway
-- serves (`daemons_handler` of http.rs).
--
-- K8s: dumbarp-k8s/src, the checks of config.rs and the pass of reconcile.rs. The crates kube and chrono
-- are the records `Kube` and `Chrono`, and the record `Cluster` says how requests change which pools
-- there are.
--
-- Dhclient: dhcp-lease-read/src, the parser of lease files and the choice of a lease. The crates nom and
-- chrono are the records `Nom` and `Chrono`, with their documented behaviour as fields.
--
-- Not modelled: the programs' starts, build scripts, HTTP clients, routers and timers, which are wiring
-- over libraries; the reading of JSON and TOML, which serde does; and the DHCP client of mozim, whose
-- events are inputs.
--
-- Every loop is a structural recursion over a list of the source or over the attempts that are left, so
-- there is no fuel; the repetition of nom's `many0` is a parameter.
pub mod Common
pub mod Wire
pub mod Ebpf
pub mod Text
pub mod Engine
pub mod Daemon
pub mod Probe
pub mod Routing
pub mod Api
pub mod Router
pub mod Gateway
pub mod Http
pub mod K8s
pub mod Dhclient
