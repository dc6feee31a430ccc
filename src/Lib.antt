-- ===== src/Lib.antt =====
-- VoyaVPN: a desktop client that runs a tunnel core (sing-box), in Rust. This library models the
-- program's own logic in the crates below crates/.
--
-- Base holds what the modules share: Boolean tests, lists measured by native numbers, signed
-- numbers, loops that may run out of fuel, and texts as lists of code points with the methods of `str`
-- that the program calls.
--
-- Udp models crates/voya-udptest/src/lib.rs, the UDP probe through a SOCKS5 proxy. Udp.Kind has the
-- kinds of probes and their packets, Udp.Verify the checks of the answers, Udp.Target the setting
-- `kind:host:port`, Udp.Address the SOCKS5 packets, Udp.Stream the addresses on the control
-- connection, Udp.Service the channel (`Socks5UdpChannel`) and `send_via_socks5`. An index or a range
-- out of bounds is the result `panic` of Udp.Outcome. What sockets and clocks do is the argument
-- `Network`; how the standard library reads and prints IP addresses and repairs UTF-8 is the argument
-- `NetText`. Times are nanoseconds. Udp.Ensures is the postcondition that rules a panic out.
--
-- Platform models parts of crates/voya-platform/src: Platform.Tun the choice of the tunnel's backend
-- and `tun_preflight` (tun.rs), Platform.Process the data of a launch and `split_command_line`
-- (process.rs), Platform.Elevation the launcher for elevated processes, the names a kill accepts and
-- `quote_shell_arg` (elevation.rs, privilege.rs). The UTF-8 conversion of a path's file name always
-- succeeds here, since a path is a text. `show_number` runs on fuel of one more than the number, which
-- has no more digits than that.
--
-- Supervisor models the actor that runs the core, crates/voya-app/src/supervisor.rs and
-- supervisor/actor.rs. Supervisor.State has the requests, the snapshots and `RunningCore`;
-- Supervisor.Monad the computations of the actor, which keep what was done before a failure. The
-- platform is the argument `SupervisorDeps`: each answer is a function of the log of all actions so
-- far, so that it may change at any time. Supervisor.Stop, Supervisor.Start and Supervisor.Actor have
-- the methods of `SupervisorActor`, one function for each, with helpers for their branches. The channel
-- of commands is a sequence of `handle` steps (Supervisor.Actor.Reachable); the watcher of a native
-- tunnel is one action, and its message a command like another. Supervisor.Forms says what the actor
-- may track.
--
-- Entities has the profiles of crates/voya-core/src/entities.rs with their protocols, transports and
-- TLS settings, and Entities.Routing what contexts read of rules, subscriptions and settings.
--
-- Context models what the configuration of a core is generated from, crates/voya-core/src/context.rs
-- with context/validation.rs and context/node_registration.rs. Context.Validation has `validate_node`,
-- Context.Domains the protected domains, Context.Register the context and the registration of a server,
-- Context.Traverse `traverse_group_node` and `register_node`, and Context.Build the methods of the
-- builder. The environment is the snapshot of crates/voya-app/src/coregen.rs (Context.Env). Maps and
-- sets of ids are lists; messages are data that say the same as the texts. IP addresses, JSON and
-- regular expressions are the argument Library. The traversal runs on fuel of one more than the
-- profiles of the snapshot: the groups that it is in are the first one and different ones of them.
--
-- Groups models the validation of policy groups and proxy chains, crates/voya-core/src/groups.rs.
-- Groups.Profile has the map of profiles, an association list in
-- the order of its keys for the `BTreeMap`; Groups.Children `effective_child_ids`; Groups.Cycle
-- `detect_cycle`; Groups.Validate `validate_group_profile` and the lists of ids. Messages are data that
-- say the same as the texts. `Regex::new` and `is_match` are an argument. `detect_cycle` runs on fuel
-- of one more than the number of profiles: nested calls are for different profiles.
--
-- Routing models the manager of routings, crates/voya-app/src/routing/manager.rs, on the table of
-- crates/voya-db/src/repos/routing.rs (Routing.Table). Routing.Rules has the operations on rules,
-- Routing.Active those on routings and the active one, each a function of the state that gives an
-- Outcome; a failure changes nothing, since the commands write last. `Vec::remove` and `Vec::insert` out
-- of range are the outcome `panic`.
--
-- Singbox models the outbounds of crates/voya-core/src/singbox/outbounds.rs and support.rs: an outbound
-- is the profile it is for, with its tag and its detour (Singbox.Server), and groups and chains are
-- built recursively from the map of a context (Singbox.Groups). The recursion runs on fuel; that there
-- is enough for every context that is built follows from the soundness of its map. Singbox.Dns reads the
-- addresses of DNS servers, and Singbox.Dns.Hosts hosts files (singbox/dns/address.rs); what
-- `url::Url` says of an address is an argument.
--
-- Statistics models the table of traffic, crates/voya-db/src/repos/server_stat.rs, in
-- Statistics.ServerStat, with the arithmetic of 64-bit integers in Statistics.Integer, and the waiting time of
-- crates/voya-app/src/statistics.rs in Statistics.Reconnect. The statements of SQL are functions on a
-- list of rows, which find a row by its primary key; `delete_orphans` is given the ids of the profiles.
--
-- Not modelled: the operating system's processes and services behind these interfaces, the other
-- tables of crates/voya-db, the HTTP clients of crates/voya-net, the other parts of the JSON that
-- crates/voya-core/src/singbox writes for the core, and the desktop application in apps/desktop, which calls these parts.
pub mod Base
pub mod Context
pub mod Entities
pub mod Groups
pub mod Platform
pub mod Routing
pub mod Singbox
pub mod Statistics
pub mod Supervisor
pub mod Udp
