-- ===== src/Lib.antt =====
-- A model of zeronsd, a DNS server for ZeroTier networks (the Rust crate in src/), and its properties.
--
-- The server answers for one forward zone and for a reverse zone of each network of addresses. Both
-- hold records that come from two places: the members of the network, which ZeroTier Central lists,
-- and a hosts file. A loop (`find_members`) refreshes them: it parses the hosts file and inserts its
-- names (`configure_hosts`), then enters the members and removes what was not written
-- (`configure_members`).
--
-- Which file models which part:
--   Refresh         `ZTAuthority` and `find_members` of src/authority.rs; Refresh/Configure has
--                   `configure_members`. `Refresh C` stands for the local variables and the zones.
--                   Refresh/HostAnswers and HostRound have what a refresh does to the names of the
--                   hosts file, Refresh/Forward, Result and Answers what it does to the forward
--                   zone, Refresh/Owners, Exact and Stays which addresses names get and keep,
--                   Refresh/Reverse what it does to a reverse zone, Refresh/Tracks,
--                   Total and Health when `configure_members` succeeds and the loop goes on, and
--                   Refresh/Zones, Apex and Moments what all rounds keep for all zones.
--   Authority       `RecordAuthority` of src/authority.rs: `match_or_insert`, `prune_hosts`,
--                   `prune_records`, `configure_ptr`. A zone is the list of its keys and sets.
--                   Authority/WellFormed has the invariant of a zone, Authority/History what a
--                   query can see of a zone: the zones between the locked writes.
--   Members         `ZTRecord` of src/authority.rs, `insert_member` and `insert_member_ptr`.
--   Hosts           src/hosts.rs: `parse_hosts`.
--   Hostname        src/traits.rs: `to_hostname`, `to_fqdn`, `to_wildcard`, `to_ptr_soa_name`.
--   Addresses       src/addresses.rs: RFC 4193 and 6PLANE addresses.
--   Utils           src/utils.rs: settings and member names.
--   Launch          `Launcher::start` of src/init.rs up to the listeners, and what it calls in
--                   src/utils.rs; Authority/Fresh has the construction of a zone, Launch/NewZone and
--                   Launch/FirstZones what the zones hold at the start and from then on, and
--                   Launch/Updates what is sent to Central.
--   Server          `init_catalog` of src/authority.rs and `Server::listen` of src/server.rs;
--                   Server/Start has the rest of `Launcher::start`: certificates and tasks.
--   CommandLine     `init` of src/cli.rs and the commands.
--   Logger          `init_logger` of src/utils.rs.
--   Settings        `Launcher` and `ConfigFormat` of src/init.rs, `StartArgs` of src/cli.rs.
--   Supervise       src/supervise.rs: `validate`, `install_supervisor`, `uninstall_supervisor`.
--   Log             src/log.rs.
--   Central, Net,   the data: what the program reads of Central's answers, addresses of
--   Dns             `std::net`, and record types and data of trust-dns.
--   Crates          the third-party operations, a parameter `C` of all the rest. Crates/Laws,
--                   Hostname/Runs, Hostname/Domains, Server/Catalog and Server/Listen state
--                   their documented behaviour, which the theorems assume where they say so;
--                   Tests/Toy and Tests/Servers have instances with proofs of all of it.
--   Words           shifts and casts of `u16` and `u64`, with their wrap-around.
--   Base            tests, lists, maps, fallible results, and methods over shared state.
--   Tests           the theorems at concrete inputs.
-- The modules below a component have its proofs, named for what they are about.
--
-- A result is `ok`, `err` (an error that is returned) or `panic` (an `unwrap` or `expect` that
-- fails). An async method over shared state gives the state back beside every result, since what was
-- written before an error stays written. All loops run over lists, so there is no fuel; the endless
-- loop of `find_members` is one over the list of the rounds that it has made. Machine words keep
-- their wrap-around; a prefix or a serial number is a natural number.
--
-- A `HashMap` and a `BTreeMap` are a list of entries, in the order of iteration. A zone behind an
-- `Arc` is a value that each operation returns: one task writes, so writes are not interleaved with
-- others, only with queries, and these see the zones between the locked writes (`History` of
-- Authority/History: an upsert, the removal of a PTR set, `prune_hosts`, `prune_records`). Names
-- are taken up to `==`, which disregards case. Log messages are left out.
--
-- Files, the operating system, Central, the local service, sockets and certificates are parameters
-- (`System`, `World`, `Servers`, `Process`). What is spawned is the list of the tasks: `start` does
-- not wait for them, and neither does the model.
--
-- Not modelled: the parser of the command line, which clap derives (src/cli.rs); the clients of
-- zerotier-api/, which the build generates; the methods of `AuthorityObject` in src/authority.rs that
-- hand their arguments to trust-dns (`update`, `lookup`, `search`, `get_nsec_records`); the messages
-- that `install_supervisor` and `uninstall_supervisor` print.
pub mod Base
pub mod Net
pub mod Dns
pub mod Words
pub mod Crates
pub mod Central
pub mod Addresses
pub mod Hostname
pub mod Hosts
pub mod Utils
pub mod Log
pub mod Settings
pub mod Logger
pub mod Server
pub mod CommandLine
pub mod Supervise
pub mod Launch
pub mod Members
pub mod Refresh
pub mod Authority
mod Tests
