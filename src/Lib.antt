-- ===== src/Lib.antt =====
-- A verification of common-lib-go, the Go library shared by the VPN House services.
--
-- The library is a set of packages that mostly stand alone. The development models these:
--
-- - Xnet: xnet/ip.go. `Ip` and `IpNet` are the byte slices of `net.IP` and `net.IPNet`, and the
--   functions have the names of the source in snake case. An index out of range is `none`.
-- - Ippool: ippool/poolv4.go and ippool/internal.go, over Xnet. `Pool` is `IPv4pool`; each exported
--   method is one function, since the mutex makes it one step. The random number of `Alloc` is an
--   argument. The search loop runs on fuel, two more than the addresses of the pool, and is proved
--   never to run out of it. `register` is `Set`; `fatal` is the end of the process.
-- - Keycounter: keycounter/keycounter.go. `dec_key` is `Dec`.
-- - Protect: protect/counter.go. The wrapped protector is an argument, a `Protector` over a state of
--   its own; Protect/Interface says what a protector is relied on to do.
-- - Xttlmap: xttlmap/ttlmap.go. The nodes stand on an explicit heap, with their `prev` and `next`
--   pointers; `set_key` is `Set`, `delete_key` is `Delete`. `Get` has two functions, `get_node` for
--   the part under the read lock and `get_finish` for the part under the lock, and `get` when nothing
--   comes between. The loops of `Set` and `Resize` run on fuel, more than the number of values.
--   Xttlmap/Recent is the abstract view: the values in the order of their last use.
-- - Connmgr: connmgr/connmgr.go and connmgr/id.go. `Instance` and `IdType` are the types of the
--   source; the loop of `Register` runs on fuel, and needs as many rounds as there are ids.
-- - Xlimits: xlimits/blocker.go. A semaphore is a pointer, and whether its `Acquire` fails is an
--   argument; `take_consumer` is `take`.
-- - Xcache: xcache/cache.go. `Bucket` has the chunks, the map from hashes to places, and the place and
--   the generation of the next pair; `get_locked`, `set_locked` and `clean_locked` are its locked
--   methods, and Xcache/Methods has the others. Memory is a function from places to bytes, and what a
--   new chunk holds is an argument. Xcache/Cache has the 512 buckets; `set_key`, `delete_key`,
--   `update_key` and `get_set_key` are `Set`, `Del`, `Update` and `GetSet`. A `Get` without a copy
--   has no function of its own.
-- - Xstats: xstats/utils.go and xstats/service.go, over Xcache. `set_rx` and `set_tx` are `Rx` and
--   `Tx`; `report_mutator` is the function that `ReportStats` gives to `Update`, and `tick` is one
--   round of `run`. A byte string that is too short is `none` where the source panics.
-- - Xdns: xdns/client. `CachedResolver` keeps its answers in a map of Xttlmap, and its fuel is that
--   of this map; Xdns/LastActive and Xdns/Direct are lastactive.go and direct.go. What a nested
--   resolver or a server answers is an argument. `read_message` is the part of `once` after the
--   exchange; `lookup_active` is `Lookup` of the last-active resolver.
-- - Control: control/service.go. `shutdown_services` is `Shutdown` and `stop` that of a service; names
--   and services are numbers.
-- - Entitlements: entitlements/entity.go. The names are numbers, and `set_shape_upstream_limit` and
--   `shape_upstream_limit` are `SetShapeUpstream` and `ShapeUpstream`. A setter is `none` where the
--   source panics, on a nil map. The calls of encoding/json and encoding/base64 are the fields of
--   `Library`; `DecodesAsAny` of Entitlements/Json is what is relied on of them.
--
-- A Go map is an association list in which no key stands twice (Prelude/Map). A `uint32` is a native
-- number below 2 ^ 32, with the wrap-around written out.
--
-- Not modelled: logging, metrics, sockets, DNS and HTTP transports, cryptography and
-- configuration by the kernel's netfilter and traffic control, which are calls of other libraries.
mod Prelude
pub mod Xnet
pub mod Ippool
pub mod Keycounter
pub mod Protect
pub mod Xttlmap
pub mod Connmgr
pub mod Xlimits
pub mod Xcache
pub mod Xstats
pub mod Xdns
pub mod Control
pub mod Entitlements
