-- ===== src/Lib.antt =====
-- config_monitor gives a program one interface to configuration that is kept in ZooKeeper or in
-- local files: create, delete, read and set paths, and be told when they change.
--
-- The parts, and the files that model them:
-- Base: what the others share. Truth values and tests on the native numbers, lists, bytes as
--   `Text`, `std::unordered_map` as the association list `Dict`, exceptions as `Outcome`.
-- Zk: src/cppzk/cppzk.hpp and src/cppzk/cppzk_redeclare.h, the wrapper `zk::cppzk` of the
--   ZooKeeper C client.
--   Zk/Types: the enumerations, `make_ec` and the predicates.
--   Zk/SplitPath: `split_path` and the template `split_path<PathDepth>`.
--   Zk/Client: the calls of the C client on a server of unknown state, as the record `Zoo`, with
--   what zookeeper.h says of them.
--   Zk/Create: `create_path` and `async_create_path`; the request in flight is `Pending`.
--   Zk/Delete: `get_sub_path`, `recursive_get_sub_path`, `delete_path` and `async_delete_path`.
--   Zk/Value: `get_path_value`, with the state of the server at each of its two reads. Zk/Setter:
--   `set_path_value` and `async_set_path_value`.
--   Zk/Unwatch: `remove_watches` and `async_remove_watches`, as the calls that they make.
--   Zk/Unwatch/Requests: the chain of requests, which the client may refuse.
--   Zk/Session: `initialize`, `connect_server` with its watcher, and a round of the thread of
--   `detect_expired_session`. The C client's calls are the record `Connector`; what it does while
--   the code waits or sleeps is a list of happenings for each poll.
--   Zk/Watch: `async_get_path_value`, `watch_path_event` and `async_get_sub_path`, with `releaser_`
--   and the data that is freed by hand as one heap of addresses. Zk/Watch/World: what the C client
--   may do with them, as steps.
--   Zk/Ensemble: one server of nodes and values under all the synchronous calls, on which paths
--   are made, read and deleted.
-- File: src/local_file/local_file.hpp and src/local_file/local_file_declare.hpp, `loc::loc_file`.
--   File/Types: the enumerations and predicates. File/Disk: the file access, on a disk of unknown
--   state. File/State: the six maps and the queue. File/Request: the operations, which queue tasks.
--   File/Task: the tasks. File/Poll: the three handlers. File/Worker: a round of the thread.
--   File/Worker/Runs: operations, rounds and changes of the disk in any order, as steps.
--   File/Worker/Idle: rounds with no tasks, and one path's watches on their own.
--   File/Pairing: the invariant that each watched path has a callback.
-- Monitor: src/config_monitor.hpp, the callbacks of `watch_path` and `watch_sub_path` over
--   `zk::cppzk`, and the records of watches. Monitor/Expiry: the callback that `init` sets for a
--   lost session. Monitor/Facade: the operations that pass their arguments on and wrap the user's
--   callback. Monitor/Follows: the handlers and the callbacks of a watched path in step with a
--   node that comes, changes and goes. Monitor/Listings: the same for the children of a watched
--   prefix. Monitor/Child: the same for one of them.
-- Example: unit_test/main.cpp, a program that keeps rules and assets in step with ZooKeeper; the
--   JSON library is the record `Json`. Example/Loading: what it reads when it starts.
--   Example/Updates: its callbacks.
-- CppzkTest: unit_test/cppzk_ut.cpp, its tests of creation, writing and reading, and of the
--   deletion of a missing path, as runs over a server. A promise that a callback sets is the list
--   of the callback's calls. CppzkTest/Deletion: those of the deletion of a tree.
--   CppzkTest/Watching: those of `watch_path`; a sleep is the time for all to arrive.
--
-- How they interact: Monitor sends the requests of Zk/Watch and lives in the callbacks that Zk/Watch
-- calls. The thread of File runs what the operations queue. A user's callback is known by a number
-- or by an unknown type, and calling it is an output.
--
-- Fuel: the loop of `split_path` has one more than the length of the path, and every round cuts the
-- path. `drive` has one request for each slash, as `split_path` lists one path for each. A walk over
-- a tree has one unit for each level, as each call descends one; without fuel the walk gives `none`.
-- The wait of `connect_server` has one entry of happenings for each poll, and gives `none` where the
-- entries end first. `decimal` has more fuel than the number has digits. A loop over a list is structural.
--
-- Numbers: `int64_t ttl` and `int` lengths, where -1 counts, are a type of integers; all others are
-- natural. Lengths are below the limits of `int`, since no wrap-around is written in the source.
--
-- Not modelled: the C client, the file system and the JSON library, which are parameters; logging
-- and `get_client_ip`, which are calls of the C client; the destructors and the join of the threads;
-- `main` of unit_test/main.cpp, an endless loop; in unit_test/cppzk_ut.cpp the tests of sub-paths,
-- which count on an order of the listing that zookeeper.h does not give, those of removed watches,
-- and the set-up; unit_test/local_file_ut.cpp, which is commented out.
-- Locks: what is done under one is one step. The `Tests` modules run the theorems on small servers
-- and disks.
pub mod Base
pub mod Zk
pub mod File
pub mod Monitor
pub mod Example
pub mod CppzkTest
