-- ===== src/Lib.antt =====
-- Raft in C++: a model of the server and of the parts that it stands on, with the theorems that
-- make them correct.
--
-- The program is one process of a Raft cluster. RaftServer.cpp is the protocol, driven by the event
-- loop of boost::asio: messages, timers, and results that the state machine's threads post back. It
-- keeps its log in an `Entries` (entry/entry.cpp), which writes a data file (entry/data.cpp) and an
-- offset file, and hands committed entries to a `StateMachineControler`
-- (state_machine/StateMachineControler.cpp), which queues them on thread pools
-- (state_machine/ThreadPool.h), whose workers run the state machine
-- (state_machine/EasyStateMachine.cpp). rpc/ carries the messages between the processes.
--
--   Wire             rpc.proto, state_machine/easy_state_machine.proto, rpc/rpc_type.h
--   Entry            entry/entry.h and entry.cpp; Entry.File is entry/data.h and data.cpp
--   StateMachine     state_machine/ThreadPool.h, StateMachineControler.h and .cpp, EasyStateMachine.cpp
--   Server           RaftServer.h and RaftServer.cpp, and the random delays of util.cpp
--     State            the fields, the outside world
--     Transitions      cancel_all_timers, update_term, trans2F, trans2P, trans2C, AE, RV
--     Commit           the commit index of a primary and of a follower
--     Handlers, Votes  react2ae, react2rv, react2resp_ae, react2resp_rv and the clients' calls
--     Config           load_config_from_file
--     Events           the constructor, run, reactToIncomingMsg, the timers' handlers, the loop
--   Util             the texts of util.cpp
--   Rpc              the frames of rpc/rpc.cpp and rpc/connection.cpp; Rpc.Texts is rpc/rpc_to_string.cpp
--   Network          the connections of rpc/rpc.cpp and rpc/connection.cpp
--   Client           client/client.cpp; Client.Console is what it reads, and client/main.cpp
--   Startup          main.cpp, consts.h, and the opening of the files in entry/entry.cpp and
--                    entry/data.cpp, over a file system
--   Cluster          two servers of RaftServer.cpp, one primary during its reign, and the calls between
--                    them, which are lost, repeated and delivered in any order
--
-- How the code is read. A method takes the state and returns the new one, or the fault in which the
-- process ends: a `throw_line`, which nothing below `main` catches, or undefined behaviour, such as
-- an index outside a vector or a null timer. `int` is an integer without bounds, since its overflow
-- is undefined; `unsigned int` wraps at 2 ^ 32, as the offsets do. `std::map` is an association
-- list, which grows where `map[key]` reads a key that is not there. Texts are lists of bytes.
--
-- What is not in the repository is a parameter. `Wire.Codecs` is protobuf's generated code and
-- boost::archive; where a theorem needs that parsing undoes serialising, it says `IsLossless`. Of
-- protobuf this is documented for numbers and for texts in UTF-8; `rpc_Entry.msg` is a proto3 `string`
-- into which the program puts the bytes of an `apply_call`, and where these are not UTF-8 such a
-- theorem says nothing.
-- `Server.State.Env` holds the answers of boost's timers and of `rand()`, which may depend on all
-- the calls that the server has made, and whether `make_rpc_call` throws. The calls themselves,
-- messages included, are recorded in the order in which they are made; a theorem about what a server
-- sends is about that record. `Network` has what the calls do, over boost's `address::from_string`,
-- which throws for an ip such as localhost.
--
-- Four loops are not walks of a list. `while (applied_index_ < commit_index_)` takes as fuel the
-- difference of the two, and every round raises `applied_index_` by one. The digits of a number take
-- the number as fuel, and every round divides it by ten. The frames of a stream take any fuel that is
-- not below their number. The lines of the configuration file take any fuel that is not below the
-- number of its bytes, since every round but the last takes a byte or more.
--
-- The client's loop never ends: its theorems are about any number of its first rounds. What it reads
-- from the console follows the standard's extraction from a stream, `eofbit` and `failbit` included.
--
-- Not modelled: what is logged beside the messages, the handlers of signals, and errors of the disk
-- once the files are open. A stream is read as if each read ended before the next begins, though
-- `read_body` starts both, which boost leaves undefined. `Network` has the events of the sockets as a
-- list; whether a read is under way on a connection is no part of it. A write takes its message whole
-- and in order, though `deliver` gives boost the buffer of a string that its caller destroys, and
-- may begin a write before the last has ended. The exception of `make_rpc_call` is modelled for the
-- calls of `AE` and `RV`, not for the answers, which go back to the address that a message names, nor
-- for those of a client. That the port is free for the acceptor is taken for granted. Two accesses to
-- the map of the state machine that overlap are undefined behaviour, as the standard has it for
-- `operator[]` of a `std::map`.
pub mod Prelude
pub mod Wire
pub mod Entry
pub mod StateMachine
pub mod Server
pub mod Util
pub mod Rpc
pub mod Network
pub mod Cluster
pub mod Client
pub mod Startup
mod Examples
