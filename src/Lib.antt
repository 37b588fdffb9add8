-- ===== src/Lib.antt =====
-- A replicated key-value store: Raft nodes that agree on a log of commands over TCP and apply the
-- committed ones to LevelDB. A node answers RequestVote, AppendEntries and InstallSnapshot requests,
-- runs an election thread and a heartbeat thread, and serves client requests; every access to its
-- state is a section under one mutex. This library models the node's own logic, section by section, and
-- the TCP client and server that carry its texts.
--
-- Types      src/common/types.h: commands, log entries, RPC arguments and replies, configurations.
-- Platform   What the sources call and do not implement, as parameters: LevelDB, the clock, the
--            random numbers, and whether the state file can be opened. `DbLaws` and `NeverFails` are
--            the documented behaviour of LevelDB that some theorems suppose.
-- Format     The text of numbers, configurations and entries, as `<<` writes it.
-- Input      What the sources use of `>>`: words, an int with its bounds, a size_t that wraps around a
--            sign, and decodeConfig. A stream that has failed is `none`.
-- Storage    src/persistence/storage.cpp: the text of the state file, and PersistentStorage::save.
--            Storage/Load is PersistentStorage::load, over the lines that std::getline reads.
-- Wire       The build and parse functions of the requests and replies, in src/raftCore/raft_node.cpp.
-- StateMachine
--            src/stateMachine/kv_store.cpp: apply, get, dump, loadFromSnapshot. StateMachine/Effect and
--            StateMachine/Transfer are about single entries and about snapshots.
-- Log        src/raftCore/raft_node.cpp: the vector of entries behind the snapshot point. Log/Contig is
--            about logs without gaps, Log/Merge about the loop over new entries.
-- Node       The fields of class RaftNode (src/raftCore/raft_node.h), log access, persist, the timer and
--            the changes of role. Node/Valid is the invariant of a node,
--            Node/Restart the constructor with loadPersistentState. Node/Member says what a member of the
--            configuration and an up-to-date log are, without the code's loops.
-- Quorum     The majority tests, by voter ids and by matchIndex_, in stable and joint configurations.
-- Apply      applyCommittedLogs, applyConfigEntry, the rebuilding of the peer list, createSnapshot.
--            Apply/Replay and Apply/Effects are about the store and the configuration afterwards.
-- Vote       handleRequestVote, and the sections of startElection and electionLoop.
-- Append     handleAppendEntries. Append/Hazards shows two of its consequences that Raft excludes.
-- Snapshot   handleInstallSnapshot, and the sections of sendSnapshotToPeer.
-- Leader     The sections that append an entry, those of replicateToPeer, and updateCommitIndex.
-- Run        A node over time: the sections of its threads in any order, as a step relation. What is
--            known of the AppendEntries requests is a parameter of `ReachOf`; in `Reach` it is that the
--            entries of those that the node stores run on from the previous index and do not contradict
--            committed ones. Run/Restart constructs a node again over its state file. Run/Bounds is about
--            the vectors of a leader, Run/Removed about a reply of a peer that is removed meanwhile.
-- Read       The sections of linearizableGet, sendReadIndexHeartbeats and waitAppliedTo.
-- Exchange   The operations that send messages between their sections: replicateToPeer, leaderPut,
--            leaderDelete, ensureCurrentTermCommitted; startElection and the rounds of the two threads in
--            Exchange/Elect, linearizableGet in Exchange/Get, addNode and removeNode in Exchange/Change.
--            What the other threads do whenever the mutex is free and what the peers respond are
--            parameters. Exchange/Serve is handleRpcText as a whole.
-- Rpc        handleRpcText: which request a text holds, and what is answered at once. Rpc/Peers is
--            about the requests of other nodes, Rpc/Commands about those of a Clerk.
-- Clerk      src/client/clerk.cpp: the configuration file, the leader hint, and the loops over the
--            servers. The responses of TcpClient::sendMessage are a function of the attempt, the server
--            and the request.
-- Packet     src/rpc/Buffer.h and src/rpc/TcpConnection.cpp: the buffer, packets with a length in front,
--            and the loop of handleRead over what has arrived. Packet/Decode is about what is decoded.
-- Socket     readFd and writeFd of src/rpc/Buffer.h, and writeN, readN and sendMessage of
--            src/rpc/tcp_client.cpp, over a parameter for recv and send. Socket/Streams says what a stream
--            socket does, and what the loops of a buffer do over it; Socket/Client is about sendMessage.
-- Connection src/rpc/TcpConnection.cpp, src/rpc/Channel.h, src/rpc/Channel.cpp, and the calls of epoll_ctl in
--            src/rpc/EventLoop.h. Connection/Life is a connection over time, Connection/Watch what epoll
--            watches for it, Connection/Roundtrip a client and a connection, Connection/Freed an event that
--            destroys its channel.
-- Server     src/rpc/TcpServer.cpp: opening, accepting, and the map of connections. Server/Tended is a server
--            over time.
-- Start      src/node_main.cpp up to the start of the threads. Its loadClusterConfig is that of the Clerk.
--            Start/Find says what its loops look for.
-- Common     Tests on numbers, lists and texts. Tests: runs at concrete states.
--
-- Functions keep the source's names in snake case: handleAppendEntries is `handle_append_entries`,
-- lastIncludedIndex_ is the field `last_included_index`. A handler is a function from the arguments
-- and the state to the new state and the reply. A call that releases the mutex while it waits for the
-- network is split at those places, and what happens in between is an arbitrary sequence of steps: in
-- Run the sections stand in any order, in Exchange an operation runs its own among those of others.
--
-- Choices. An int that the code keeps at 0 or above is a natural number without a bound, and an int
-- that may be -1 is an Option; the overflow of an int is not modelled. Text is a list of character
-- codes. Where the source would leave the bounds of a vector the model says so: `fault` in Leader,
-- `none` in Snapshot. The loop of applyCommittedLogs runs on fuel, the difference of commitIndex_ and
-- lastApplied_, as every round but the last raises lastApplied_; the loop of handleRead runs on the
-- number of bytes in the buffer, as every round but the last consumes some. The loop of waitAppliedTo
-- runs over the list of the states that its rounds find. The clock, the random numbers and the attempts
-- to open the state file are numbered streams. Messages on the standard output are left out.
--
-- A number below 0 in a text, where the code keeps numbers at 0 or above, and a node that was read in
-- part, have no place in the types: a parse function then has the outcome `outside`, handleRpcText the
-- answer `not_held`, an operation of Exchange the end `faulted`, and the constructor and the Clerk the
-- result `none`. The loop of Clerk runs once for each server, and the loop of `load` once for each line.
--
-- The loop over the peers in Exchange reads their number in each round, as the source does, so it runs on
-- fuel; more fuel than there are ever peers is enough. waitConfigState runs at most 150 rounds.
--
-- A stream socket has three histories, which only the theorems speak of: the bytes that recv has returned,
-- those that are still to come, and those that send has taken. The loop of readFd runs on fuel, as a peer
-- may send for ever; more than the number of the bytes that are coming is enough. The loops that send, and
-- that of readN, run on the number of bytes, as every round but the last moves some. `dangling` is an
-- event that reads a channel behind its destruction.
--
-- Not modelled: start and stop of a node, which run and join threads, and the call of stop in removeNode;
-- replicateLogEntry, which nothing calls; the loop of EventLoop over epoll_wait, whose events stand in any
-- order; the commands on the standard input of src/node_main.cpp, which print, and the interactive
-- src/client_main.cpp; and several nodes at once.
pub mod Common
pub mod Types
pub mod Platform
pub mod Format
pub mod Storage
pub mod StateMachine
pub mod Input
pub mod Wire
pub mod Exchange
pub mod Rpc
pub mod Clerk
pub mod Log
pub mod Node
pub mod Quorum
pub mod Apply
pub mod Vote
pub mod Append
pub mod Snapshot
pub mod Leader
pub mod Run
pub mod Read
pub mod Packet
pub mod Socket
pub mod Connection
pub mod Server
pub mod Start
pub mod Tests
