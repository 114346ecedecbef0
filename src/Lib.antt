-- ===== src/Lib.antt =====
-- edgesim-p2p simulates a network of edge sensors: coordinators agree on readings with Raft, peers find
-- each other with a Kademlia table, and readings spread by gossip.
--
-- The parts, their files and what they model:
--
-- Base: shared helpers. Tests are the Boolean tests on numbers and the conditional, Lists has slices,
-- Int the signed numbers of the code, Keys an interface for keys that are compared with ==, Maps the Go
-- maps as association lists, Bytes the exclusive or of bytes.
--
-- Raft: package raft (pkg/raft). Types and Node are its types.go and the Node of node.go with NewNode,
-- quorum, the timer and collectCommittedLocked; Accessors are its methods that only read; Log has the functions on the log; Handlers has
-- HandleRequestVote and HandleAppendEntries; Election has startElection and sendHeartbeats; Proposal
-- has Propose; Transport is transport.go. Code that waits for answers is cut at its waits: start_election and propose end where
-- the first answer is awaited, receive_vote and receive_ack handle one answer. Each part between two
-- waits is one step, run under the node's mutex; Events puts the steps together in any order, the
-- other goroutines running between them. The remaining modules hold the proofs: Votes (with Terms,
-- Grants) the vote of a term, Replication and Matching the log, Commit and Applied what is applied,
-- Majority elections and quorums, Heartbeats the answers to AppendEntries, Startup the configuration.
-- Cluster puts several nodes together: each runs the loop of Run, with its election in it, and messages
-- are answered late, in any order, or never; Count, Moves, Turns, Invariant, Polls, Steps and Safety are its proofs.
--
-- Dht: package dht (pkg/dht). Ids is dht.go with the metric of routing.go, Hex its hexadecimal form with HexTrip its proof, Bucket is bucket.go, Routing
-- is routing.go, Lookup is lookup.go, Store is store.go and key.go; Sort stands for sort.Slice.
-- Recency and Buckets prove what a bucket does, Tables and Placing what a table does, Metric and
-- Ranges the distance, Sorted the closest peers, Search and ValueSearch the iterative searches (with Cuts the lists
-- that are cut, Rounds their rounds, Queries and Asks the calls of a round), Values
-- the stored values; Nearest and Reaching that a search ends with the nearest peer, and a value is found there; Whole and
-- WholeSearch are about nodes that all know each other, Filling and Filled about a table with room.
--
-- Wire: what goes over connections. Frame is readFrame and writeFrame of cmd/node/message.go, which
-- cmd/coordinator/message.go repeats, RoundTrip and Streams its proofs; Text is the rest of message.go, on texts as
-- sequences of code points, with the functions of package strings that it calls; Joins and Trims prove
-- what becomes of texts that are joined.
--
-- Sensor: package sensor (pkg/sensor). Floats is the interface that stands for float64 and package math,
-- Reading is sensor.go, Region is geo.go and aggregate.go, Averages the proofs.
--
-- Coordinator: cmd/coordinator. Store is readingStore of main.go, Commands is raft_integration.go, Rpc is
-- raft_rpc.go, Tcp is raft_transport.go, Gossip is handleGossipConn, Query the handler for a region, Env
-- the configuration, Metrics metrics.go. Targets and Latest prove what the store holds and reports, TcpCalls, TcpVotes and
-- TcpAppends what the calls between coordinators do, Forwarding and Peers what is forwarded and to whom.
--
-- Node: the sensor node (cmd/node). State is state.go, Gossip the delivery and the choice of targets
-- of gossip.go, Broadcast the rest of it with sensor_state.go, Server is server.go, Bootstrap is
-- bootstrap.go, Config is config.go, Program is main.go with metrics.go. Seen, Delivery and Echoes prove that a message is handled once, PeerLists
-- that the list of peers arrives.
--
-- Gossip: package gossip (pkg/gossip). Simulator is gossip.go, Growth its bound.
--
-- Dhtsim: cmd/dhtsim, where nodes of the table in one process are each other's remote peers. Network is
-- the network and the calls on it, Program the rest of main.go with api.go; Holding, Published, Complete,
-- Everywhere and Verified prove that what is published is found, Introduced and Built that the network
-- is complete, Main how the whole run ends, Deadline how the gossip ends.
--
-- How code and model correspond. A method on a pointer takes the record last and returns it changed.
-- A panic is none where code could panic. An error is a constructor beside the result. The time of a
-- call is an argument (now); random numbers are functions (draw for Int63n, perm for Perm), as are the
-- answers of other processes (requester, store), the order in which Go walks a map (order), and
-- whether a context is done. Terms and indices are uint64: a step of the term wraps around at 2^64. Log
-- entries are counted from 1, as in the code.
--
-- Loops end by the lists they walk. The rounds of the searches are counted down from MaxRounds, which
-- the code itself has as a bound, and so are the steps of the simulator; the frames of a connection by
-- its bytes, as each takes four at least; collectCommittedLocked walks as many entries as lie between the two
-- indices. So there is no fuel that could run out.
--
-- Not modelled: listening, dialling and the writes of a connection, logging,
-- the registration and serving of metrics, and the command lines. JSON, base64, SHA-256, strings.ToUpper and package strconv are
-- parameters.
pub mod Base
pub mod Raft
pub mod Dht
pub mod Node
pub mod Coordinator
pub mod Gossip
pub mod Sensor
pub mod Dhtsim
pub mod Wire
