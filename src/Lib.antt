-- ===== src/Lib.antt =====
-- Nix Mark IV: buffered queues, queueing locks, descriptor tables, timers, alarms, and the checksums,
-- conversations, routes and TCP segments of the Internet protocols.
--
-- Data moves through the kernel in blocks (struct Block of port/portdat.h). port/allocb.c makes and
-- frees them, port/qio.c cuts, joins and copies chains of them and keeps them in queues between
-- processes and interrupt handlers, under queueing locks of port/qlock.c. A process reaches queues
-- through its descriptors, in the table of port/sysfile.c and port/pgrp.c.
--
-- * Block models struct Block and, in Block/Chain, the block routines of port/qio.c: padblock,
--   blocklen, blockalloclen, concatblock, pullupblock, trimblock, copyblock, adjustblock, pullblock,
--   packblock, bl2mem and mem2bl. A block is its header bytes, its data and the size of its free
--   space, a chain is a list, and memory from allocb is the parameter Allocator.
-- * Alloc models port/allocb.c: the layout that _allocb computes, and the allowance of iallocb and
--   freeb. Alloc/Shape makes allocb an Allocator, so what Block and Qio need of it is met.
-- * Qio models struct Queue and the queue routines of port/qio.c: Qio/Interrupt those for interrupt
--   handlers, Qio/Read qwait, qbread and qread, Qio/Write qbwrite, qwrite and qiwrite, Qio/Control
--   opening, closing and the tests. A routine is a function from a queue to the value returned, the
--   queue left, the blocks freed and the wakeups sent; qwrite also takes what others do between its
--   pieces and in its sleeps (Qio/Flow). The queue is seen as the stream of its bytes.
-- * WaitQueue models the linked queue of processes in a lock, and QLock models qlock, canqlock and
--   qunlock of port/qlock.c; QLock/System has the steps of processes that share a lock. RWlock
--   models rlock, canrlock, wlock, runlock and wunlock on the same queue, and RWlock/Exclusion has
--   the steps of those that share one, with an observer of who is inside.
-- * Fgrp models struct Fgrp, newfd, newfd2 and fdclose of port/sysfile.c with what they call, and
--   dupfgrp of port/pgrp.c.
-- * Qio/History has the sequences of calls of a queue.
-- * Timer models the timers of port/portclock.c: the sorted list of each processor (tadd, tdel), what
--   is done to it (timeradd, timerdel, addclock0link, timerintr) and the time that the interrupt of
--   the processor is set to, until it comes. Timer/Reach has the steps of all processors.
-- * Alarm models the list of alarms of port/alarm.c: procalarm and alarmkproc.
-- * Checksum models ptclbsum of ip/ptclbsum.c, over the bytes at an address of either parity on a
--   machine of either byte order, and ptclcsum of ip/ipaux.c over a chain of blocks.
-- * Ipht models the table of ip/ipaux.c by which the protocols find the conversation of a packet:
--   iphash, iphtadd, iphtrem and iphtlook. Ipht/Buckets relates it to one list.
-- * Route models the forest of version 4 routes of ip/iproute.c: rangecompare, balancetree, addnode,
--   walkadd, looknode, the loop of v4lookup, and what v4addroute and v4delroute do to it. Route/Lookup
--   has the order of a tree, and Route/Merge and Route/Remove the merging of queued nodes,
--   Route/Roots the trees that a range goes to.
-- * Tcp models parts of ip/tcp.c: the comparison of sequence numbers, Tcp/Window inwindow and
--   tcptrim, Tcp/Resequence addreseq and getreseq, Tcp/Header htontcp4 and ntohtcp4, Tcp/Output a
--   round of tcpoutput, Tcp/Tcptimers the timers (timerstate, tcpgo, tcphalt, a round of
--   tcpackproc), Tcp/Ack the acknowledgements (update, tcpsettimer), Tcp/Timeout tcptimeout, and
--   Tcp/States tcpsetstate, localclose, tcpclose, tcpkick and tcpacktimer. The data of a segment is
--   a chain of Block, and what is sent comes from a queue of Qio, from which update discards what is
--   acknowledged. Places in the stream are natural numbers, of which the packets have the remainder.
-- * Prelude has the lemmas on lists, slices and Boolean tests that all share, and Tests applies the
--   theorems to concrete values.
--
-- Bounds: lengths and sizes are natural numbers, which the C code keeps in int; no queue here holds
-- more bytes than int does. Loops are recursion on the list they walk; mem2bl and the loops of
-- qwrite and qiwrite take fuel, one round for each byte and one more, which is enough as each round
-- takes at least one byte of a write that has any; the loop of wunlock takes more rounds than
-- processes wait, and the loop of timerintr one more than the sum of the times for which its timers
-- have been due. The loop of ptclbsum over 16 bytes has a round for each byte, and the carries of a
-- sum are folded as often as its value says. The loop that empties the queue of v4addroute and
-- v4delroute takes one round for each node that is queued, and one more: four are enough. The loop of
-- ntohtcp4 over the options has a round for each of their bytes.
--
-- Not modelled: spin locks, which make each routine one step; sched and sleep, at which a step ends;
-- tracing, statistics and debugging checks; reference counts; of TCP the calls in limbo, and the
-- states that segments take a connection through; and the rest of the kernel (the scheduler, memory,
-- the name space, devices, drivers and protocols).
pub mod Prelude
pub mod Block
pub mod Alloc
pub mod Qio
pub mod WaitQueue
pub mod QLock
pub mod RWlock
pub mod Tcp
pub mod Timer
pub mod Alarm
pub mod Checksum
pub mod Ipht
pub mod Route
pub mod Fgrp
pub mod Tests
