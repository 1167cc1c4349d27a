-- ===== src/Lib.antt =====
-- Verification of a hybrid VLC and RF network: a gateway that sends packets to a node over RF or
-- over visible light (VLC), a VLC transmitter between them, and the node, which reports back over
-- RF what it received.
--
-- The parts, their sources, and the files that model them:
--   `gateway (eth)_gateway/`: Gateway. Its threads share the state in Gateway/State; a round of a
--     thread is a function on it (Gateway/Transmit: `transmit_rf`, `add_token`, `tbf_transmit`,
--     `transmit_vlc`; Gateway/Produce: `generate_packet`, `schedule_packet`, `check_unacked`;
--     Gateway/Receive: `receive_report`, `receive_vlc_report`), and Gateway/Step runs any sequence
--     of rounds. Gateway/Schedule is `schedule`, Gateway/Send and Gateway/Address are the frames
--     and the tests on their sender, Gateway/Masks the masks of `gateway.c` and `calculate_v`.
--     Proofs: Gateway/Flow (order and loss; Flow/Drain: progress), Gateway/Frame and Gateway/Stall
--     (a refused frame), Gateway/Tokens, Gateway/Acks, Gateway/Desync, Gateway/Unacked and
--     Gateway/Timeout (packets sent again).
--   `VLC TX1 (Eth)_vlc_tx/`: VlcTx. VlcTx/Wire reads and writes packets, VlcTx/Rounds is the
--     receiving loop of `main` and the two threads.
--   `node (rf)_node1/`: Node. Node/Wire reads packets, Node/Receive is `receive_vlc`, `receive_rf`
--     and `vlc_quality_measurement`, Node/Status is `process_data`, Node/SendReport `send_report`;
--     Node/Rounds runs any sequence of rounds of the receiving threads and `process_data`.
--     Proofs: Node/Track and Node/Window.
--   `VLC TX1 (Eth)_ourvlc/ourvlc-1.c`: VlcTx/Driver (parity, the PRU's memory) and VlcTx/Pool (the
--     packet pool and the timer, as lists), VlcTx/Linked (the same lists linked on a heap; Enqueue and
--     Dequeue refine them, Order is runs, Race a tick within `vlc_enqueue_pkt`), VlcTx/Quality (the
--     dummy packet), VlcTx/Packets (who owns the packets' memory, to `cleanup_module`; proofs in
--     VlcTx/Cleanup), VlcTx/Init (`init_module`) and VlcTx/Proc (`proc_read` and `proc_write`).
--   `node (rf)_ourvlc/ourvlc-1.c`: Node/Driver, a round of the receiving thread, Node/Thread, its loop,
--     Node/NetRx (`mac_rx`) and Node/Init (`init_module` to `cleanup_module`, proofs in Node/Cleanup).
--   Both drivers: Device, the configuration of the network device and the header of a frame, with the
--     kernel's socket buffers as an interface (proofs in Device/Headers); Pru, the memory that a driver
--     shares with the PRU.
--   `packet_queue.c` of all three: Queue, a linked list on a heap, with the abstract queue Fifo
--     (Queue/Fifo) that the threads of the other modules use.
--   `status_report_packet.c` of gateway and node: Report.
--   Link: what one part sends against what the next part makes of it (Rf, Vlc, Tx, Receive, Report,
--     Acks, Blocks, Driver, Light, Corrected, Netif), the transmitter's driver from its start (Start)
--     and ahead of the PRU (Overrun), a packet over the light from program to program (Path), the loop of the
--     receiving driver (Thread), the node under any arrivals (Node), the gateway with the node from
--     the generated packet to the ACK number (System, Numbers), and both with the air between them
--     (World), which loses, delays, reorders and repeats the frames of either (World/Safety and
--     World/Once, what holds all the same; World/Reported, what a report tells; World/Delivery, a run
--     without a loss).
--   Packet: the packet and the Ethernet header. Doubles: the `double` arithmetic as an interface.
--   Base: tests, lists, bytes and payloads. Examples: the theorems at concrete data.
--
-- Conventions. A result `none` is a fault: an access outside an array or buffer, a NULL
-- dereference, a counter below 0, memory freed twice, a socket buffer without the room that
-- `skb_push` takes (and, in Node/SendReport, a negative length). Numbers are natural; a field of a
-- packet is cut to its bytes where it is written, and an `int` that is read is its 32-bit pattern.
-- A round of a thread is atomic (but in VlcTx/Linked/Race); the mutexes and `usleep` are left out.
-- `malloc` gives the programs memory. The value of `htons(ETH_P_ALL)`, the interface addresses,
-- what `rand`, `recvfrom`, `sendto` and the clock give, are arguments. Histories (`rf_sent`,
-- `vlc_sent`) record what was sent; the code has no such lists.
--
-- Bounds and fuel. `N_NODE` and `N_VLC` are 1 as configured, so an array over them is its entry;
-- only `calculate_v` is over any number of nodes. `proc_read` has fuel for 10 digits, enough for an
-- `int`. `process_data` runs its loop on fuel one above the array's length, `schedule` on fuel 2, and
-- `destruct_queue` on fuel above the number of packets; the loop of `vlc_enqueue_pkt` has fuel for
-- each packet of the pool. Link/World generates fewer packets than the node's window is wide, so that
-- the node gives up no gap.
--
-- Not modelled: the Reed-Solomon library that the drivers copy (a parameter), the PRU firmware, the
-- setup of sockets, printing, the trial programs and old versions beside the sources. A run of the
-- node (Node/Rounds) leaves out `vlc_quality_measurement`, which only resets `frame_rx`, and
-- `send_report`, which changes nothing there; both are modelled alone. VlcTx/Packets has the
-- addresses of the driver's packets and VlcTx/Pool their contents.
pub mod Base
pub mod Device
pub mod Doubles
pub mod Packet
pub mod Pru
pub mod Queue
pub mod Report
pub mod Gateway
pub mod VlcTx
pub mod Node
pub mod Link
pub mod Examples
