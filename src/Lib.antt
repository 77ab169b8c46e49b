-- ===== src/Lib.antt =====
-- A model of lora-multihop, a TDMA network stack for LoRa nodes, with proofs about it. The nodes share a
-- superframe of slots; in its first slot they discover their neighbours, elect clusterheads and join
-- clusters, and in the others followers send to their clusterhead, whose window of slots depends on its
-- ring, its distance from the gateway.
--
-- The parts, from the bottom:
-- * Time models the millisecond deadlines and the sleep loops of lib/net/src/time_helpers.cpp, where the value of millis() is an
--   argument, and Time.Clock its now and set.
-- * Net models lib/net/src/net.cpp and lib/net/include/net.h: the parameters and states that the layers
--   share. A buffer pointer with its size is the list of the bytes and the size.
-- * Lora models lib/lora: the return codes of lib/lora/include/LoraRadio.h, and in Lora.Driver and
--   Lora.Simulated the two builds of lib/lora/src/LoraRadio.cpp, for the hardware and for the simulator. What
--   the library of the radio and the system calls answer is a parameter. The layers above take what
--   lora::send and lora::wait_recv answer as an argument, so that they hold for both builds.
-- * Link models lib/net/src/link_layer.cpp. The record Link is the module's static variables.
--   Link.Slots has current_slot, active_slot, time_left_in_slot and epoch_and_offset; Link.Tx has
--   MessageVec, sendmsg, fill_frame_header and flush; Link.Rx has recv and getmsg; Link.Frame the frame
--   header and the checksum; Link.Code the spreading codes. Each operation that reads time::now() takes
--   the value as an argument, one for each read.
-- * Multihop.Messages models lib/net/include/multihop_messages.h, msgtype and Message::size of
--   lib/net/src/multihop_messages.cpp, and decode_msg of lib/net/src/multihop.cpp. A message is its
--   header and the member of its union that is in use; encode gives its bytes as they lie in memory, on a
--   machine with the least byte first.
-- * Multihop.Datagram models DatagramIterator of lib/net/src/multihop_messages.cpp.
-- * Multihop.Rings models RingList::score, and add_neighbor and the search for the lowest ring of
--   lib/net/src/multihop_state.cpp; Multihop.State models the rest of that file, MultihopState.
-- * Multihop.Node models lib/net/src/multihop.cpp. The record Node is STATE, MAC and the link layer below.
--   Multihop.Node.Slots has prepare_clusterhead, accept and init; Multihop.Node.Election has
--   base_p_for_ring, announce_clusterhead and ClusterheadCandidates; Multihop.Node.Timing the slot times and
--   flush; Multihop.Node.Data has send_acks and send_datagram; Multihop.Node.Relay has do_follower_send,
--   do_clusterhead_send and do_clusterhead_recv; Multihop.Node.Follower has do_follower_recv. The value of
--   rand() is an argument. The waiting loop of do_follower_recv runs over a list of what its rounds read,
--   and returns no_data where the list ends.
-- * Multihop.Phases models the advertising slot of lib/net/src/multihop.cpp: Discovery is
--   run_neighbor_discovery, Announcement run_clusterhead_announcement, Joining run_clusterhead_joining, and
--   Advertise do_advertise, which runs them. They are actions, in a state monad over the record Run: the node
--   and the number of the next call. The record World says what each call of millis(), time::now(), rand(),
--   lora::wait_recv and lora::send gives, by its number, so that a theorem about every World is about every
--   behaviour of the clocks, the generator and the radio.
-- * Multihop.Main models the firmware of multihop/node/src/main.cpp: setup, and loop, which waits for its
--   slots and calls the handlers. Its serial output and its fixed delays are left out, and the payload that
--   snprintf writes is a parameter. The source keeps a pointer to a local variable of setup: what its memory
--   holds once setup has returned is an argument of setup, and the model lets it stay the same from then on.
-- * Tdma models the demonstration of tdma/node/src/main.cpp: slot_index, next_slot_boundary, and main, whose
--   loop runs over a list of what its passes read. It uses the driver alone, not the layers.
-- * Multihop.Delivery composes the handlers of several nodes: a follower, any number of clusterheads that hear the frame
--   of the one before in do_clusterhead_recv and send their own in do_follower_send, and the last one. Its Route is the
--   relation of the frames at both ends; Delivery.Whole sends the fragments of one buffer on such ways, one by one, and
--   Delivery.Acked is the way of an ack from a clusterhead back to a follower.
-- * Arduino models the stand-ins for the platform in lib/arduino_stubs, with which the simulator builds the firmware:
--   Timing the clock and the delays, Serial the serial port, Wire and Spi the buses.
-- * Mesh models loramesh/node: Mesh.Shims is src/esp32_shims.cpp, Mesh.Radio src/LM_NexusModule.cpp, and Mesh.App what
--   the tasks of src/main.cpp do. The mesh library and the real-time system are not in the repository, and what they
--   answer is an argument; the type of floating-point numbers is a parameter.
-- * Txrx models the two demonstration programs of lora_txrx.
--
-- An operation takes the state and returns it with its return code and what it hands out through
-- pointers. The integers are natural numbers; where the source's type can wrap, the definition says
-- `% 2 ^ w` for the width of that type (u8, u16, u32, and sub8, sub32, sub64 for differences; size_t has 64
-- bits). The loop over getmsg and the list of all fragments are recursion on fuel, and the theorems about
-- them name the fuel that is enough: one more than the messages, and one more than the bytes.
--
-- Prelude passes on the library's names, and has the tests, the list operations over these numbers, the
-- machine words and the byte arrays; Prelude.Decimal is the decimal text of the C library, and Prelude.Int signed
-- numbers. In each part, the modules named Tests hold runs and concrete
-- instances; the other child modules are named for what they prove.
--
-- The loops over the messages of a frame in the node layer have fuel 256, since a frame announces at most
-- 255 messages; the loop of emit_ch_messages has a round for each byte of the transmit buffer and one
-- more, since each round that goes on queues some bytes.
--
-- A loop of a phase has fuel for its rounds; where the fuel is out the phase ends as if its deadline were
-- reached, and says that it was not. The statements about what a phase leaves behind hold for each fuel, so
-- also for a phase that a deadline ends after any number of rounds.
--
-- Not modelled: the pins of lib/lora/src/LoraRadio.cpp; the floating-point numbers of loramesh/node (time on air, signal
-- strength) and of the serial port; the debug output; lib/net/include/network_layer.h, an interface that no source file
-- implements; and the tests and scripts in test.
pub mod Prelude
pub mod Time
pub mod Net
pub mod Lora
pub mod Link
pub mod Multihop
pub mod Tdma
pub mod Arduino
pub mod Mesh
pub mod Txrx
