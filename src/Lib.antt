-- ===== src/Lib.antt =====
-- The verification library of the headless Age of Time client, `aotbot/`.
--
-- The client speaks a bit-packed game protocol over UDP. A datagram goes through three layers:
-- - `aotbot/bitstream.py`: the bit stream and its Huffman string codec. Everything that is sent or
--   received goes through it.
-- - `aotbot/netconn.py`: one connection. Its handshake packets are connectionless; once it is connected,
--   each packet has a header of sequence numbers and a mask of acknowledgements, and the connection tells
--   its owner of every packet that it sent whether it arrived.
-- - `aotbot/events.py`, `aotbot/phases.py`, `aotbot/ghosts.py`, `aotbot/datablocks.py`: the owner, which
--   writes and reads the bodies of the packets through the hooks of the connection.
--
-- The modules:
-- - `Base`: the names that all modules share, Python's integers (`Base/Int`), lists, and the arithmetic
--   of bits and bytes (`Base/Bytes`, `Base/Values`, `Base/BitOps`, `Base/Shifts`).
-- - `BitStream`: the class `BitStream`. A method is a function of a small state monad `M`; the state is a
--   record of the fields of the object, and the buffer is a list of bytes. `BitStream/View` is the
--   abstract view, in which a writer emits a list of bits and a reader consumes one, and `Reads` and
--   `Writes` compose along a do block; a round trip is a pair of them (`BitStream/Appended.transmit`).
--   `BitStream/Huffman` models `_HuffmanProcessor`, and `BitStream/Strings` the string methods.
-- - `NetConnection`: the class `NetConnection`. A method takes the connection and returns it changed; a
--   datagram that goes to the transport is appended to the field `sent`. The owner's hooks are functions
--   over the owner's own state `B`. `NetConnection/Receive` is `_process_raw_packet`, cut at its comments
--   into one function a step, and `NetConnection/Handshake` the connectionless packets.
--   `NetConnection/Accepted` is the case distinction on what becomes of a datagram, which the invariants
--   share.
-- - `Events`: the queue of outgoing events of `EventManager` (`Events/Queue`) and the packed integers of its
--   remote commands (`Events/Packed`), and `ConnectionStringTable` (`Events/StringTable`), whose dictionary
--   and list of slots are functions. `Events/Teaching` is the event that teaches the peer a string.
--   `Events/Incoming` has a reader for the payload of each event, which returns the event as a value, and
--   `Events/Receive` is `read_events`: a round of its loop is cut into one function a step, and what the
--   manager calls is recorded in its state. `Events/Receive/Section` describes a section by its events and
--   says what is to be done with them (`accept`).
-- - `Decoder`: what the decoders of payloads share. `Decoder/Decodes` is the property that a reader takes a
--   definite bit string, `Decoder/Sizes` the one that it takes at least so many bits; both have a rule for each
--   construct, which `search` applies.
-- - `Datablocks`: the decoders of `aotbot/datablocks.py`, and `Ghosts`: those of `aotbot/ghosts.py`. A decoder
--   is a do block that reads the fields in the order of the source. One that may raise returns an option; where
--   it raises, the stream stays where it stopped.
-- - `Phases`: the machine of `aotbot/phases.py`. `Phases/Mission` is the state machine of a
--   mission, whose inputs are the messages of the server and the ticks of the connection. `Phases/Body` is
--   `read_packet_body`: it reads the header (`Phases/Control`), the events (`Events/Receive`), whose calls it turns
--   into inputs of the machine, and the ghosts (`Phases/GhostSection`). `Phases/Moves` is the header that is
--   written, with its stream of moves, and `Phases/Messages` the payload of a connection message.
-- - The modules called `Tests`: small runs, and the theorems at concrete inputs.
--
-- Numbers are natural numbers; where Python subtracts, the invariant `NetConnection/Valid.IsValid` says
-- that the result is not negative. A shift or a mask of `w` bits is a remainder by `2 ^ w`. Where an
-- argument of the bit stream may be negative it is an integer of `Base/Int`.
--
-- Fuel: the loops of `_next_pow2` and `_bin_log2` take their argument as fuel, and the theorem on
-- `ranged_bits` says what they compute. The merging loop of the Huffman tree runs a fixed number of
-- rounds, and the decoding loop has 256 steps for a symbol, as many as the tree has leaves.
-- The 4096 rounds of `read_events` and the 16384 of a ghost section are the source's own.
--
-- An exception in a hook is caught by the source; a hook here is a total function whose result says what
-- was done when it ended. The reading of a body says whether it decoded to its end. A sequence number
-- below the last one makes Python raise at the shift; the model drops the packet, as the receive loop does.
--
-- Not modelled: the floats of the bit stream (`write_float` and its kin; a float that is read is its
-- numerator), `hexdump` and `get_buffer`; the asyncio tasks, timers and retries of the connection (a
-- `Disconnect` shuts the connection down at once, where the source creates a task for it), the connect
-- request, and the keep-alive loop; what the decoders report to telemetry and to the log; `detag` and the
-- handlers of remote commands; what `detag` raises; the registry of `aotbot/phases.py`; the layers above it. A payload of an
-- outgoing event is a writer of the bit stream. The hooks of the events count as set.
pub mod Base
pub mod BitStream
pub mod NetConnection
pub mod Events
pub mod Decoder
pub mod Datablocks
pub mod Ghosts
pub mod Phases
