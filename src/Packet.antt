-- ===== src/Packet.antt =====
-- main/src/river2_packet.c and main/include/river2_packet.h: the constants of the wire format and
-- the little-endian accessors. The inner packet, the outer wrapper and the reassembler are the
-- child modules. A buffer is the list of its bytes; `size_t` has the 32 bits of the ESP32.
pub mod Words
pub mod Append
pub mod Inner
pub mod Outer
pub mod Reassembly
mod Tests
