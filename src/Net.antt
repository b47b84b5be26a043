-- ===== src/Net.antt =====
-- single_fs/depends/net: packets on a stream socket, and the queue that they wait in.
pub mod Package
pub mod Packet
pub mod Stream
pub mod TaskQueue
pub mod SimpleList
pub mod CommunicateLoop
