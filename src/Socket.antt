-- ===== src/Socket.antt =====
-- src/socket_handler.c: the classic BPF program that `--icmp` attaches to the socket. The kernel's
-- filter machine is a parameter.
pub mod Config
pub mod Receive
pub mod Frames
pub mod Delivery
pub mod Filter
pub mod Accepted
mod Tests
mod DeliveryTests
