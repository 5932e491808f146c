-- ===== src/Socket.antt =====
-- `CSocket` of CSocket.h and CSocket.cpp: a TCP socket with the four states of its enumerator, over
-- system calls that are a parameter.
pub mod Os
pub mod Act
pub mod ByteOrder
pub mod Names
pub mod Service
pub mod Control
pub mod Transfer
pub mod Options
pub mod Members
pub mod Moves
pub mod Diagram
pub mod Refusals
pub mod Timeouts
pub mod Delivery
pub mod Flushing
pub mod Ports
pub mod Addresses
