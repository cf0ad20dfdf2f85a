-- ===== src/Chat.antt =====
-- chat_system: the rooms, the broadcasts, the event loop and the commands of the chat server.
pub mod Rooms
pub mod Broadcast
pub mod Print
pub mod Events
pub mod Lines
pub mod Examples
