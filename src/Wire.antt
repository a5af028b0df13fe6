-- ===== src/Wire.antt =====
-- attachments/nano_attachment/nano_attachment_io.c: what is exchanged with the service about a session.
-- The chunks go out through a shared ring and a socket tells of them; the replies come through a ring.
pub mod Signal
pub mod Send
pub mod Response
pub mod Replies
pub mod Senders
