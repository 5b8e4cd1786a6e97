-- ===== src/Message.antt =====
-- middleware/components/message: the fields packed in a message code, the sequence counter and
-- the pool of reference-counted messages.
pub mod Code
pub mod Numbers
pub mod Sequence
pub mod Pool
