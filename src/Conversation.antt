-- ===== src/Conversation.antt =====
-- src/domain/conversation: the dialog state machine and the slots of a form.
pub mod Fsm
pub mod Slots
