-- ===== src/Epoll.antt =====
-- src/epoll: the event queue of Linux.
pub mod Mask
pub mod MaskLaws
pub mod Interests
pub mod Net
pub mod CustomEvents
pub mod Turn
pub mod Registration
pub mod Signals
