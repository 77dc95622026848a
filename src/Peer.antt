-- ===== src/Peer.antt =====
-- The other side of the link: a pointing device that describes its reports by a HID Report Map (USB
-- HID 1.11, 6.2.2, in the form of its appendix E.10) and sends reports of that form. Its description
-- is written from that standard, and independent of how the parser and the decoder read either.
pub mod Desc
pub mod Meant
pub mod Cursor
pub mod Bytes
pub mod Numbers
pub mod Groups
pub mod Usages
pub mod Axes
pub mod Slots
pub mod Placement
pub mod Shown
pub mod Short
pub mod Layout
pub mod Reading
pub mod RoundTrip
pub mod Cut
pub mod Link
pub mod Session
mod Tests
