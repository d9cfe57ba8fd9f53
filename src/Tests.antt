-- ===== src/Tests.antt =====
-- The theorems at concrete values of the repository's states and messages.
mod Master
mod Msg
mod Generator
mod Control
mod Services
mod Io
mod Push
mod Conf
mod Life
mod Trip
