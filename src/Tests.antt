-- ===== src/Tests.antt =====
-- Examples: the theorems at concrete inputs.
pub mod Milli
mod Payload
mod Decoding
mod Stream
mod Devices
mod Services
mod Bridge
mod Radio
mod Packs
mod Decoders
mod Pipeline
mod Topics
mod Start
mod Availability
