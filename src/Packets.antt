-- ===== src/Packets.antt =====
-- The packet engine, M1 (backend/app/engines/packet_intelligence): the logs of Zeek, the adapters of
-- their records, artifacts and their provenance, and the assembly of the package.
pub mod Json
pub mod Zeek
pub mod Runner
pub mod Adapters
pub mod Conversion
pub mod Containment
pub mod Process
pub mod Artifacts
pub mod Provenance
pub mod Samples
mod Examples
