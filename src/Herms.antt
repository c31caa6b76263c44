-- ===== src/Herms.antt =====
-- src/herms: the release of versions to a share of the traffic.
pub mod Grayscale
pub mod TrafficTagger
