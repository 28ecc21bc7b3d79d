-- ===== src/Extractor.antt =====
-- io/extractor.go, io/decrypt_pipeline.go and the reading half of io/solid.go and io/directory.go:
-- SafeExtractor, which reads an archive from its start.
pub mod Framing
pub mod Header
pub mod Blocks
pub mod Entries
pub mod Listing
