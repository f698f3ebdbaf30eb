-- ===== src/Sdk.antt =====
-- packages/theword-sdk/src: the run-length encoding of images, its drawing as SVG, and the addresses
-- of the contracts.
pub mod Hex
pub mod Image
pub mod Svg
pub mod Collection
pub mod Seeds
pub mod Addresses
mod Tests
