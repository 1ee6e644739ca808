-- ===== src/ForgetProof.antt =====
-- forget_proof/certificate.py: the Merkle tree over what was forgotten, and the certificate.
-- Texts and byte strings are lists of numbers. `sha256`, the JSON encoding of the signed body and
-- the ed25519 primitives are parameters.
pub mod Hex
pub mod Leaves
pub mod Tree
pub mod Tamper
pub mod Coverage
pub mod Sign
