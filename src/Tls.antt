-- ===== src/Tls.antt =====
-- pkg/tls: what the proxy looks at in a client's certificates.
pub mod Certs
pub mod Crl
pub mod Ocsp
pub mod Setup
pub mod Verifications
