-- ===== src/Pkcs11.antt =====
-- The PKCS#11 side of the agent (src/pkcs11).
pub mod Lease
pub mod Broker
pub mod Ec
pub mod Der
pub mod Attribute
pub mod DerivedKeys
pub mod Objects
pub mod Session
pub mod Module
