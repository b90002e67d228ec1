-- ===== src/Pkcs11/Module/Derive/Kept.antt =====
-- When a derivation leaves a key, and which.
use libre_agent.Common.{ℕ, List, nat_key}
use libre_agent.Common.Map
use libre_agent.Pkcs11.DerivedKeys.{DerivedKey}
use libre_agent.Pkcs11.Session.{Session}
use libre_agent.Pkcs11.Module.Derive.{DeriveCall}

abbrev key_of : DeriveCall → List ℕ → DerivedKey
key_of q value = record { slot = q.slot; creator = q.session; attributes = q.wanted; value = value }
