-- ===== src/Pkcs11/Module/Decrypt/Ends.antt =====
-- When a decryption ends.
use libre_agent.Common.{ℕ, ◌≡◌, Bool, false, some, if◌then◌else◌, nat_key}
use libre_agent.Common.Map
use libre_agent.Pkcs11.Session.{Session, SessionState, no_decrypt}
use libre_agent.Pkcs11.Module.{Answer}
use libre_agent.Pkcs11.Module.Sessions.{length_only}
use libre_agent.Pkcs11.Module.Decrypt.{decrypt}

after_decrypt : Bool → Session → Session
after_decrypt ends x = record (if ends then record x { decrypt = no_decrypt } else x) {
  rpc_in_flight = false;
}

-- The session after a call with this answer.
abbrev Left : ℕ → Session → Answer × SessionState → Type 0
Left h x r =
    Map.lookup h r.1.sessions
    ≡ some (if length_only r.0 then x else record x { decrypt = no_decrypt })
