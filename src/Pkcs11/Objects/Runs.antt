-- ===== src/Pkcs11/Objects/Runs.antt =====
-- The slots of concrete readers.
use libre_agent.Common.{◌≡◌, true, false, [], ◌∷◌, any_of, All}
use libre_agent.Pkcs11.Objects.{KeyType, CertEntry, ReaderState, slot_of}
use libre_agent.Pkcs11.Objects.Usable.{has_mechanism, serves, slot_usable}

abbrev signing : CertEntry
signing = record {
  cert_id = "a";
  label = "Signing";
  holder_name = "Holder";
  cka_id = 1 ∷ [];
  signing_capable = true;
  can_sign = true;
  can_decrypt = false;
  signs_hash_on_card = false;
  always_authenticate = false;
  can_derive = false;
  key_type = KeyType.rsa;
  key_bits = 16;
}

abbrev card : ReaderState
card = record {
  reader_path = "r";
  reader_name = "Reader";
  has_card = true;
  token_label = "Holder";
  token_serial = "42";
  certs =
      signing ∷ record signing { key_type = KeyType.ec; key_bits = 256; can_derive = true } ∷ [];
}

slot_usable_example :
    All (λ obj. has_mechanism (slot_of card).mechanisms obj ≡ true) (slot_of card).objects
    × All (λ mech. any_of (serves mech) (slot_of card).objects ≡ true) (slot_of card).mechanisms
slot_usable_example = slot_usable card
