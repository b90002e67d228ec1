-- ===== src/Pkcs11/Objects.antt =====
-- src/pkcs11/ObjectModel.cpp: the slots, objects and mechanisms of a token, made of what the agent reports of its
-- readers, and the policy of include/LibreSCRS/Agent/pkcs11/ObjectModel.h by which a transport enters a certificate.
pub mod Usable
mod Runs
use libre_agent.Common.{
  ℕ, ◌/◌, ◌%◌, Bool, true, false, not, ◌&&◌, ◌||◌, Option, none, some, List, [], ◌∷◌, ◌++◌, map,
  String, ◌==◌, if◌then◌else◌,
}
use libre_agent.Pkcs11.Attribute.{
  cko_certificate, cko_public_key, cko_private_key, ckm_rsa_pkcs, ckm_sha256_rsa_pkcs, ckm_ecdsa,
  ckm_ecdh1_derive,
}
use text.Mathlib.Text.{◌==◌ as text_eq}

pub data KeyType : Type 0 where
  rsa ec other : KeyType

unfoldable pub is_rsa : KeyType → Bool
is_rsa KeyType.rsa = true
is_rsa _ = false

unfoldable pub is_ec : KeyType → Bool
is_ec KeyType.ec = true
is_ec _ = false

pub data PreReadAuth : Type 0 where
  none_needed mrz can : PreReadAuth

pub record CertEntry : Type 0 where
  pub cert_id : String
  pub label : String
  pub holder_name : String
  pub cka_id : List ℕ
  pub signing_capable : Bool
  pub can_sign : Bool
  pub can_decrypt : Bool
  pub signs_hash_on_card : Bool
  pub always_authenticate : Bool
  pub can_derive : Bool
  pub key_type : KeyType
  pub key_bits : ℕ

pub record ReaderState : Type 0 where
  pub reader_path : String
  pub reader_name : String
  pub has_card : Bool
  pub token_label : String
  pub token_serial : String
  pub certs : List CertEntry

unfoldable pub token_label_for : List CertEntry → String → String
token_label_for [] reader_name = reader_name
token_label_for (cert ∷ certs) reader_name =
    let rest = token_label_for certs reader_name in
    if cert.signing_capable && not (text_eq cert.holder_name "") then cert.holder_name else rest

pub record Object : Type 0 where
  pub cls : ℕ
  pub cka_id : List ℕ
  pub label : String
  pub cert_id : String
  pub key_type : KeyType
  pub key_bits : ℕ
  pub derive : Bool
  pub sign : Bool
  pub decrypt : Bool
  pub always_authenticate : Bool

pub record Slot : Type 0 where
  pub reader_path : String
  pub reader_name : String
  pub token_present : Bool
  pub token_label : String
  pub token_serial : String
  pub objects : List Object
  pub mechanisms : List ℕ

-- The sizes in the table of the NIST curves.
unfoldable pub is_nist_size : ℕ → Bool
is_nist_size bits = bits == 256 || bits == 384 || bits == 521

-- A key that the module can serve: RSA or EC, one the agent signs or derives with, of a size that names a
-- modulus or a curve.
unfoldable pub surfaces : CertEntry → Bool
unfolding is_rsa is_ec is_nist_size
surfaces c =
    (is_rsa c.key_type || is_ec c.key_type)
    && (c.signing_capable || (is_ec c.key_type && c.can_derive))
    && not (
        (is_rsa c.key_type && c.key_bits == 0)
        || (is_ec c.key_type && not (is_nist_size c.key_bits)))

unfoldable pub signs : CertEntry → Bool
signs c = c.signing_capable && c.can_sign

abbrev pub plain_object : ℕ → CertEntry → Object
plain_object cls c = record {
  cls = cls;
  cka_id = c.cka_id;
  label = c.label;
  cert_id = c.cert_id;
  key_type = KeyType.other;
  key_bits = 0;
  derive = false;
  sign = false;
  decrypt = false;
  always_authenticate = false;
}

unfoldable pub private_key_of : CertEntry → Object
unfolding is_rsa is_ec signs
private_key_of c = record (plain_object cko_private_key c) {
  key_type = c.key_type;
  key_bits = c.key_bits;
  sign = signs c;
  decrypt = is_rsa c.key_type && c.can_decrypt;
  derive = is_ec c.key_type && c.can_derive;
  always_authenticate = c.always_authenticate;
}

-- The certificate, its public key and its private key.
unfoldable pub objects_of : CertEntry → List Object
unfolding private_key_of
objects_of c =
    plain_object cko_certificate c
    ∷ record (plain_object cko_public_key c) { key_type = c.key_type; key_bits = c.key_bits }
    ∷ private_key_of c
    ∷ []

unfoldable pub objects_among : List CertEntry → List Object
unfolding objects_of surfaces
objects_among [] = []
objects_among (c ∷ certs) =
    if surfaces c then objects_of c ++ objects_among certs else objects_among certs

-- Whether some certificate that surfaces has the property, as the `any…` flags of the loop end.
unfoldable pub any_key : (CertEntry → Bool) → List CertEntry → Bool
unfolding surfaces
any_key p [] = false
any_key p (c ∷ certs) = (surfaces c && p c) || any_key p certs

unfoldable pub mechanisms_of : List CertEntry → List ℕ
unfolding any_key is_rsa is_ec signs
mechanisms_of certs =
    (if any_key (λ c. is_rsa c.key_type && signs c && c.signs_hash_on_card) certs
      then ckm_sha256_rsa_pkcs ∷ []
      else if any_key (λ c. is_rsa c.key_type && signs c) certs
          || any_key (λ c. is_rsa c.key_type && c.can_decrypt) certs
      then ckm_rsa_pkcs ∷ []
      else [])
    ++ (if any_key (λ c. is_ec c.key_type && signs c) certs then ckm_ecdsa ∷ [] else [])
    ++ (if any_key (λ c. is_ec c.key_type && c.can_derive) certs then ckm_ecdh1_derive ∷ [] else [])

unfoldable pub slot_of : ReaderState → Slot
unfolding objects_among mechanisms_of
slot_of r = record {
  reader_path = r.reader_path;
  reader_name = r.reader_name;
  token_present = r.has_card;
  token_label = r.token_label;
  token_serial = r.token_serial;
  objects = if r.has_card then objects_among r.certs else [];
  mechanisms = if r.has_card then mechanisms_of r.certs else [];
}

unfoldable pub build : List ReaderState → List Slot
unfolding slot_of
build readers = map slot_of readers

pub record NeutralCert : Type 0 where
  pub cert_id : String
  pub key_id : List ℕ
  pub key_type : KeyType
  pub key_bits : ℕ
  pub signing_capable : Bool
  pub can_derive : Bool
  pub key_usage_bits : ℕ
  pub always_authenticate : Bool
  pub subject_cn : String

unfoldable pub needs_can : PreReadAuth → Bool
needs_can PreReadAuth.can = true
needs_can _ = false

unfoldable pub needs_nothing : PreReadAuth → Bool
needs_nothing PreReadAuth.none_needed = true
needs_nothing _ = false

-- Whether key or data encipherment is among the bits.
unfoldable pub permits_decrypt : ℕ → Bool
permits_decrypt bits = not (bits / 4 % 2 == 0) || not (bits / 8 % 2 == 0)

unfoldable pub cert_entry_from : NeutralCert → PreReadAuth → Option CertEntry
unfolding is_rsa is_ec needs_can needs_nothing permits_decrypt
cert_entry_from c auth =
    let derives = c.can_derive && is_ec c.key_type in
    if not c.signing_capable && not derives
    then none
    else some (record {
      cert_id = c.cert_id;
      label = if text_eq c.subject_cn "" then c.cert_id else c.subject_cn;
      holder_name = c.subject_cn;
      cka_id = c.key_id;
      signing_capable = c.signing_capable;
      can_sign = c.signing_capable && (needs_nothing auth || needs_can auth);
      can_decrypt = is_rsa c.key_type && needs_nothing auth && permits_decrypt c.key_usage_bits;
      signs_hash_on_card = is_rsa c.key_type && needs_can auth;
      always_authenticate = c.always_authenticate;
      can_derive = derives;
      key_type = c.key_type;
      key_bits = c.key_bits;
    })
