-- ===== src/Pkcs11/Module/Certificate.antt =====
-- src/pkcs11/Module.cpp, certificateField: the serial number and the names of a certificate, as its DER encodes them.
pub mod Fields
use libre_agent.Common.{
  ℕ, Bool, true, false, Option, none, some, List, [], ◌∷◌, ◌==◌, if◌then◌else◌,
}
use libre_agent.Pkcs11.Attribute.{cka_issuer, cka_serial_number, cka_subject}
use libre_agent.Pkcs11.Der.{DerElement, take_der_element}

-- `if (!a) return std::nullopt;`
infixl 5 ◌>>=◌
abbrev pub ◌>>=◌ {ℓ κ} : {A : Type ℓ} {B : Type κ} → Option A → (A → Option B) → Option B
none >>= f = none
some a >>= f = f a

unfoldable pub begins_with : ℕ → List ℕ → Bool
begins_with tag [] = false
begins_with tag (b ∷ bytes) = b == tag

-- The element at the front, if it has this tag, and what is behind it.
unfoldable pub take_tagged : ℕ → List ℕ → Option (DerElement × List ℕ)
unfolding take_der_element begins_with
take_tagged tag bytes = elim (take_der_element bytes) [
  | none ↦ none
  | some (e, rest) ↦ if begins_with tag e.whole then some (e, rest) else none
]

-- What is kept of the fields of a TBSCertificate from the serial number to the subject.
pub record Names : Type 0 where
  pub serial : List ℕ
  pub issuer : List ℕ
  pub subject : List ℕ

-- A version at the front is passed over.
unfoldable pub after_version : List ℕ → Option (List ℕ)
unfolding begins_with take_der_element
after_version fields =
    if begins_with 160 fields
    then elim (take_der_element fields) [ none ↦ none | some (e, rest) ↦ some rest ]
    else some fields

unfoldable pub read_fields : List ℕ → Option Names
unfolding after_version take_tagged
read_fields content = do
  fields ← after_version content
  (serial, r1) ← take_tagged 2 fields
  (signature, r2) ← take_tagged 48 r1
  (issuer, r3) ← take_tagged 48 r2
  (validity, r4) ← take_tagged 48 r3
  (subject, r5) ← take_tagged 48 r4
  some (record { serial = serial.whole; issuer = issuer.whole; subject = subject.whole })

unfoldable pub field_of : ℕ → Names → Option (List ℕ)
field_of kind f =
    if kind == cka_serial_number
    then some f.serial
    else if kind == cka_issuer
    then some f.issuer
    else if kind == cka_subject
    then some f.subject
    else none

unfoldable pub certificate_field : List ℕ → ℕ → Option (List ℕ)
unfolding take_tagged read_fields field_of
certificate_field der kind = do
  (cert, after_cert) ← take_tagged 48 der
  (tbs, after_tbs) ← take_tagged 48 cert.content
  fields ← read_fields tbs.content
  field_of kind fields
