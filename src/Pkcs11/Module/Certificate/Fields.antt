-- ===== src/Pkcs11/Module/Certificate/Fields.antt =====
-- The fields of a certificate that is written as DER.
use libre_agent.Common.{
  ◌∙◌, ℕ, ◌+◌, ◌^◌, ◌%◌, ◌<◌, ◌≤◌, ◌≡◌, refl, true, false, Option, none, some, List, [], ◌∷◌, ◌++◌,
  ◌==◌, length, if◌then◌else◌, arith, length-append, ==_iff, subst, sym, append-nil,
}
use libre_agent.Pkcs11.Der.{DerElement, take_der_element}
use libre_agent.Pkcs11.Der.Encoding.{element, length_bytes, take_der_element-element}
use libre_agent.Pkcs11.Module.Certificate.{
  Names, begins_with, take_tagged, after_version, read_fields, field_of, certificate_field,
}

-- The contents of the fields of a TBSCertificate up to the subject; the rest is as it stands.
pub record Tbs : Type 0 where
  pub version : Option (List ℕ)
  pub serial : List ℕ
  pub signature : List ℕ
  pub issuer : List ℕ
  pub validity : List ℕ
  pub subject : List ℕ
  pub others : List ℕ

unfoldable pub from_serial : Tbs → List ℕ
unfolding element
from_serial t =
    element 2 t.serial
    ++ (element 48 t.signature
        ++ (element 48 t.issuer ++ (element 48 t.validity ++ (element 48 t.subject ++ t.others))))

unfoldable pub tbs_bytes : Tbs → List ℕ
unfolding from_serial element
tbs_bytes t = elim t.version [ none ↦ from_serial t | some v ↦ element 160 v ++ from_serial t ]

-- The algorithm and the value of the signature are as they stand.
unfoldable pub certificate_bytes : Tbs → List ℕ → List ℕ
unfolding tbs_bytes element
certificate_bytes t signed = element 48 (element 48 (tbs_bytes t) ++ signed)

unfoldable pub names_of : Tbs → Names
unfolding element
names_of t = record {
  serial = element 2 t.serial;
  issuer = element 48 t.issuer;
  subject = element 48 t.subject;
}

begins_with-element : (tag : ℕ) (content : List ℕ) → begins_with tag (element tag content) ≡ true
unfolding begins_with element
begins_with-element tag content = ground (arith, ==_iff tag tag)

tagged :
    (tag : ℕ) (bytes : List ℕ) (e : DerElement) (rest : List ℕ)
    → take_der_element bytes ≡ some (e, rest)
    → begins_with tag e.whole ≡ true
    → take_tagged tag bytes ≡ some (e, rest)
unfolding take_tagged
tagged tag bytes e rest h t = subst (λ r. pick r ≡ some (e, rest)) (sym h) (rw t refl)
  where
    pick : Option (DerElement × List ℕ) → Option (DerElement × List ℕ)
    pick none = none
    pick (some (e, rest)) = if begins_with tag e.whole then some (e, rest) else none

take_tagged-element :
    (tag : ℕ) (content more : List ℕ)
    → (tag % 32 == 31) ≡ false
    → length content < 2 ^ 32
    → take_tagged tag (element tag content ++ more)
      ≡ some (record { whole = element tag content; content = content }, more)
take_tagged-element tag content more low small =
    tagged tag (element tag content ++ more) _ more
      (take_der_element-element tag content more low small) (begins_with-element tag content)

length-element :
    (tag : ℕ) (content more : List ℕ)
    → length content + length more ≤ length (element tag content ++ more)
unfolding element
length-element tag content more = omega (
  arith,
  length-append (tag ∷ (length_bytes (length content) ++ content)) more,
  length-append (length_bytes (length content)) content,
)

-- Every content of a field is no longer than what they stand in.
record Small (t : Tbs) : Type 0 where
  serial : length t.serial < 2 ^ 32
  signature : length t.signature < 2 ^ 32
  issuer : length t.issuer < 2 ^ 32
  validity : length t.validity < 2 ^ 32
  subject : length t.subject < 2 ^ 32

from_serial-Small : (t : Tbs) → length (from_serial t) < 2 ^ 32 → Small t
unfolding from_serial
from_serial-Small t small =
    let e1 = length-element 48 t.subject t.others in
    let e2 = length-element 48 t.validity (element 48 t.subject ++ t.others) in
    let e3 =
      length-element 48 t.issuer (element 48 t.validity ++ (element 48 t.subject ++ t.others)) in
    let e4 =
      length-element 48 t.signature
        (element 48 t.issuer ++ (element 48 t.validity ++ (element 48 t.subject ++ t.others))) in
    let e5 = length-element 2 t.serial (
      element 48 t.signature
      ++ (element 48 t.issuer ++ (element 48 t.validity ++ (element 48 t.subject ++ t.others)))) in
    record {
      serial = omega (arith, small, e5);
      signature = omega (arith, small, e5, e4);
      issuer = omega (arith, small, e5, e4, e3);
      validity = omega (arith, small, e5, e4, e3, e2);
      subject = omega (arith, small, e5, e4, e3, e2, e1);
    }

no_version : (bytes : List ℕ) → begins_with 160 bytes ≡ false → after_version bytes ≡ some bytes
unfolding after_version
no_version bytes h = rw h refl

past_version :
    (bytes : List ℕ) (e : DerElement) (rest : List ℕ)
    → begins_with 160 bytes ≡ true
    → take_der_element bytes ≡ some (e, rest)
    → after_version bytes ≡ some rest
unfolding after_version
past_version bytes e rest t h = rw (t, h) refl

read_in_order :
    (bytes b0 b1 b2 b3 b4 b5 : List ℕ) (serial signature issuer validity subject : DerElement)
    → after_version bytes ≡ some b0
    → take_tagged 2 b0 ≡ some (serial, b1)
    → take_tagged 48 b1 ≡ some (signature, b2)
    → take_tagged 48 b2 ≡ some (issuer, b3)
    → take_tagged 48 b3 ≡ some (validity, b4)
    → take_tagged 48 b4 ≡ some (subject, b5)
    → read_fields bytes
      ≡ some (record { serial = serial.whole; issuer = issuer.whole; subject = subject.whole })
unfolding read_fields
read_in_order bytes b0 b1 b2 b3 b4 b5 serial signature issuer validity subject e0 e1 e2 e3 e4 e5 =
    rw (e0, e1, e2, e3, e4, e5) refl

field_in :
    (kind : ℕ) (der after_cert after_tbs : List ℕ) (cert tbs : DerElement) (names : Names)
    → take_tagged 48 der ≡ some (cert, after_cert)
    → take_tagged 48 cert.content ≡ some (tbs, after_tbs)
    → read_fields tbs.content ≡ some names
    → certificate_field der kind ≡ field_of kind names
unfolding certificate_field
field_in kind der after_cert after_tbs cert tbs names e1 e2 e3 = rw (e1, e2, e3) refl

begins_from_serial : (t : Tbs) → begins_with 160 (from_serial t) ≡ false
unfolding begins_with from_serial
begins_from_serial t = refl

begins_version : (v more : List ℕ) → begins_with 160 (element 160 v ++ more) ≡ true
unfolding begins_with element
begins_version v more = refl

read_from_serial :
    (t : Tbs) (bytes : List ℕ)
    → after_version bytes ≡ some (from_serial t)
    → length (from_serial t) < 2 ^ 32
    → read_fields bytes ≡ some (names_of t)
unfolding from_serial names_of
read_from_serial t bytes e small =
    let s = from_serial-Small t small in
    read_in_order bytes _ _ _ _ _ _ _ _ _ _ _ e (take_tagged-element 2 t.serial _ refl s.serial)
      (take_tagged-element 48 t.signature _ refl s.signature)
      (take_tagged-element 48 t.issuer _ refl s.issuer)
      (take_tagged-element 48 t.validity _ refl s.validity)
      (take_tagged-element 48 t.subject t.others refl s.subject)

read_tbs :
    (t : Tbs) (version : Option (List ℕ))
    → length (tbs_bytes (record t { version = version })) < 2 ^ 32
    → read_fields (tbs_bytes (record t { version = version })) ≡ some (names_of t)
unfolding tbs_bytes
read_tbs t none small =
    read_from_serial t (from_serial t) (no_version (from_serial t) (begins_from_serial t)) small
read_tbs t (some v) small =
    let size = length-element 160 v (from_serial t) in
    read_from_serial t (element 160 v ++ from_serial t)
      (past_version (element 160 v ++ from_serial t) _ (from_serial t)
        (begins_version v (from_serial t))
        (take_der_element-element 160 v (from_serial t) refl (omega (arith, small, size))))
      (omega (arith, small, size))

inside : (inner : List ℕ) → length (element 48 inner) < 2 ^ 32 → length inner < 2 ^ 32
unfolding element
inside inner h = omega (arith, h, length-append (length_bytes (length inner)) inner)

cut_field :
    (t : Tbs) (signed : List ℕ) (kind : ℕ)
    → length (certificate_bytes t signed) < 2 ^ 32
    → certificate_field (certificate_bytes t signed) kind ≡ field_of kind (names_of t)
unfolding certificate_bytes
cut_field t signed kind small =
    let inner = element 48 (tbs_bytes t) ++ signed in
    let size = length-element 48 (tbs_bytes t) signed in
    let all : length inner < 2 ^ 32 = inside inner small in
    field_in kind (element 48 inner) [] signed _ _ (names_of t)
      (subst
        (λ bytes.
          take_tagged 48 bytes ≡ some (record { whole = element 48 inner; content = inner }, []))
        (append-nil (element 48 inner)) (take_tagged-element 48 inner [] refl all))
      (take_tagged-element 48 (tbs_bytes t) signed refl (omega (arith, all, size)))
      (read_tbs t t.version (omega (arith, all, size)))

field_of-names_of :
    (kind : ℕ) (t : Tbs)
    → field_of kind (names_of t) ≡ (
        if kind == 0x81
        then some (element 48 t.issuer)
        else if kind == 0x82
        then some (element 2 t.serial)
        else if kind == 0x101
        then some (element 48 t.subject)
        else none)
unfolding field_of names_of
field_of-names_of kind t = ground arith

-- Of a certificate in DER that is shorter than 4 GiB, with a version or without one, CKA_ISSUER is answered
-- with the issuer, CKA_SERIAL_NUMBER with the serial number and CKA_SUBJECT with the subject, each cut
-- out exactly as it is encoded, and no other attribute is answered.
pub certificate_field-certificate_bytes :
    (t : Tbs) (signed : List ℕ) (kind : ℕ)
    → length (certificate_bytes t signed) < 2 ^ 32
    → certificate_field (certificate_bytes t signed) kind ≡ (
        if kind == 0x81
        then some (element 48 t.issuer)
        else if kind == 0x82
        then some (element 2 t.serial)
        else if kind == 0x101
        then some (element 48 t.subject)
        else none)
certificate_field-certificate_bytes t signed kind small =
    cut_field t signed kind small ∙ field_of-names_of kind t
