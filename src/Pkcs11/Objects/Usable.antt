-- ===== src/Pkcs11/Objects/Usable.antt =====
-- The mechanisms that a slot advertises against the keys that it shows.
use libre_agent.Common.{
  ◌≡◌, refl, Bool, true, false, not, ◌&&◌, ◌||◌, List, [], ◌∷◌, some, ◌==◌, on_if, any_of, All,
  All-append, ℕ, if◌then◌else◌, arith, Bool-cases, inl, inr,
}
use libre_agent.Pkcs11.Attribute.{
  Rv, good, cko_private_key, ckm_rsa_pkcs, ckm_sha256_rsa_pkcs, ckm_ecdsa, ckm_ecdh1_derive,
}
use libre_agent.Pkcs11.Objects.{
  is_rsa, is_ec, CertEntry, ReaderState, Object, Slot, surfaces, signs, private_key_of, objects_of,
  objects_among, any_key, mechanisms_of, slot_of,
}
use libre_agent.Pkcs11.Module.{slot_has_mechanism}
use libre_agent.Pkcs11.Module.Decrypt.{admit_decrypt}
use libre_agent.Pkcs11.Module.Derive.{base_of}
use libre_agent.Pkcs11.Module.Sign.{is_sign_mechanism, key_may_sign, private_key_at}
use libre_agent.Pkcs11.Session.{Session, SessionState}
use libre_agent.Pkcs11.Session.Model.{slot_by_id}

unfoldable pub is_ok_rv : Rv → Bool
is_ok_rv Rv.ok = true
is_ok_rv _ = false

-- Whether the object is a private key that C_SignInit takes with the mechanism.
unfoldable pub signs_with : Object → ℕ → Bool
unfolding is_ok_rv is_sign_mechanism key_may_sign is_ec
signs_with obj mech =
    obj.cls == cko_private_key && is_sign_mechanism mech && is_ok_rv (key_may_sign mech obj)

-- Whether it is one that C_SignInit, C_DecryptInit or C_DeriveKey takes with it.
unfoldable pub serves : ℕ → Object → Bool
unfolding signs_with is_rsa is_ec
serves mech obj =
    signs_with obj mech
    || (obj.cls == cko_private_key && mech == ckm_rsa_pkcs && is_rsa obj.key_type && obj.decrypt)
    || (obj.cls == cko_private_key && mech == ckm_ecdh1_derive && is_ec obj.key_type && obj.derive)

-- The decrypting arm of `serves` is what C_DecryptInit asks of a key, once the mechanism is in the slot's list.
admit_decrypt-serves :
    (s : SessionState) (x : Session) (slot : Slot) (key : ℕ) (obj : Object)
    → x.decrypt.active ≡ false
    → slot_by_id x.slot s ≡ some slot
    → slot_has_mechanism slot.mechanisms ckm_rsa_pkcs ≡ true
    → private_key_at s x.slot key ≡ some obj
    → is_ok_rv (admit_decrypt s x ckm_rsa_pkcs key).0 ≡ (is_rsa obj.key_type && obj.decrypt)
unfolding admit_decrypt is_ok_rv
admit_decrypt-serves s x slot key obj idle shown listed found =
    ground (arith, idle, shown, listed, found)

-- The deriving arm is what C_DeriveKey asks of the base key.
base_of-serves :
    (s : SessionState) (slot key : ℕ) (obj : Object)
    → private_key_at s slot key ≡ some obj
    → (is_ec obj.key_type && obj.derive) ≡ true
    → base_of s slot key ≡ good obj
unfolding base_of
base_of-serves s slot key obj found h = ground (arith, found, h)

-- A private key that signs has a mechanism among these.
unfoldable pub has_mechanism : List ℕ → Object → Bool
has_mechanism mechanisms obj =
    not (obj.cls == cko_private_key && obj.sign) || any_of (signs_with obj) mechanisms

private_key-has_mechanism :
    (c : CertEntry) (certs : List CertEntry)
    → surfaces c ≡ true
    → ((p : CertEntry → Bool) → p c ≡ true → any_key p certs ≡ true)
    → has_mechanism (mechanisms_of certs) (private_key_of c) ≡ true
unfolding has_mechanism signs_with is_ok_rv is_sign_mechanism key_may_sign mechanisms_of surfaces
    signs private_key_of is_rsa is_ec
private_key-has_mechanism c certs h there =
    ground (
      arith,
      h,
      there (λ c. is_rsa c.key_type && signs c),
      there (λ c. is_ec c.key_type && signs c),
    )

objects-have_mechanism :
    (cs certs : List CertEntry)
    → ((p : CertEntry → Bool) → any_key p cs ≡ true → any_key p certs ≡ true)
    → All (λ obj. has_mechanism (mechanisms_of certs) obj ≡ true) (objects_among cs)
unfolding objects_among any_key objects_of has_mechanism
objects-have_mechanism [] certs there = tt
objects-have_mechanism (c ∷ cs) certs there =
    let rest = objects-have_mechanism cs certs (λ p e. there p (ground (arith, e))) in
    on_if (All (λ obj. has_mechanism (mechanisms_of certs) obj ≡ true)) (surfaces c) _ _
      (λ h. (
        refl,
        (refl, (private_key-has_mechanism c certs h (λ p e. there p (ground (arith, h, e))), rest)),
      ))
      (λ _. rest)

-- A mechanism is served by the private key of a certificate that has what the mechanism is advertised for.
key_served :
    (mech : ℕ) (p : CertEntry → Bool)
    → ((c : CertEntry) → surfaces c ≡ true → p c ≡ true → serves mech (private_key_of c) ≡ true)
    → (certs : List CertEntry) → any_key p certs ≡ true
    → any_of (serves mech) (objects_among certs) ≡ true
unfolding any_key objects_among objects_of
key_served mech p one [] h = absurd (ground (arith, h))
key_served mech p one (c ∷ certs) h = ground (arith, h, one c, key_served mech p one certs)

abbrev Served : List CertEntry → List ℕ → Type 0
Served certs = All (λ mech. any_of (serves mech) (objects_among certs) ≡ true)

sha256_served :
    (certs : List CertEntry)
    → any_key (λ c. is_rsa c.key_type && signs c && c.signs_hash_on_card) certs ≡ true
    → any_of (serves ckm_sha256_rsa_pkcs) (objects_among certs) ≡ true
unfolding serves signs_with is_ok_rv is_sign_mechanism key_may_sign private_key_of is_rsa is_ec
sha256_served certs = key_served ckm_sha256_rsa_pkcs _ (λ c h e. ground (arith, h, e)) certs

rsa_served :
    (certs : List CertEntry)
    → (any_key (λ c. is_rsa c.key_type && signs c) certs
        || any_key (λ c. is_rsa c.key_type && c.can_decrypt) certs)
      ≡ true
    → any_of (serves ckm_rsa_pkcs) (objects_among certs) ≡ true
unfolding serves signs_with is_ok_rv is_sign_mechanism key_may_sign private_key_of is_rsa is_ec
rsa_served certs h = elim (Bool-cases (any_key (λ c. is_rsa c.key_type && signs c) certs)) [
  | inl signer ↦ key_served ckm_rsa_pkcs _ (λ c h e. ground (arith, h, e)) certs signer
  | inr none_signs ↦
      key_served ckm_rsa_pkcs (λ c. is_rsa c.key_type && c.can_decrypt)
        (λ c h e. ground (arith, h, e)) certs (ground (arith, h, none_signs))
]

ecdsa_served :
    (certs : List CertEntry)
    → any_key (λ c. is_ec c.key_type && signs c) certs ≡ true
    → any_of (serves ckm_ecdsa) (objects_among certs) ≡ true
unfolding serves signs_with is_ok_rv is_sign_mechanism key_may_sign private_key_of is_rsa is_ec
ecdsa_served certs = key_served ckm_ecdsa _ (λ c h e. ground (arith, h, e)) certs

ecdh_served :
    (certs : List CertEntry)
    → any_key (λ c. is_ec c.key_type && c.can_derive) certs ≡ true
    → any_of (serves ckm_ecdh1_derive) (objects_among certs) ≡ true
unfolding serves signs_with is_ok_rv is_sign_mechanism key_may_sign private_key_of is_rsa is_ec
ecdh_served certs = key_served ckm_ecdh1_derive _ (λ c h e. ground (arith, h, e)) certs

All-one_if :
    (P : ℕ → Type 0) (t : Bool) (x : ℕ) (xs : List ℕ)
    → (t ≡ true → P x)
    → All P xs
    → All P (if t then x ∷ [] else xs)
All-one_if P true x xs f h = (f refl, tt)
All-one_if P false x xs f h = h

mechanisms-Served : (certs : List CertEntry) → Served certs (mechanisms_of certs)
unfolding mechanisms_of
mechanisms-Served certs =
    let P : ℕ → Type 0 = λ mech. any_of (serves mech) (objects_among certs) ≡ true in
    All-append P _ _
      (All-append P _ _
        (All-one_if P _ ckm_sha256_rsa_pkcs _ (sha256_served certs)
          (All-one_if P _ ckm_rsa_pkcs [] (rsa_served certs) tt))
        (All-one_if P _ ckm_ecdsa [] (ecdsa_served certs) tt))
      (All-one_if P _ ckm_ecdh1_derive [] (ecdh_served certs) tt)

-- On every slot, whatever the agent reported of its reader: a private key that signs has a mechanism in the slot's list
-- with which C_SignInit takes it, and every mechanism of the list is one with which C_SignInit,
-- C_DecryptInit or C_DeriveKey takes some key of the slot.
pub slot_usable :
    (r : ReaderState)
    → All (λ obj. has_mechanism (slot_of r).mechanisms obj ≡ true) (slot_of r).objects
      × All (λ mech. any_of (serves mech) (slot_of r).objects ≡ true) (slot_of r).mechanisms
unfolding slot_of
slot_usable r = elim (Bool-cases r.has_card) [
  | inl card ↦
      rw card (objects-have_mechanism r.certs r.certs (λ p e. e), mechanisms-Served r.certs)
  | inr gone ↦ rw gone (tt, tt)
]
