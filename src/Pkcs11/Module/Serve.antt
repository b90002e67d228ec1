-- ===== src/Pkcs11/Module/Serve.antt =====
-- src/pkcs11/Module.cpp, serveAttribute: the attributes of an object of the card, with certDerOf and what the agent is
-- asked for. A label is its bytes here.
use libre_agent.Common.{
  ℕ, Bool, true, false, not, ◌||◌, Option, none, some, List, [], ◌∷◌, String, ◌==◌, if◌then◌else◌,
  text_key,
}
use libre_agent.Common.Map
use libre_agent.Common.Map.{Map}
use libre_agent.Pkcs11.Attribute.{
  Rv, Attribute, give, number_bytes, cka_class, cka_token, cka_private, cka_label, cka_value,
  cka_certificate_type, cka_issuer, cka_serial_number, cka_key_type, cka_subject, cka_id,
  cka_sensitive, cka_decrypt, cka_unwrap, cka_sign, cka_derive, cka_modulus, cka_modulus_bits,
  cka_public_exponent, cka_extractable, cka_ec_params, cka_ec_point, cka_always_authenticate,
  cko_certificate, cko_public_key, cko_private_key, ckk_rsa, ckk_ec,
}
use libre_agent.Pkcs11.DerivedKeys.{give_flag}
use libre_agent.Pkcs11.Ec.{ec_point_octet_string}
use libre_agent.Pkcs11.Ec.Curve.{ec_params_der_for, is_point_of_key}
use libre_agent.Pkcs11.Objects.{Object, is_rsa, is_ec}
use libre_agent.Pkcs11.Module.{Status, ckr_from_status, is_ok}
use libre_agent.Pkcs11.Module.Certificate.{certificate_field}

-- What `publicKey` of the agent answers.
pub data PublicKey : Type 0 where
  rsa_key : List ℕ → List ℕ → PublicKey
  ec_key : String → List ℕ → List ℕ → PublicKey
  no_key : Status → PublicKey

-- What an object's attributes are made of besides the model.
pub record Sources : Type 0 where
  pub label : List ℕ
  pub public_key : PublicKey
  pub der : Status × List ℕ

unfoldable pub cert_der_of :
    Object → Status × List ℕ → Map String (List ℕ) → (Status × List ℕ) × Map String (List ℕ)
unfolding is_ok
cert_der_of obj answer kept = elim (Map.lookup obj.cert_id kept) [
  | some der ↦ ((Status.ok, der), kept)
  | none ↦ (answer, if is_ok answer.0 then Map.insert obj.cert_id answer.1 kept else kept)
]

abbrev pub absent : Attribute → Rv × Attribute
absent a = (Rv.attribute_type_invalid, a)

unfoldable pub no_key_rv : Status → Rv
no_key_rv Status.key_not_found = Rv.key_handle_invalid
no_key_rv _ = Rv.attribute_type_invalid

-- The flag of a private key.
unfoldable pub private_flag : Object → Bool → Attribute → Rv × Attribute
unfolding give_flag
private_flag obj b a = if obj.cls == cko_private_key then give_flag b a else absent a

unfoldable pub serve_ec_point : Sources → Object → Attribute → Rv × Attribute
unfolding is_ec is_point_of_key ec_point_octet_string give no_key_rv
serve_ec_point src obj a =
    if not (obj.cls == cko_public_key) || not (is_ec obj.key_type)
    then absent a
    else elim src.public_key [
      | no_key status ↦ (no_key_rv status, a)
      | rsa_key n e ↦ absent a
      | ec_key crv x y ↦
          if not (is_point_of_key obj.key_bits crv x y)
          then absent a
          else elim (ec_point_octet_string x y) [ [] ↦ absent a | b ∷ bytes ↦ give (b ∷ bytes) a ]
    ]

unfoldable pub serve_rsa :
    Sources → Object → (List ℕ → List ℕ → List ℕ) → Attribute → Rv × Attribute
unfolding is_rsa give no_key_rv
serve_rsa src obj part a =
    if not (obj.cls == cko_public_key || obj.cls == cko_private_key) || not (is_rsa obj.key_type)
    then absent a
    else elim src.public_key [
      | no_key status ↦ (no_key_rv status, a)
      | rsa_key n e ↦ give (part n e) a
      | ec_key crv x y ↦ absent a
    ]

unfoldable pub serve_ec_params : Object → Attribute → Rv × Attribute
unfolding is_ec ec_params_der_for give
serve_ec_params obj a =
    if not (obj.cls == cko_public_key || obj.cls == cko_private_key) || not (is_ec obj.key_type)
    then absent a
    else elim (ec_params_der_for obj.key_bits) [ [] ↦ absent a | b ∷ bytes ↦ give (b ∷ bytes) a ]

unfoldable pub serve_certificate :
    Sources → Object → (List ℕ → Option (List ℕ)) → Attribute → Rv × Attribute
unfolding is_ok ckr_from_status give
serve_certificate src obj part a =
    if not (obj.cls == cko_certificate)
    then absent a
    else if not (is_ok src.der.0)
    then (ckr_from_status src.der.0 Rv.general_error, a)
    else elim (part src.der.1) [ none ↦ absent a | some bytes ↦ give bytes a ]

unfoldable pub serve_key_attribute : Sources → Object → Attribute → Rv × Attribute
unfolding private_flag give_flag give is_ec is_rsa serve_ec_params serve_ec_point serve_rsa
    number_bytes
serve_key_attribute src obj a =
    if a.kind == cka_sign
    then private_flag obj obj.sign a
    else if a.kind == cka_decrypt
    then private_flag obj obj.decrypt a
    else if a.kind == cka_derive
    then if obj.cls == cko_public_key then give_flag false a else private_flag obj obj.derive a
    else if a.kind == cka_unwrap || a.kind == cka_extractable
    then private_flag obj false a
    else if a.kind == cka_sensitive
    then private_flag obj true a
    else if a.kind == cka_always_authenticate
    then private_flag obj obj.always_authenticate a
    else if a.kind == cka_ec_params
    then serve_ec_params obj a
    else if a.kind == cka_ec_point
    then serve_ec_point src obj a
    else if a.kind == cka_modulus
    then serve_rsa src obj (λ n e. n) a
    else if a.kind == cka_public_exponent
    then serve_rsa src obj (λ n e. e) a
    else if a.kind == cka_modulus_bits
    then if not (obj.cls == cko_public_key) || not (is_rsa obj.key_type) || obj.key_bits == 0
      then absent a
      else give (number_bytes 8 obj.key_bits) a
    else absent a

unfoldable pub serve_attribute : Sources → Object → Attribute → Rv × Attribute
unfolding give give_flag number_bytes is_ec serve_certificate certificate_field serve_key_attribute
serve_attribute src obj a =
    if a.kind == cka_class
    then give (number_bytes 8 obj.cls) a
    else if a.kind == cka_id
    then give obj.cka_id a
    else if a.kind == cka_label
    then give src.label a
    else if a.kind == cka_token
    then give_flag true a
    else if a.kind == cka_private
    then give_flag (obj.cls == cko_private_key) a
    else if a.kind == cka_key_type
    then if obj.cls == cko_public_key || obj.cls == cko_private_key
      then give (number_bytes 8 (if is_ec obj.key_type then ckk_ec else ckk_rsa)) a
      else absent a
    else if a.kind == cka_certificate_type
    then if obj.cls == cko_certificate then give (number_bytes 8 0) a else absent a
    else if a.kind == cka_value
    then serve_certificate src obj (λ der. some der) a
    else if a.kind == cka_serial_number || a.kind == cka_issuer || a.kind == cka_subject
    then serve_certificate src obj (λ der. certificate_field der a.kind) a
    else serve_key_attribute src obj a
