-- ===== src/Pkcs11/Attribute.antt =====
-- PKCS#11 attributes and answers, as include/LibreSCRS/Agent/pkcs11/oasis/pkcs11t.h numbers them, and the buffer
-- protocol of src/pkcs11/DerivedKeys.cpp and Module.cpp. A number in a buffer is little-endian, as on the
-- machines that the agent runs on. A `CK_BBOOL` is its byte.
use libre_agent.Common.{
  ℕ, zero, suc, ◌+◌, ◌-◌, ◌*◌, ◌/◌, ◌%◌, ◌^◌, Option, none, some, List, [], ◌∷◌, ◌++◌, ◌==◌, ltb,
  if◌then◌else◌, length, take, drop, ◌≡◌, ◌⊎◌, inl, inr, refl,
}

pub data Rv : Type 0 where
  ok general_error function_failed arguments_bad cant_lock : Rv
  attribute_read_only attribute_sensitive attribute_type_invalid attribute_value_invalid : Rv
  action_prohibited buffer_too_small cryptoki_not_initialized cryptoki_already_initialized : Rv
  data_len_range device_error device_removed encrypted_data_len_range function_canceled : Rv
  function_not_supported function_rejected key_handle_invalid key_function_not_permitted : Rv
  key_type_inconsistent mechanism_invalid mechanism_param_invalid object_handle_invalid : Rv
  operation_active operation_not_initialized pin_incorrect session_handle_invalid : Rv
  session_parallel_not_supported slot_id_invalid template_incomplete template_inconsistent : Rv
  token_not_present user_already_logged_in user_not_logged_in user_type_invalid : Rv

-- `std::expected<A, CK_RV>`.
pub data Checked {ℓ} (A : Type ℓ) : Type ℓ where
  good : A → Checked A
  refused : Rv → Checked A

infixl 5 ◌>>=◌
abbrev pub ◌>>=◌ {ℓ κ} : {A : Type ℓ} {B : Type κ} → Checked A → (A → Checked B) → Checked B
good a >>= f = f a
refused rv >>= f = refused rv

pub Checked-cases {ℓ} :
    {A : Type ℓ} (r : Checked A) → ((a : A) × (r ≡ good a)) ⊎ ((rv : Rv) × (r ≡ refused rv))
Checked-cases (good a) = inl (a, refl)
Checked-cases (refused rv) = inr (rv, refl)

-- A `CK_ATTRIBUTE`; `value` is none for a null pointer, and else the caller's buffer.
pub record Attribute : Type 0 where
  pub kind : ℕ
  pub value : Option (List ℕ)
  pub value_len : ℕ

abbrev pub unavailable_information : ℕ
unavailable_information = 2 ^ 64 - 1

unfoldable pub give : List ℕ → Attribute → Rv × Attribute
give src a = elim a.value [
  | none ↦ (ok, record a { value_len = length src })
  | some buffer ↦
      if ltb a.value_len (length src)
      then (buffer_too_small, record a { value_len = unavailable_information })
      else (ok, record a { value = some (src ++ drop (length src) buffer); value_len = length src })
]

unfoldable pub read_number : List ℕ → ℕ
read_number [] = 0
read_number (b ∷ bytes) = b + 256 * read_number bytes

-- The bytes of a number, as many as the first argument says.
unfoldable pub number_bytes : ℕ → ℕ → List ℕ
number_bytes zero n = []
number_bytes (suc width) n = (n % 256) ∷ number_bytes width (n / 256)

-- `scalarOf` at a type of this many bytes, and `boolOf` at one.
unfoldable pub scalar_of : ℕ → Attribute → Option ℕ
scalar_of width a = elim a.value [
  | none ↦ none
  | some bytes ↦ if a.value_len == width then some (read_number (take width bytes)) else none
]

abbrev pub cka_class : ℕ
cka_class = 0

abbrev pub cka_token : ℕ
cka_token = 1

abbrev pub cka_private : ℕ
cka_private = 2

abbrev pub cka_label : ℕ
cka_label = 3

abbrev pub cka_value : ℕ
cka_value = 17

abbrev pub cka_certificate_type : ℕ
cka_certificate_type = 128

abbrev pub cka_issuer : ℕ
cka_issuer = 129

abbrev pub cka_serial_number : ℕ
cka_serial_number = 130

abbrev pub cka_key_type : ℕ
cka_key_type = 256

abbrev pub cka_subject : ℕ
cka_subject = 257

abbrev pub cka_id : ℕ
cka_id = 258

abbrev pub cka_sensitive : ℕ
cka_sensitive = 259

abbrev pub cka_encrypt : ℕ
cka_encrypt = 260

abbrev pub cka_decrypt : ℕ
cka_decrypt = 261

abbrev pub cka_wrap : ℕ
cka_wrap = 262

abbrev pub cka_unwrap : ℕ
cka_unwrap = 263

abbrev pub cka_sign : ℕ
cka_sign = 264

abbrev pub cka_verify : ℕ
cka_verify = 266

abbrev pub cka_derive : ℕ
cka_derive = 268

abbrev pub cka_value_len : ℕ
cka_value_len = 353

abbrev pub cka_modulus : ℕ
cka_modulus = 288

abbrev pub cka_modulus_bits : ℕ
cka_modulus_bits = 289

abbrev pub cka_public_exponent : ℕ
cka_public_exponent = 290

abbrev pub cka_ec_params : ℕ
cka_ec_params = 384

abbrev pub cka_ec_point : ℕ
cka_ec_point = 385

abbrev pub cka_always_authenticate : ℕ
cka_always_authenticate = 514

abbrev pub cka_extractable : ℕ
cka_extractable = 354

abbrev pub cka_local : ℕ
cka_local = 355

abbrev pub cka_never_extractable : ℕ
cka_never_extractable = 356

abbrev pub cka_always_sensitive : ℕ
cka_always_sensitive = 357

abbrev pub cka_key_gen_mechanism : ℕ
cka_key_gen_mechanism = 358

abbrev pub cko_certificate : ℕ
cko_certificate = 1

abbrev pub cko_public_key : ℕ
cko_public_key = 2

abbrev pub cko_private_key : ℕ
cko_private_key = 3

abbrev pub cko_secret_key : ℕ
cko_secret_key = 4

abbrev pub ckk_rsa : ℕ
ckk_rsa = 0

abbrev pub ckk_ec : ℕ
ckk_ec = 3

abbrev pub ckk_generic_secret : ℕ
ckk_generic_secret = 16

abbrev pub ckk_aes : ℕ
ckk_aes = 31

abbrev pub ckm_rsa_pkcs : ℕ
ckm_rsa_pkcs = 1

abbrev pub ckm_sha256_rsa_pkcs : ℕ
ckm_sha256_rsa_pkcs = 64

abbrev pub ckm_ecdsa : ℕ
ckm_ecdsa = 4161

abbrev pub ckm_ecdh1_derive : ℕ
ckm_ecdh1_derive = 4176
