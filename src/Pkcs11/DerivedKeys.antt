-- ===== src/Pkcs11/DerivedKeys.antt =====
-- src/pkcs11/DerivedKeys.cpp: the secret keys that C_DeriveKey makes, the template that asks for one, and how
-- its attributes are served and searched. The wiping of memory is left out.
pub mod Secrecy
mod Runs
use libre_agent.Common.{
  ℕ, ◌-◌, Bool, true, false, not, ◌&&◌, ◌||◌, Option, none, some, List, [], ◌∷◌, ◌++◌, ◌==◌, ltb,
  if◌then◌else◌, length, take, drop,
}
use libre_agent.Pkcs11.Attribute.{
  Rv, Checked, good, refused, ◌>>=◌, Attribute, unavailable_information, give, number_bytes,
  scalar_of, cka_class, cka_token, cka_private, cka_label, cka_value, cka_key_type, cka_id,
  cka_sensitive, cka_encrypt, cka_decrypt, cka_wrap, cka_unwrap, cka_sign, cka_verify, cka_derive,
  cka_value_len, cka_extractable, cka_local, cka_never_extractable, cka_always_sensitive,
  cka_key_gen_mechanism, cko_secret_key, ckk_generic_secret, ckk_aes,
}

pub record DerivedKeyTemplate : Type 0 where
  pub key_type : ℕ
  pub value_len : Option ℕ
  pub sensitive : Bool
  pub extractable : Bool
  pub label : List ℕ
  pub id : List ℕ
  pub usage : List (ℕ × ℕ)

abbrev pub default_template : DerivedKeyTemplate
default_template = record {
  key_type = ckk_generic_secret;
  value_len = none;
  sensitive = true;
  extractable = false;
  label = [];
  id = [];
  usage = [];
}

pub record DerivedKey : Type 0 where
  pub slot : ℕ
  pub creator : ℕ
  pub attributes : DerivedKeyTemplate
  pub value : List ℕ

unfoldable pub is_usage_attribute : ℕ → Bool
is_usage_attribute t =
    t == cka_encrypt
    || t == cka_decrypt
    || t == cka_wrap
    || t == cka_unwrap
    || t == cka_sign
    || t == cka_verify
    || t == cka_derive

-- The last value given for a usage, and false where none was.
unfoldable pub usage_among : ℕ → ℕ → List (ℕ × ℕ) → ℕ
usage_among kind v [] = v
usage_among kind v ((attr, w) ∷ more) = usage_among kind (if attr == kind then w else v) more

unfoldable pub usage_of : DerivedKeyTemplate → ℕ → ℕ
unfolding usage_among
usage_of t kind = usage_among kind 0 t.usage

abbrev pub invalid : Checked DerivedKeyTemplate
invalid = refused Rv.attribute_value_invalid

abbrev pub inconsistent : Checked DerivedKeyTemplate
inconsistent = refused Rv.template_inconsistent

unfoldable pub want_class : Attribute → DerivedKeyTemplate → Checked DerivedKeyTemplate
want_class a t = elim (scalar_of 8 a) [
  | none ↦ invalid
  | some c ↦ if not (c == cko_secret_key) then inconsistent else good t
]

unfoldable pub want_key_type : Attribute → DerivedKeyTemplate → Checked DerivedKeyTemplate
want_key_type a t = elim (scalar_of 8 a) [
  | none ↦ invalid
  | some k ↦
      if not (k == ckk_generic_secret) && not (k == ckk_aes)
      then inconsistent
      else good (record t { key_type = k })
]

unfoldable pub want_value_len : Attribute → DerivedKeyTemplate → Checked DerivedKeyTemplate
want_value_len a t = elim (scalar_of 8 a) [
  | none ↦ invalid
  | some n ↦ if n == 0 then invalid else good (record t { value_len = some n })
]

-- A flag that must have one value: no token storage, and a secret is never public.
unfoldable pub want_flag : Bool → Attribute → DerivedKeyTemplate → Checked DerivedKeyTemplate
want_flag wanted a t = elim (scalar_of 1 a) [
  | none ↦ invalid
  | some b ↦ if (if wanted then b == 0 else not (b == 0)) then inconsistent else good t
]

unfoldable pub want_protection : Attribute → DerivedKeyTemplate → Checked DerivedKeyTemplate
want_protection a t = elim (scalar_of 1 a) [
  | none ↦ invalid
  | some b ↦
      if a.kind == cka_sensitive
      then good (record t { sensitive = not (b == 0) })
      else good (record t { extractable = not (b == 0) })
]

unfoldable pub want_bytes :
    (List ℕ → DerivedKeyTemplate) → Attribute → DerivedKeyTemplate → Checked DerivedKeyTemplate
want_bytes put a t = elim a.value [
  | none ↦ if not (a.value_len == 0) then invalid else good t
  | some bytes ↦ good (put (take a.value_len bytes))
]

unfoldable pub want_usage : Attribute → DerivedKeyTemplate → Checked DerivedKeyTemplate
want_usage a t = elim (scalar_of 1 a) [
  | none ↦ invalid
  | some b ↦ good (record t { usage = t.usage ++ ((a.kind, b) ∷ []) })
]

-- What the module decides for a key that it makes.
unfoldable pub is_read_only : ℕ → Bool
is_read_only kind =
    kind == cka_local
    || kind == cka_always_sensitive
    || kind == cka_never_extractable
    || kind == cka_key_gen_mechanism
    || kind == cka_value

-- One round of the loop in `parseDerivedKeyTemplate`.
unfoldable pub want : Attribute → DerivedKeyTemplate → Checked DerivedKeyTemplate
want a t =
    if is_usage_attribute a.kind
    then want_usage a t
    else if a.kind == cka_class
    then want_class a t
    else if a.kind == cka_key_type
    then want_key_type a t
    else if a.kind == cka_value_len
    then want_value_len a t
    else if a.kind == cka_token
    then want_flag false a t
    else if a.kind == cka_private
    then want_flag true a t
    else if a.kind == cka_sensitive || a.kind == cka_extractable
    then want_protection a t
    else if a.kind == cka_label
    then want_bytes (λ bytes. record t { label = bytes }) a t
    else if a.kind == cka_id
    then want_bytes (λ bytes. record t { id = bytes }) a t
    else if is_read_only a.kind
    then refused Rv.attribute_read_only
    else refused Rv.attribute_type_invalid

unfoldable pub want_all : List Attribute → DerivedKeyTemplate → Checked DerivedKeyTemplate
want_all [] t = good t
want_all (a ∷ tmpl) t = want a t >>= want_all tmpl

unfoldable pub check_length : DerivedKeyTemplate → Checked DerivedKeyTemplate
check_length t = if not (t.key_type == ckk_aes) then good t else elim t.value_len [
  | none ↦ refused Rv.template_incomplete
  | some n ↦ if n == 16 || n == 24 || n == 32 then good t else invalid
]

-- `tmpl` is none for a null pointer; `count` is the length of a template that is there.
unfoldable pub parse_derived_key_template : Option (List Attribute) → ℕ → Checked DerivedKeyTemplate
unfolding want_all check_length
parse_derived_key_template none count =
    if ltb 0 count then refused Rv.arguments_bad else check_length default_template
parse_derived_key_template (some tmpl) count = want_all tmpl default_template >>= check_length

-- All of Z, or its last bytes.
unfoldable pub derived_key_value : List ℕ → DerivedKeyTemplate → Checked (List ℕ)
derived_key_value z t = elim t.value_len [
  | none ↦ good z
  | some n ↦
      if ltb (length z) n then refused Rv.template_inconsistent else good (drop (length z - n) z)
]

unfoldable pub give_flag : Bool → Attribute → Rv × Attribute
unfolding give
give_flag b a = give ((if b then 1 else 0) ∷ []) a

unfoldable pub serve_value : DerivedKey → Attribute → Rv × Attribute
unfolding give
serve_value key a =
    if key.attributes.sensitive || not key.attributes.extractable
    then (Rv.attribute_sensitive, record a { value_len = unavailable_information })
    else give key.value a

unfoldable pub serve_derived_key_attribute : DerivedKey → Attribute → Rv × Attribute
unfolding give_flag serve_value usage_of
serve_derived_key_attribute key a =
    let t = key.attributes in
    if a.kind == cka_class
    then give (number_bytes 8 cko_secret_key) a
    else if a.kind == cka_key_type
    then give (number_bytes 8 t.key_type) a
    else if a.kind == cka_token || a.kind == cka_local
    then give_flag false a
    else if a.kind == cka_private
    then give_flag true a
    else if a.kind == cka_sensitive || a.kind == cka_always_sensitive
    then give_flag t.sensitive a
    else if a.kind == cka_extractable
    then give_flag t.extractable a
    else if a.kind == cka_never_extractable
    then give_flag (not t.extractable) a
    else if a.kind == cka_value_len
    then give (number_bytes 8 (length key.value)) a
    else if a.kind == cka_value
    then serve_value key a
    else if a.kind == cka_label
    then give t.label a
    else if a.kind == cka_id
    then give t.id a
    else if is_usage_attribute a.kind
    then give_flag (not (usage_of t a.kind == 0)) a
    else (Rv.attribute_type_invalid, a)

unfoldable pub equal_bytes : List ℕ → List ℕ → Bool
equal_bytes [] [] = true
equal_bytes [] (y ∷ ys) = false
equal_bytes (x ∷ xs) [] = false
equal_bytes (x ∷ xs) (y ∷ ys) = x == y && equal_bytes xs ys

-- A selector that names a value passes where the test does; one that names none passes.
abbrev pub passes : Option ℕ → (ℕ → Bool) → Bool
passes none test = true
passes (some v) test = test v

unfoldable pub same_bytes : Attribute → List ℕ → Bool
unfolding equal_bytes
same_bytes a bytes = elim a.value [
  | none ↦ true
  | some wanted ↦ equal_bytes (take a.value_len wanted) bytes
]

unfoldable pub matches_one : DerivedKey → Attribute → Bool
unfolding same_bytes
matches_one key a =
    if a.kind == cka_class
    then passes (scalar_of 8 a) (λ c. c == cko_secret_key)
    else if a.kind == cka_key_type
    then passes (scalar_of 8 a) (λ k. k == key.attributes.key_type)
    else if a.kind == cka_token
    then passes (scalar_of 1 a) (λ b. b == 0)
    else if a.kind == cka_private
    then passes (scalar_of 1 a) (λ b. not (b == 0))
    else if a.kind == cka_id
    then same_bytes a key.attributes.id
    else if a.kind == cka_label
    then same_bytes a key.attributes.label
    else true

unfoldable pub derived_key_matches : DerivedKey → List Attribute → Bool
unfolding matches_one
derived_key_matches key [] = true
derived_key_matches key (a ∷ tmpl) = matches_one key a && derived_key_matches key tmpl
