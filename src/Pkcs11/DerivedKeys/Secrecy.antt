-- ===== src/Pkcs11/DerivedKeys/Secrecy.antt =====
-- When the value of a derived key leaves the module.
use libre_agent.Common.{
  ℕ, ◌≡◌, refl, Bool, true, false, not, ◌&&◌, none, some, List, [], ◌∷◌, ◌==◌, arith, if◌then◌else◌,
  any_of, ap, inl, inr, Bool-cases,
}
use libre_agent.Pkcs11.Attribute.{
  Rv, good, Attribute, scalar_of, cka_sensitive, cka_extractable, cka_value, Checked-cases,
  unavailable_information,
}
use libre_agent.Pkcs11.DerivedKeys.{
  DerivedKeyTemplate, default_template, DerivedKey, want, want_all, check_length,
  parse_derived_key_template, want_usage, want_class, want_key_type, want_value_len, want_flag,
  want_protection, want_bytes, serve_derived_key_attribute, serve_value, is_usage_attribute,
}

-- Whether an attribute of a template gives a flag this value.
abbrev pub says : ℕ → Bool → Attribute → Bool
says kind b a =
    (a.kind == kind)
    && elim (scalar_of 1 a) [ none ↦ false | some n ↦ if b then not (n == 0) else n == 0 ]

module _ (a : Attribute) (t : DerivedKeyTemplate) {u : DerivedKeyTemplate}
    (h : want a t ≡ good u) where
  want-sensitive : t.sensitive ≡ true → says cka_sensitive false a ≡ false → u.sensitive ≡ true
  unfolding want want_usage want_class want_key_type want_value_len want_flag want_protection
      want_bytes
  want-sensitive s silent = ground (arith, h)

  want-extractable :
      t.extractable ≡ false → says cka_extractable true a ≡ false → u.extractable ≡ false
  unfolding want want_usage want_class want_key_type want_value_len want_flag want_protection
      want_bytes is_usage_attribute
  want-extractable s silent = ground (arith, h)

want_all-sensitive :
    (tmpl : List Attribute) (t : DerivedKeyTemplate) {u : DerivedKeyTemplate}
    → want_all tmpl t ≡ good u
    → t.sensitive ≡ true
    → any_of (says cka_sensitive false) tmpl ≡ false
    → u.sensitive ≡ true
unfolding want_all
want_all-sensitive [] t h s silent = ground (arith, h)
want_all-sensitive (a ∷ tmpl) t {u} h s silent = elim (Checked-cases (want a t)) [
  | inl (v, e) ↦
      want_all-sensitive tmpl v {u = u} (ground (arith, h, e))
        (want-sensitive a t e s (ground arith)) (ground arith)
  | inr (rv, e) ↦ absurd (ground (arith, h, e))
]

want_all-extractable :
    (tmpl : List Attribute) (t : DerivedKeyTemplate) {u : DerivedKeyTemplate}
    → want_all tmpl t ≡ good u
    → t.extractable ≡ false
    → any_of (says cka_extractable true) tmpl ≡ false
    → u.extractable ≡ false
unfolding want_all
want_all-extractable [] t h s silent = ground (arith, h)
want_all-extractable (a ∷ tmpl) t {u} h s silent = elim (Checked-cases (want a t)) [
  | inl (v, e) ↦
      want_all-extractable tmpl v {u = u} (ground (arith, h, e))
        (want-extractable a t e s (ground arith)) (ground arith)
  | inr (rv, e) ↦ absurd (ground (arith, h, e))
]

check_length_same :
    (t : DerivedKeyTemplate) {u : DerivedKeyTemplate} → check_length t ≡ good u → t ≡ u
unfolding check_length
check_length_same t h = ground (arith, h)

-- The value of a key that was derived from a template is kept back, and the caller's buffer left as it was, unless
-- the template itself said that the key is not sensitive and also that it can be extracted.
pub value_kept_back :
    (tmpl : List Attribute) (count : ℕ) (key : DerivedKey) (a : Attribute)
    → parse_derived_key_template (some tmpl) count ≡ good key.attributes
    → a.kind ≡ cka_value
    → (any_of (says cka_sensitive false) tmpl && any_of (says cka_extractable true) tmpl) ≡ false
    → serve_derived_key_attribute key a
      ≡ (Rv.attribute_sensitive, record a { value_len = unavailable_information })
unfolding parse_derived_key_template serve_derived_key_attribute serve_value
value_kept_back tmpl count key a h k silent =
    elim (Checked-cases (want_all tmpl default_template)) [
      | inr (rv, e) ↦ absurd (ground (arith, h, e))
      | inl (t, e) ↦
          let same = check_length_same t {u = key.attributes} (ground (arith, h, e)) in
          elim (Bool-cases (any_of (says cka_sensitive false) tmpl)) [
            | inr unsaid ↦ ground (
              arith,
              k,
              ap (λ (t' : DerivedKeyTemplate). t'.sensitive) same,
              want_all-sensitive tmpl default_template e refl unsaid,
            )
            | inl said ↦ ground (
              arith,
              k,
              ap (λ (t' : DerivedKeyTemplate). t'.extractable) same,
              want_all-extractable tmpl default_template e refl (ground (arith, silent, said)),
            )
          ]
    ]
