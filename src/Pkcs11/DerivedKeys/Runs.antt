-- ===== src/Pkcs11/DerivedKeys/Runs.antt =====
-- Derived keys at concrete templates.
use libre_agent.Common.{◌≡◌, ◌∷◌, [], List, some, refl, false}
use libre_agent.Pkcs11.Attribute.{
  Rv, Attribute, good, cka_sensitive, cka_value, cka_value_len, scalar_of, read_number,
  unavailable_information,
}
use libre_agent.Pkcs11.DerivedKeys.{
  DerivedKeyTemplate, default_template, DerivedKey, parse_derived_key_template, want,
  want_value_len, want_protection, is_usage_attribute, serve_derived_key_attribute,
}
use libre_agent.Pkcs11.DerivedKeys.Secrecy.{value_kept_back}

-- Sixteen bytes, not sensitive, and nothing said of their extraction.
abbrev tmpl : List Attribute
tmpl =
    record {
      kind = cka_value_len;
      value = some (16 ∷ 0 ∷ 0 ∷ 0 ∷ 0 ∷ 0 ∷ 0 ∷ 0 ∷ []);
      value_len = 8;
    }
    ∷ record { kind = cka_sensitive; value = some (0 ∷ []); value_len = 1 }
    ∷ []

abbrev asked : DerivedKeyTemplate
asked = record default_template { value_len = some 16; sensitive = false }

abbrev key : DerivedKey
key = record { slot = 0; creator = 1; attributes = asked; value = 7 ∷ 8 ∷ [] }

abbrev query : Attribute
query = record { kind = cka_value; value = some (0 ∷ 0 ∷ []); value_len = 2 }

tmpl_read : parse_derived_key_template (some tmpl) 2 ≡ good asked
unfolding parse_derived_key_template want want_value_len want_protection is_usage_attribute
    scalar_of read_number
tmpl_read = refl

value_kept_back_example :
    serve_derived_key_attribute key query
    ≡ (Rv.attribute_sensitive, record query { value_len = unavailable_information })
unfolding scalar_of read_number
value_kept_back_example = value_kept_back tmpl 2 key query tmpl_read refl refl
