-- ===== src/Pkcs11/Module/Runs.antt =====
-- The C_* functions at concrete calls.
use libre_agent.Common.{
  ℕ, ◌≡◌, ◌^◌, ◌≤◌, ◌<◌, refl, true, false, not, ◌&&◌, ◌||◌, none, some, List, [], ◌∷◌, ◌==◌, arith,
  length, if◌then◌else◌, nat_key, take,
}
use libre_agent.Common.Map
use libre_agent.Pkcs11.Attribute.{
  Rv, ckm_ecdh1_derive, ckm_rsa_pkcs, ckm_ecdsa, cka_issuer, cko_private_key,
}
use libre_agent.Pkcs11.DerivedKeys.{default_template}
use libre_agent.Pkcs11.Objects.{KeyType, Slot, Object}
use libre_agent.Pkcs11.Session.{
  encode_handle, Session, SessionState, no_sign, no_decrypt, new_session, empty, new_login,
}
use libre_agent.Pkcs11.Module.{Status, signature_length, is_ok, resume, mark_in_flight}
use libre_agent.Pkcs11.Module.Sign.{
  SignCall, sign, sign_call, begin_sign, ask_sign, conclude_sign, finish_sign, is_length_question,
}
use libre_agent.Pkcs11.Module.Sign.Ends.{sign_delivers}
use libre_agent.Pkcs11.Module.Decrypt.{DecryptCall, decrypt}
use libre_agent.Pkcs11.Module.Derive.{DeriveRequest, DeriveCall}
use libre_agent.Pkcs11.Module.Process.{end_finalize}
use libre_agent.Pkcs11.Module.Process.Lifetime.{
  Event, initializes, finalizes, refreshes, after, is_initialized, nobody_asks, library_outlives,
}
use libre_agent.Pkcs11.Module.Serve.{Sources, no_key}
use libre_agent.Pkcs11.Module.Find.{found, find_init}
use libre_agent.Pkcs11.Module.Find.Batches.{batches, total, batches-find_init}
use libre_agent.Pkcs11.Module.Certificate.{certificate_field, field_of, take_tagged, read_fields}
use libre_agent.Pkcs11.Der.Encoding.{element, length_bytes}
use libre_agent.Pkcs11.Module.Certificate.Fields.{
  Tbs, tbs_bytes, from_serial, certificate_bytes, certificate_field-certificate_bytes,
}

abbrev key : Object
key = record {
  cls = cko_private_key;
  cka_id = 1 ∷ [];
  label = "Signing";
  cert_id = "a";
  key_type = KeyType.rsa;
  key_bits = 16;
  derive = false;
  sign = true;
  decrypt = true;
  always_authenticate = false;
}

abbrev slot : Slot
slot = record {
  reader_path = "r";
  reader_name = "Reader";
  token_present = true;
  token_label = "Holder";
  token_serial = "42";
  objects = key ∷ [];
  mechanisms = ckm_rsa_pkcs ∷ [];
}

-- A session that has begun to sign and to decrypt.
abbrev busy : Session
busy = record (new_session 4 4) {
  sign = record no_sign {
    active = true;
    reader = "r";
    cert_id = "a";
    key_bits = 16;
    key_type = KeyType.rsa;
    accumulated = 5 ∷ 6 ∷ [];
  };
  decrypt = record no_decrypt { active = true; reader = "r"; cert_id = "a"; key_bits = 16 };
}

abbrev start : SessionState
start = record empty {
  slots = (4, slot) ∷ [];
  reader_to_slot = ("r", 4) ∷ [];
  next_slot_id = 5;
  sessions = (1, busy) ∷ [];
  next_session = 2;
  logins = (4, record new_login { logged_in = true }) ∷ [];
}

start_busy : Map.lookup 1 start.sessions ≡ some busy
unfolding Map.running
start_busy = refl

-- The card fails.
abbrev failing : SignCall → Status × List ℕ
failing q = (Status.communication, [])

-- The card signs the parts.
abbrev echo : SignCall → Status × List ℕ
echo q = (Status.ok, q.input)

signed : (sign 1 none false 2 echo start).0.out ≡ some (5 ∷ 6 ∷ [])
unfolding sign begin_sign sign_call ask_sign conclude_sign finish_sign is_length_question
    signature_length is_ok resume Map.running
signed = refl

sign_delivers_example :
    ((q : SignCall) × (echo q ≡ (Status.ok, 5 ∷ 6 ∷ []))
      × (q.session ≡ 1)
      × (q.cursor ≡ busy.sign)
      × (q.input ≡ 5 ∷ 6 ∷ []))
    × (busy.sign.active ≡ true)
    × (false ≡ false)
    × (2 ≤ 2)
    × ((busy.sign.mechanism == ckm_ecdsa && not (2 == 2)) ≡ false)
sign_delivers_example = sign_delivers 1 none false 2 echo start busy (5 ∷ 6 ∷ []) start_busy signed

abbrev lapsing : DecryptCall → Status × List ℕ
lapsing q = (Status.user_not_logged_in, [])

-- A slot with a key on a curve of 16 bits, which derives.
abbrev agreeing : Slot
agreeing = record slot {
  objects = (record key { key_type = KeyType.ec; derive = true }) ∷ [];
  mechanisms = ckm_ecdh1_derive ∷ [];
}

abbrev before_derive : SessionState
before_derive = record start { slots = (4, agreeing) ∷ [] }

abbrev point : List ℕ
point = 4 ∷ 0 ∷ 1 ∷ 0 ∷ 2 ∷ []

abbrev asked_for : DeriveRequest
asked_for = record {
  session = 1;
  mechanism = ckm_ecdh1_derive;
  params = some (record { kdf = 1; shared_data_len = 0; public_data = some point });
  base_key = encode_handle 4 0;
  template = none;
  count = 0;
}

abbrev derivation : DeriveCall
derivation = record {
  session = 1;
  slot = 4;
  reader = "r";
  cert_id = "a";
  token_serial = "42";
  peer_point = point;
  wanted = default_template;
}

-- While the card works another session is opened.
abbrev answered : SessionState
answered = record (mark_in_flight 1 before_derive) { next_session = 3 }

-- A refresh is at the agent when another thread ends its wait in C_Finalize.
abbrev past : List Event
past = finalizes ∷ refreshes ∷ initializes none ∷ []

library_outlives_example :
    ((is_initialized (after past).process || nobody_asks (after past)) ≡ true)
    × (end_finalize (after past).process ≡ (
        if nobody_asks (after past)
        then (Rv.ok, record (after past).process { library = none })
        else (Rv.function_failed, (after past).process)))
library_outlives_example = library_outlives past

abbrev nothing_of : Object → Sources
nothing_of obj = record {
  label = [];
  public_key = no_key Status.not_supported;
  der = (Status.communication, []);
}

batches-find_init_example :
    batches 1 (1 ∷ 2 ∷ []) (find_init nothing_of 1 [] start).1
    ≡ take (total (1 ∷ 2 ∷ [])) (found nothing_of 1 4 [] start)
batches-find_init_example =
    batches-find_init nothing_of 1 [] (1 ∷ 2 ∷ []) start busy start_busy refl

abbrev fields : Tbs
fields = record {
  version = some (2 ∷ 1 ∷ 2 ∷ []);
  serial = 77 ∷ [];
  signature = [];
  issuer = 1 ∷ 2 ∷ [];
  validity = [];
  subject = 3 ∷ [];
  others = 48 ∷ 0 ∷ [];
}

fields_short : length (certificate_bytes fields (3 ∷ 0 ∷ [])) < 2 ^ 32
unfolding certificate_bytes tbs_bytes from_serial element length_bytes
fields_short = omega arith

certificate_field_example :
    certificate_field (certificate_bytes fields (3 ∷ 0 ∷ [])) cka_issuer
    ≡ some (element 48 (1 ∷ 2 ∷ []))
certificate_field_example =
    certificate_field-certificate_bytes fields (3 ∷ 0 ∷ []) cka_issuer fields_short

-- The issuer is cut as it is encoded.
issuer_cut :
    certificate_field (certificate_bytes fields (3 ∷ 0 ∷ [])) cka_issuer
    ≡ some (48 ∷ 2 ∷ 1 ∷ 2 ∷ [])
unfolding certificate_bytes tbs_bytes from_serial element length_bytes certificate_field take_tagged
    read_fields field_of
issuer_cut = refl
