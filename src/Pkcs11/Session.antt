-- ===== src/Pkcs11/Session.antt =====
-- src/pkcs11/SessionState.cpp: what the PKCS#11 module keeps for its application: sessions with the cursors of
-- their operations, logins, derived keys, the slots of the last snapshot, and the handles of objects. `std::map`
-- is an association list; the index of a slot into the model and the slot there are one entry of `slots`.
pub use libre_agent.Pkcs11.DerivedKeys.{DerivedKey}
pub mod Model
pub mod Login
pub mod Keys
pub mod Handle
mod Runs
use libre_agent.Common.{
  ℕ, ◌+◌, ◌-◌, ◌*◌, ◌/◌, ◌%◌, ◌^◌, Bool, true, false, not, ◌&&◌, ◌||◌, Option, none, some, List, [],
  ◌∷◌, ◌==◌, leb, if◌then◌else◌, nat_key, get_elem?,
}
use libre_agent.Common.{String}
use libre_agent.Pkcs11.Attribute.{ckm_rsa_pkcs}
use libre_agent.Pkcs11.Objects.{KeyType, Slot}
use libre_agent.Common.Map
use libre_agent.Common.Map.{Map}

pub record SignCursor : Type 0 where
  pub active : Bool
  pub reader : String
  pub cert_id : String
  pub key_bits : ℕ
  pub mechanism : ℕ
  pub key_type : KeyType
  pub accumulated : List ℕ

abbrev pub no_sign : SignCursor
no_sign = record {
  active = false;
  reader = "";
  cert_id = "";
  key_bits = 0;
  mechanism = ckm_rsa_pkcs;
  key_type = KeyType.other;
  accumulated = [];
}

pub record DecryptCursor : Type 0 where
  pub active : Bool
  pub reader : String
  pub cert_id : String
  pub key_bits : ℕ
  pub accumulated : List ℕ

abbrev pub no_decrypt : DecryptCursor
no_decrypt = record { active = false; reader = ""; cert_id = ""; key_bits = 0; accumulated = [] }

-- `left` are the matches from `next` on.
pub record FindCursor : Type 0 where
  pub active : Bool
  pub left : List ℕ

abbrev pub no_find : FindCursor
no_find = record { active = false; left = [] }

pub record Session : Type 0 where
  pub slot : ℕ
  pub flags : ℕ
  pub find : FindCursor
  pub sign : SignCursor
  pub decrypt : DecryptCursor
  pub rpc_in_flight : Bool

abbrev pub new_session : ℕ → ℕ → Session
new_session slot flags = record {
  slot = slot;
  flags = flags;
  find = no_find;
  sign = no_sign;
  decrypt = no_decrypt;
  rpc_in_flight = false;
}

pub record SlotLogin : Type 0 where
  pub logged_in : Bool
  pub generation : ℕ
  pub checked_at : ℕ

pub record SessionState : Type 0 where
  pub slots : Map ℕ Slot
  pub reader_to_slot : Map String ℕ
  pub next_slot_id : ℕ
  pub sessions : Map ℕ Session
  pub next_session : ℕ
  pub logins : Map ℕ SlotLogin
  pub derived : Map ℕ DerivedKey
  pub next_derived : ℕ

abbrev pub empty : SessionState
empty = record {
  slots = [];
  reader_to_slot = [];
  next_slot_id = 0;
  sessions = [];
  next_session = 1;
  logins = [];
  derived = [];
  next_derived = 1;
}

-- `emplace`: a key that is there keeps its value.
unfoldable pub emplace : {V : Type 0} → ℕ → V → Map ℕ V → Map ℕ V
emplace key v m = elim (Map.lookup key m) [ none ↦ Map.insert key v m | some _ ↦ m ]

unfoldable pub open_session : ℕ → ℕ → SessionState → SessionState × ℕ
open_session slot flags s = (
  record s {
    sessions = emplace s.next_session (new_session slot flags) s.sessions;
    next_session = (s.next_session + 1) % 2 ^ 64;
  },
  s.next_session,
)

unfoldable pub any_on_slot : ℕ → Map ℕ Session → Bool
any_on_slot slot [] = false
any_on_slot slot ((h, s) ∷ sessions) = s.slot == slot || any_on_slot slot sessions

unfoldable pub slot_has_sessions : ℕ → SessionState → Bool
slot_has_sessions slot s = any_on_slot slot s.sessions

unfoldable pub is_logged_in : ℕ → SessionState → Bool
is_logged_in slot s = elim (Map.lookup slot s.logins) [ none ↦ false | some l ↦ l.logged_in ]

abbrev pub new_login : SlotLogin
new_login = record { logged_in = false; generation = 0; checked_at = 0 }

unfoldable pub login_of : ℕ → SessionState → SlotLogin
login_of slot s = elim (Map.lookup slot s.logins) [ none ↦ new_login | some l ↦ l ]

unfoldable pub set_logged_in : ℕ → ℕ → SessionState → SessionState
set_logged_in slot now s =
    let l = login_of slot s in
    record s {
      logins =
          Map.insert slot
            (record {
              logged_in = true;
              generation = (l.generation + 1) % 2 ^ 64;
              checked_at = now;
            })
            s.logins;
    }

unfoldable pub destroy_derived_keys_of_slot : ℕ → SessionState → SessionState
destroy_derived_keys_of_slot slot s = record s {
  derived = Map.erase_if (λ h key. key.slot == slot) s.derived;
}

unfoldable pub destroy_derived_keys_of_session : ℕ → SessionState → SessionState
destroy_derived_keys_of_session creator s = record s {
  derived = Map.erase_if (λ h key. key.creator == creator) s.derived;
}

abbrev pub logged_out : SlotLogin → SlotLogin
logged_out l = record l { logged_in = false }

unfoldable pub end_login : ℕ → SessionState → SessionState
end_login slot s =
    destroy_derived_keys_of_slot slot (record s { logins = Map.modify slot logged_out s.logins })

unfoldable pub close_session : ℕ → SessionState → SessionState × Bool
close_session h s =
    let wiped = destroy_derived_keys_of_session h s in
    elim (Map.lookup h wiped.sessions) [
      | none ↦ (wiped, false)
      | some gone ↦
          let left = record wiped { sessions = Map.erase h wiped.sessions } in
          if not (slot_has_sessions gone.slot left)
          then (end_login gone.slot left, true)
          else (left, true)
    ]

unfoldable pub close_all_sessions : ℕ → SessionState → SessionState
close_all_sessions slot s =
    let out = end_login slot s in
    record out { sessions = Map.erase_if (λ h x. x.slot == slot) out.sessions }

unfoldable pub login_generation : ℕ → SessionState → ℕ
login_generation slot s = elim (Map.lookup slot s.logins) [ none ↦ 0 | some l ↦ l.generation ]

abbrev pub login_check_interval : ℕ
login_check_interval = 1000000000

unfoldable pub login_check_due : ℕ → ℕ → SessionState → Bool
login_check_due slot now s = elim (Map.lookup slot s.logins) [
  | none ↦ false
  | some l ↦ l.logged_in && leb (l.checked_at + login_check_interval) now
]

abbrev pub checked : ℕ → SlotLogin → SlotLogin
checked now l = record l { checked_at = now }

unfoldable pub mark_login_checked : ℕ → ℕ → SessionState → SessionState
mark_login_checked slot now s = record s { logins = Map.modify slot (checked now) s.logins }

-- `kDerivedHandleBit | m_nextDerived++`, with the counter's own top bit lost in the bit.
unfoldable pub add_derived_key : DerivedKey → SessionState → SessionState × ℕ
add_derived_key key s =
    let h = 2 ^ 63 + s.next_derived % 2 ^ 63 in
    (
      record s { derived = emplace h key s.derived; next_derived = (s.next_derived + 1) % 2 ^ 64 },
      h,
    )

unfoldable pub derived_key : ℕ → ℕ → SessionState → Option DerivedKey
derived_key session h s = elim (Map.lookup session s.sessions) [
  | none ↦ none
  | some x ↦ elim (Map.lookup h s.derived) [
    | none ↦ none
    | some key ↦ if not (key.slot == x.slot) || not (is_logged_in x.slot s) then none else some key
  ]
]

unfoldable pub destroy_derived_key : ℕ → SessionState → SessionState × Bool
destroy_derived_key h s = (
  record s { derived = Map.erase h s.derived },
  elim (Map.lookup h s.derived) [ none ↦ false | some _ ↦ true ],
)

-- The slot in the high 32 bits, the index and one in the low ones; the two halves do not overlap, so the
-- `|` is a sum.
unfoldable pub encode_handle : ℕ → ℕ → ℕ
encode_handle slot index = slot * 2 ^ 32 % 2 ^ 64 + (index + 1) % 2 ^ 32

-- The objects are those of `slotById`, where there is such a slot.
unfoldable pub resolve_object : {O : Type 0} → (ℕ → Option (List O)) → ℕ → ℕ → Option O
resolve_object slot_by_id slot h =
    let raw_index = h % 2 ^ 32 in
    if not (h / 2 ^ 32 == slot) || raw_index == 0
    then none
    else elim (slot_by_id slot) [ none ↦ none | some objects ↦ get_elem? objects (raw_index - 1) ]
