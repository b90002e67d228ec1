-- ===== src/Operations/CardSession.antt =====
-- src/operations/CardSessionHolder.cpp: the one connection that the worker of a reader keeps to its card, in use or
-- parked as the power hold. A connection and a plugin are numbers; what is done to them stands in a log,
-- the newest first. What the factory, the resolver, the plugins and the clock answer are arguments, `threw`
-- or none where they throw; a null candidate is left out.
pub mod Clean
pub mod History
mod Runs
use libre_agent.Common.{
  ℕ, ◌+◌, Bool, true, false, Option, none, some, List, [], ◌∷◌, ◌++◌, map, leb, if◌then◌else◌,
}
use libre_agent.Pkcs11.Objects.{PreReadAuth, needs_nothing}

pub data Effect : Type 0 where
  opened : ℕ → Effect
  handed_out : ℕ → List ℕ → Effect
  cleared_credentials : ℕ → ℕ → Effect
  cleared_pace : ℕ → Effect
  cleared_channel : ℕ → Effect
  closed : ℕ → Effect

pub record Holder : Type 0 where
  pub session : Option ℕ
  pub hold : Option ℕ
  pub candidates : List ℕ
  pub pre_read_auth : Option PreReadAuth
  pub last_used : ℕ
  pub log : List Effect

abbrev pub new_holder : Holder
new_holder = record {
  session = none;
  hold = none;
  candidates = [];
  pre_read_auth = none;
  last_used = 0;
  log = [];
}

-- What the factory does.
pub data Opening : Type 0 where
  opens : ℕ → Opening
  fails : Opening
  threw : Opening

pub data Acquired : Type 0 where
  card : ℕ → List ℕ → Acquired
  open_error : Acquired
  exception : Acquired

abbrev pub idle_close : ℕ
idle_close = 45

unfoldable pub note : Effect → Holder → Holder
note e h = record h { log = e ∷ h.log }

-- A resolver that throws leaves no session behind.
unfoldable pub commit : ℕ → Option (List ℕ) → ℕ → Holder → Acquired × Holder
unfolding note
commit c resolved now h = elim resolved [
  | none ↦ (exception, note (closed c) h)
  | some plugins ↦ (
    card c plugins,
    note (handed_out c plugins)
        (record h { session = some c; candidates = plugins; last_used = now }),
  )
]

unfoldable pub acquire : Opening → Option (List ℕ) → ℕ → Holder → Acquired × Holder
unfolding note commit
acquire opening resolved now h = elim h.session [
  | some c ↦ (card c h.candidates, note (handed_out c h.candidates) (record h { last_used = now }))
  | none ↦ elim h.hold [
    | some c ↦ commit c resolved now (record h { hold = none })
    | none ↦ elim opening [
      | opens c ↦ commit c resolved now (note (opened c) h)
      | fails ↦ (open_error, h)
      | threw ↦ (exception, h)
    ]
  ]
]

unfoldable pub clear_all : ℕ → List ℕ → List Effect → List Effect
clear_all c [] log = log
clear_all c (p ∷ plugins) log = clear_all c plugins (cleared_credentials p c ∷ log)

unfoldable pub erase_credentials : Holder → Holder
unfolding clear_all
erase_credentials h = record h {
  log = elim h.session [ none ↦ h.log | some c ↦ clear_all c h.candidates h.log ];
  candidates = [];
  pre_read_auth = none;
}

unfoldable pub close_connection : Option ℕ → List Effect → List Effect
close_connection none log = log
close_connection (some c) log = closed c ∷ log

unfoldable pub invalidate_session : Holder → Holder
unfolding erase_credentials close_connection
invalidate_session h =
    let e = erase_credentials h in
    record e {
      log = close_connection e.hold (close_connection e.session e.log);
      session = none;
      hold = none;
    }

-- The first candidate that needs something; the answers are those of the candidates, in their order.
unfoldable pub strongest : List PreReadAuth → PreReadAuth
unfolding needs_nothing
strongest [] = PreReadAuth.none_needed
strongest (m ∷ answers) = if needs_nothing m then strongest answers else m

-- The method is kept for the session in use, unless a candidate threw.
unfoldable pub remember : Option (List PreReadAuth) → Acquired → Holder → PreReadAuth × Holder
unfolding strongest
remember answers open_error h = (PreReadAuth.none_needed, h)
remember answers exception h = (PreReadAuth.none_needed, h)
remember none (card c plugins) h = (PreReadAuth.none_needed, h)
remember (some ms) (card c plugins) h =
    (strongest ms, record h { pre_read_auth = some (strongest ms) })

-- `preReadAuth`; `answers` are those of the candidates, none where one throws.
unfoldable pub ask_pre_read_auth :
    Opening → Option (List ℕ) → ℕ → Option (List PreReadAuth) → Holder → PreReadAuth × Holder
unfolding acquire remember
ask_pre_read_auth opening resolved now answers h = elim h.pre_read_auth [
  | some method ↦ (method, h)
  | none ↦ let r = acquire opening resolved now h in remember answers r.0 r.1
]

-- The rest of a resolution: the session of a card that no plugin serves is closed at once.
unfoldable pub resolve :
    (Holder → PreReadAuth × Holder) → Acquired → Holder → Option (List ℕ × PreReadAuth) × Holder
unfolding invalidate_session
resolve ask open_error h = (none, h)
resolve ask exception h = (none, h)
resolve ask (card c []) h = (some ([], PreReadAuth.none_needed), invalidate_session h)
resolve ask (card c (p ∷ ps)) h = let r = ask h in (some (p ∷ ps, r.0), r.1)

-- The candidates and the method, none where nothing is known of the card.
unfoldable pub full_resolution :
    Opening
    → Option (List ℕ)
    → ℕ
    → Option (List PreReadAuth)
    → Holder
    → Option (List ℕ × PreReadAuth) × Holder
unfolding acquire resolve ask_pre_read_auth
full_resolution opening resolved now answers h =
    let r = acquire opening resolved now h in
    resolve (ask_pre_read_auth opening resolved now answers) r.0 r.1

unfoldable pub acquire_hold : Opening → Holder → Holder
unfolding note
acquire_hold opening h = elim h.session [
  | some _ ↦ h
  | none ↦ elim h.hold [
    | some _ ↦ h
    | none ↦ elim opening [
      | opens c ↦ note (opened c) (record h { hold = some c })
      | fails ↦ h
      | threw ↦ h
    ]
  ]
]

unfoldable pub release_hold : Holder → Holder
unfolding close_connection
release_hold h = record h { hold = none; log = close_connection h.hold h.log }

-- A session that ran secure messaging is closed, another is parked.
unfoldable pub demote : Bool → ℕ → Holder → Holder
unfolding invalidate_session erase_credentials
demote live_channel c h =
    if live_channel
    then invalidate_session h
    else let e = erase_credentials h in
      record e { log = cleared_channel c ∷ cleared_pace c ∷ e.log; hold = some c; session = none }

-- `now` is none where the clock throws.
unfoldable pub sweep : Opening → Bool → Bool → Option ℕ → Holder → Holder
unfolding demote invalidate_session acquire_hold
sweep opening hold_wanted live_channel clock h = elim clock [
  | none ↦ h
  | some now ↦ elim h.session [
    | some c ↦
        if leb (h.last_used + idle_close) now
        then if hold_wanted then demote live_channel c h else invalidate_session h
        else h
    | none ↦ if hold_wanted then acquire_hold opening h else h
  ]
]
