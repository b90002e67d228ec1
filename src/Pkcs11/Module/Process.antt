-- ===== src/Pkcs11/Module/Process.antt =====
-- src/pkcs11/Module.cpp: what the loading process holds, `g_lib` with the counts beside it, and the functions that
-- make and destroy it or refresh its slots. A call that asks the agent runs without the lock, under a guard.
-- C_Finalize checks its arguments, waits for the guards, and decides at the end of the wait. The count of
-- guards is below the number of threads, so it is a natural number here.
pub mod Lifetime
use libre_agent.Common.{
  ℕ, ◌+◌, ◌-◌, ◌%◌, ◌^◌, Bool, true, false, not, ◌&&◌, Option, none, some, List, ◌==◌, ltb,
  if◌then◌else◌, nat_key,
}
use libre_agent.Common.Map
use libre_agent.Pkcs11.Attribute.{Rv}
use libre_agent.Pkcs11.Objects.{ReaderState, build}
use libre_agent.Pkcs11.Session.{Session, SessionState, empty}
use libre_agent.Pkcs11.Session.Model.{set_model}
use mathlib.Core.Option
use libre_agent.Pkcs11.Module.{mark_in_flight, unmark_in_flight}

pub record Process : Type 0 where
  pub library : Option SessionState
  pub rpc_in_flight : ℕ
  pub snapshots_started : ℕ
  pub snapshot_published : ℕ

abbrev pub fresh_process : Process
fresh_process = record {
  library = none;
  rpc_in_flight = 0;
  snapshots_started = 0;
  snapshot_published = 0;
}

-- CK_C_INITIALIZE_ARGS.
pub record InitializeArgs : Type 0 where
  pub reserved : Bool
  pub custom_mutex : Bool
  pub os_locking_ok : Bool

unfoldable pub initialize_args_rv : Option InitializeArgs → Rv
initialize_args_rv none = Rv.ok
initialize_args_rv (some args) =
    if args.reserved
    then Rv.arguments_bad
    else if args.custom_mutex && not args.os_locking_ok
    then Rv.cant_lock
    else Rv.ok

unfoldable pub initialize : Option InitializeArgs → Process → Rv × Process
unfolding initialize_args_rv
initialize args p = elim p.library [
  | some _ ↦ (Rv.cryptoki_already_initialized, p)
  | none ↦ elim (initialize_args_rv args) [
    | Rv.ok ↦ (Rv.ok, record p { library = some empty })
    | rv ↦ (rv, p)
  ]
]

-- The part before the wait; CKR_OK where it goes on to wait.
unfoldable pub begin_finalize : Bool → Process → Rv
begin_finalize reserved p = elim p.library [
  | none ↦ Rv.cryptoki_not_initialized
  | some _ ↦ if reserved then Rv.arguments_bad else Rv.ok
]

-- The end of the wait, by a call that is parked no more or by its budget.
unfoldable pub end_finalize : Process → Rv × Process
end_finalize p =
    if p.rpc_in_flight == 0 then (Rv.ok, record p { library = none }) else (Rv.function_failed, p)

-- The guard of a session, or of none.
unfoldable pub enter_guard : Option ℕ → SessionState → Process → Process
unfolding mark_in_flight
enter_guard session s p = record p {
  library = some (elim session [ none ↦ s | some h ↦ mark_in_flight h s ]);
  rpc_in_flight = p.rpc_in_flight + 1;
}

unfoldable pub unmark : Option ℕ → SessionState → SessionState
unfolding unmark_in_flight
unmark session s = elim session [ none ↦ s | some h ↦ unmark_in_flight h s ]

unfoldable pub leave_guard : Option ℕ → Process → Process
unfolding unmark
leave_guard session p = record p {
  library = Option.map (unmark session) p.library;
  rpc_in_flight = p.rpc_in_flight - 1;
}

-- `refreshModel` to its question, with the ticket that it took; C_* functions call it with a library only.
unfoldable pub begin_refresh : Process → Option (ℕ × Process)
unfolding enter_guard
begin_refresh p = elim p.library [
  | none ↦ none
  | some s ↦
      let ticket = (p.snapshots_started + 1) % 2 ^ 64 in
      some (ticket, enter_guard none s (record p { snapshots_started = ticket }))
]

-- `refreshModel` from its second lock on.
unfoldable pub publish_model : ℕ → List ReaderState → Process → Bool × Process
unfolding set_model build
publish_model ticket readers p = elim p.library [
  | none ↦ (false, p)
  | some s ↦
      if ltb p.snapshot_published ticket
      then (
        true,
        record p { library = some (set_model (build readers) s); snapshot_published = ticket },
      )
      else (true, p)
]
