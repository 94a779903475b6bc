-- ===== src/UpdateHelper/State.antt =====
-- What a transaction of src/MQTTBridge/updatehelper.py keeps, and how its calls end.
use mathlib.Core.Bool.{Bool, true, false}
use enigma2_mqtt_bridge.Common.{ℕ, Option, none, some, List, [], String}
use enigma2_mqtt_bridge.Common.Result.{Result, ok, err}
use enigma2_mqtt_bridge.Trust.Release.{Release}

-- `SENTENCES`: the reason codes. The sentences are left out.
pub data Reason : Type 0 where
  busy bad_request unreachable bad_index unknown_version withdrawn below_floor : Reason
  incompatible depends downgrade checksum relay download bad_package no_space : Reason
  opkg_busy snapshot_failed opkg_failed manifest not_started not_stopped : Reason
  interface_not_started time_limit interrupted question retraction standby : Reason
  recording epg_import internal_error drill restore_failed restore_incomplete : Reason

pub record Fail : Type 0 where
  pub reason : Reason
  pub rolled_back : Bool

abbrev pub fail_of : Reason → Fail
fail_of reason = record { reason = reason; rolled_back = false }

-- An exception: the two of the module, an `OSError` of a file that could not be written, or any other,
-- which is or is not an `Exception`.
pub data Raised : Type 0 where
  failed : Fail → Raised
  lock_lost : Raised
  os_error : Raised
  other : Bool → Raised

pub data Phase : Type 0 where
  downloading verifying snapshotting installing restarting proving rolling_back finished : Phase

pub data Outcome : Type 0 where
  installed withdrawn_before_restart rolled_back_end failed_end interrupted_end : Outcome

-- An end that was written to `status.json`.
pub record End : Type 0 where
  pub outcome : Outcome
  pub cause : Option Reason

-- The plugin's tree on disk: the version that asked, something else, or the one installed.
pub data Tree : Type 0 where
  old_tree mixed_tree new_tree : Tree

-- `record["restore"]`
pub data Restored : Type 0 where
  done partial not_restored cut_off : Restored

-- `statusinfo()`
pub record StatusInfo : Type 0 where
  pub service : Option String
  pub in_standby : Option Bool

-- What the Home Assistant integration published of itself.
pub record Integration : Type 0 where
  pub contract : Option ℕ
  pub version : Option String
  pub plugin_min : Option String

pub record Relay : Type 0 where
  pub url : String
  pub expires : Option ℕ

pub record Request : Type 0 where
  pub id : String
  pub target : String
  pub from_version : String
  pub started_by : String
  pub downgrade_allowed : Bool
  pub enigma2_pid : ℕ
  pub acceptance : Bool
  pub contract : ℕ
  pub integration : Option Integration
  pub integration_mode : Bool
  pub sha256 : Option String
  pub relay : Option Relay

-- The local variables of `rollback` that its `finally` reads.
pub record RollbackVars : Type 0 where
  pub starting : Bool
  pub stopped : Bool
  pub put_back_done : Bool
  pub sent : Bool
  pub survivors : List ℕ
  pub looked : Bool

abbrev pub at_start : RollbackVars
at_start = record {
  starting = false;
  stopped = false;
  put_back_done = false;
  sent = false;
  survivors = [];
  looked = false;
}

-- The members of `record` that decide something: `restore`, and whether `lastservice` is there.
-- The others are only written, and left out. Times are whole microseconds.
pub record Transaction : Type 0 where
  -- the clock, and how many things were asked of the receiver
  pub now : ℕ
  pub asks : ℕ
  pub signalled : Option ℕ
  pub lost : Bool
  pub holding : Bool
  pub claimed : Bool
  pub files_changed : Bool
  pub snapshot : Bool
  pub entry : Option Release
  pub deadline : ℕ
  pub before : Option StatusInfo
  pub logs_writable : Bool
  pub restarted_at : Option ℕ
  pub restart_pids : List ℕ
  pub lower : Bool
  pub ended : Bool
  pub committed : Bool
  pub rolling_back : Bool
  pub vars : RollbackVars
  pub phase : Phase
  pub restore : Option Restored
  pub lastservice_said : Bool
  -- what it did to the receiver: the tree, the runlevels asked for and the ends written, newest first
  pub tree : Tree
  pub markers : ℕ
  -- each run of opkg, with whether it was told to force a downgrade
  pub opkg_runs : List Bool
  pub runlevels : List ℕ
  pub ends : List End

-- Calls are put together by the operations below, which are shut where proofs go by their rules.
-- A call changes the transaction, also when it raises.
abbrev pub M : Type 0 → Type 0
M A = Transaction → Result Raised A × Transaction

unfoldable pub pure : {A : Type 0} → A → M A
pure a t = (ok a, t)

abbrev pub continue : {A B : Type 0} → Result Raised A → (A → M B) → M B
continue (ok a) next t = next a t
continue (err e) next t = (err e, t)

infixl 5 ◌>>=◌ ◌>>◌
unfoldable pub ◌>>=◌ : {A B : Type 0} → M A → (A → M B) → M B
◌>>=◌ m next t = continue (m t).0 next (m t).1

abbrev pub ◌>>◌ : {A B : Type 0} → M A → M B → M B
m >> next = m >>= λ _. next

unfoldable pub raise : {A : Type 0} → Raised → M A
raise e t = (err e, t)

abbrev pub fail : {A : Type 0} → Reason → M A
fail reason = raise (failed (fail_of reason))

unfoldable pub modify : (Transaction → Transaction) → M (Unit {0})
modify change t = (ok tt, change t)

unfoldable pub get : {A : Type 0} → (Transaction → A) → M A
get read t = (ok (read t), t)

abbrev pub handled : {A : Type 0} → Result Raised A → (Raised → M A) → M A
handled (ok a) handler t = (ok a, t)
handled (err e) handler t = handler e t

unfoldable pub raise_lost : Bool → M (Unit {0})
raise_lost true t = (err lock_lost, t)
raise_lost false t = (ok tt, t)

-- `if self.lost.is_set(): raise LockLost()`
unfoldable pub raise_if_lost : M (Unit {0})
unfolding raise_lost
raise_if_lost t = raise_lost t.lost t

-- `try` with a handler.
unfoldable pub catch : {A : Type 0} → M A → (Raised → M A) → M A
catch m handler t = handled (m t).0 handler (m t).1

abbrev pub when : Bool → M (Unit {0}) → M (Unit {0})
when true m = m
when false m = pure tt

abbrev pub discard : {A : Type 0} → M A → M (Unit {0})
discard m = m >>= λ _. pure tt

abbrev pub is_some : {A : Type 0} → Option A → Bool
is_some none = false
is_some (some a) = true
