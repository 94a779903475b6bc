-- ===== src/UpdateHelper/Receiver.antt =====
-- `Receiver` of src/MQTTBridge/updatehelper.py: what the helper asks of the receiver and of the files
-- around it. Every answer is an argument, a function of how many things were asked before; with an
-- answer time may pass, a signal may come, the heartbeat may find the lock taken, and anything may be
-- raised.
use enigma2_mqtt_bridge.Common.{ℕ, suc, ◌+◌, Bool, ◌||◌, Option, none, some, List, String}
use enigma2_mqtt_bridge.Common.Result.{Result, ok, err}
use enigma2_mqtt_bridge.Trust.Index.{Index}
use enigma2_mqtt_bridge.UpdateHelper.State.{
  Reason, other, Tree, Restored, StatusInfo, Transaction, M, get, modify, ◌>>◌,
}

pub data Snapshot : Type 0 where
  taken opkg_is_busy not_taken : Snapshot

pub record World : Type 0 where
  pub passes : ℕ → ℕ
  -- the wall clock, in seconds
  pub epoch : ℕ → ℕ
  pub signal : ℕ → Option ℕ
  pub loses : ℕ → Bool
  pub raises : ℕ → Option Bool
  -- the lock's directory: `mkdir`, the owner record, whether it is stale, and a `rename`
  pub makes_lock : ℕ → Bool
  pub owner : ℕ → Option String
  pub is_stale : ℕ → Bool
  pub renames : ℕ → Bool
  pub writes : ℕ → Bool
  pub marker_there : ℕ → Bool
  -- `/proc`: the enigma2 processes, a look that says when it could not be made, and who has the log open
  pub enigma2_pids : ℕ → List ℕ
  pub enigma2_look : ℕ → Option (List ℕ)
  pub has_log_open : ℕ → ℕ → Bool
  -- OpenWebif: the status of the plugin's page, and `statusinfo()`
  pub webif_page : ℕ → Option ℕ
  pub statusinfo : ℕ → Option StatusInfo
  -- the transaction's directory: `withdraw` with the reason in it, `restart.json`, `started.json`
  pub withdraw_file : ℕ → Option (Option Reason)
  pub restart_file : ℕ → Bool
  pub started_file : ℕ → Option (String × String)
  -- the package: the index, the packages installed, the download, the checks, the space
  pub fetched_index : ℕ → Result Reason (Option Index)
  pub held_index : ℕ → Option Index
  pub installed_packages : ℕ → Option (List String)
  pub fetched_package : ℕ → Option (ℕ × String)
  pub package_ok : ℕ → Bool
  pub release_page : ℕ → Option String
  pub has_space : ℕ → Bool
  pub takes_snapshot : ℕ → Snapshot
  pub manifest_ok : ℕ → Bool
  -- `opkg` with what it leaves on disk, `init`, and the restore
  pub opkg : ℕ → Option ℕ
  pub opkg_leaves : ℕ → Tree
  pub init_code : ℕ → Option ℕ
  pub restores : ℕ → Restored
  pub restore_leaves : ℕ → Tree
  pub writes_lastservice : ℕ → Bool
  pub log_writable : ℕ → Bool
  pub drill_file : ℕ → Bool

module _ (world : World) where
  -- What happens meanwhile.
  unfoldable pub meanwhile : Transaction → Transaction
  meanwhile t = record t {
    asks = suc t.asks;
    now = t.now + world.passes t.asks;
    signalled = elim (world.signal t.asks) [ none ↦ t.signalled | some s ↦ some s ];
    lost = t.lost || world.loses t.asks;
  }

  unfoldable pub ask : {A : Type 0} → (ℕ → A) → M A
  unfolding meanwhile
  ask answer t = elim (world.raises t.asks) [
    | none ↦ (ok (answer t.asks), meanwhile t)
    | some is_exception ↦ (err (other is_exception), meanwhile t)
  ]

  -- `clock()`
  unfoldable pub clock : M ℕ
  unfolding ask
  clock = do ask (λ n. tt); get (λ t. t.now)

  unfoldable pub sleep : ℕ → M (Unit {0})
  unfolding ask
  sleep time = do ask (λ n. tt); modify (λ t. record t { now = t.now + time })
