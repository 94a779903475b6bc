-- ===== src/Lib.antt =====
-- The MQTT bridge of an enigma2 receiver: a plugin that publishes the receiver's state to an MQTT
-- broker, runs commands that arrive from it, and installs its own releases from a signed index.
-- This library models the plugin's own logic. Paths below are from the repository's root; the plugin
-- is src/MQTTBridge.
--
-- The program's parts and the files that model them:
--
-- The signed release index. A release index and its signature file reach the receiver from the feed or
-- through a relay. `trustfile.py` reads what the receiver remembers, `trust.py` authenticates the
-- index with `ed25519.py` and judges it against that memory, and `trustfile.py` writes the new memory
-- under a lock that several processes share.
--   Ed25519.antt: ed25519.py, with the curve's arithmetic on native numbers modulo the prime. Its
--     loops end by the scalar's digits; the fuel given is 256, and scalars are below 2 ^ 256.
--     Ed25519/Roots and Ed25519/Strict hold the decoding and the strict check.
--   Json.antt: the values of `json.loads`; the parser itself is a field of `Platform`.
--   Trust.antt and below: trust.py. Format (the patterns), Keys (`check_keys`, `configured`),
--     Memory (`check_memory`, `remember`), State (`check_state`, `memory_for`, `store`), Release and
--     Index (`parse_index`), Accept (`authenticate`, `judge`, `accept`). Platform holds the hashes,
--     base64 and the JSON parser as parameters. Trust/Rule, Trust/History, Trust/Authentic and the
--     children of State, Index and Keys hold the proofs. An exception `Refused` is `err` with its
--     reason; its detail, which is only logged, is left out.
--   TrustFile.antt: trustfile.py. The file is a `Disk`; `keep` is given the file as the first
--     judgement reads it and as it is under the lock, so that any writer may come in between.
--     TrustFile/Lock is the lock's loop, TrustFile/Keep is `keep`. The text that `json.dump` writes, with
--     the members of each object in the order of their names, is an argument of `keep`.
--
-- The update helper. `updatehelper.py` is a process of its own, started by the plugin when an update is
-- asked for. It takes the installers' lock, chooses the release from the index and fetches it, takes a
-- snapshot, runs opkg, waits for the plugin to restart the interface, and keeps the new version only
-- once it is proved to run. Any other way it puts the old files back, with the interface stopped where
-- it restarted, and says in `status.json` how it ended.
--   UpdateHelper.antt and below. State: the reasons, what may be raised, the request and `Transaction`,
--     and the calls that change it, which keep the change when they raise. Receiver: everything
--     that the helper asks of the receiver and of the files around it, as functions of how many things
--     were asked before; while it asks, time passes, a signal may come, the lock may be lost, and
--     anything may be raised. RelayUrl: `relay_ok`. Choose: `unmet`, `floor_of`, `choose`,
--     `check_relay`, `download`, `cross_check`. Waiting: `wait`, `await_restart`. Ending:
--     `write_status`, `marker`, `release`, `finish`. Rollback: `put_back`, `start_interface`,
--     `rollback`. Forward: `check`, `phase`, the `try` of `forward`, `prove`, `commit`. Run: `claim`,
--     `reclaim`, `forward`, `withdraw`, `undo`, `recover`, `run`.
--   Logic, Does and After are the rules for calls: what a call leaves alone, and what holds after it whether it
--     returns or raises. Ends says where a transaction stands. The Calm children show which calls leave
--     the tree, the ends and the runlevels alone; Rollback/Steps, the Honest children and Run/Net go
--     from there to the whole run. Choose/Rules and Forward/Proof are about the release chosen and about
--     the proof.
--   The loops sleep once in a round, so the rounds given are the seconds of the wait and two; the wait
--     for the restart has 364, twice the plugin's 180 seconds and four, and the proof 62, the window of 120
--     seconds in steps of two and two. Waiting/Rounds and Waiting/Restart show of the waits that more
--     rounds change nothing.
--   Left out: `load_request`, the work on the files (snapshot, restore, package and manifest, pruning),
--     opkg's own lock, the heartbeat's thread, what is looked at after a rollback, and members of the
--     record that nothing reads again.
--
-- The commands. `commands.py` takes a message of the broker, or a text of the web page or the
-- receiver's screen, out of its envelope, runs the handler of its name and answers on `last_error`.
--   Envelope.antt: `id_problem` and `unwrap`.
--   Commands.antt: `handle`, `run`, `_execute` and `_handled` of `CommandDispatcher`. What is sent is a
--     list of messages; a handler is a function of the id, the text, the origin and the consent. The
--     handlers of the single commands are parameters. Commands/Answers is about one command,
--     Commands/Discarded about a run of messages.
--
-- The keys. `combo.py` and `backkey.py` map a key of the remote control at run time.
--   Combo.antt: `Combo`, with the calls of the image's action map that may raise as an argument;
--     Combo/Keymap is `read_keymap`. Times are whole microseconds.
--   BackKey.antt: `_map`, `_unmap`, `BackKey` and `attach`; a run of screens that open and close is
--     a relation.
--
-- Sound. `audio.py` reads the tracks of the playing service, and `volume.py` wraps enigma2's volume
-- methods to hear of every change.
--   Audio.antt: `read_tracks` and `ActiveTrack`. Passthrough.antt: `passthrough_for`.
--   Volume.antt: `set_level`, `set_muted`, and the wrapping and retries of `VolumePublisher`.
--
-- Standby. `power.py` enters and leaves standby, opens the shutdown screen, and publishes `on` and
-- `standby`: the standby counter tells it of the one, a hook on the standby screen of the other.
--   Power.antt: the functions and `PowerPublisher`; a run of it is a relation in Power/Hooked.antt.
--   What the image has and raises is a parameter; of the counter's list of notifiers the number of the
--   publisher's entries is kept.
--
-- The log. `log.py` scrubs registered secrets from each record, in a filter and again in the formatter.
--   Log.antt: `register_secret`, `redact`, and a record's way through both; texts are lists of code
--     points, and `logging.Formatter.format` is an argument.
--
-- The session with the broker. `bridge.py` publishes what the areas of the plugin report, each on a
-- retained topic and only when it has changed; `mqttclient.py` stands around the vendored paho client.
--   Retained.antt: `_oversize`, `publish_raw`, `_withhold`, `_take_back`, `publish_state`, `retract`, and
--     `StateStore.remember` and `forget` of discovery.py. The client's answer is an argument; what was last
--     given to it for each topic is kept beside the bridge's own members. A run is a relation in
--     Retained/Known.antt.
--   MqttClient.antt: the publishes that are true only when they are made, and how a connect takes them
--     out of paho's queue. What paho holds and answers is an argument.
--
-- Common.antt and below: helpers that the parts share. Tests.antt and below: small inputs at which the
-- theorems apply.
--
-- Not modelled: where log lines are written and the file's rotation; the on-screen bar and screens,
-- menus and the web page, which are user interface; the settings, the discovery payloads and the
-- wiring of the publishers; the MQTT client's threads, its start and stop, and the vendored paho
-- library; readers of enigma2's live objects (service, recordings, channels, softcam); the plugin's
-- side of an update; and the release tools, which do not run on the receiver.
pub mod Common
pub mod Json
pub mod Ed25519
pub mod Trust
pub mod TrustFile
pub mod Tests
pub mod Combo
pub mod BackKey
pub mod Commands
pub mod Audio
pub mod Volume
pub mod Envelope
pub mod Passthrough
pub mod Power
pub mod Log
pub mod Retained
pub mod MqttClient
pub mod UpdateHelper
