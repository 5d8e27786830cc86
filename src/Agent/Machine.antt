-- ===== src/Agent/Machine.antt =====
-- What a reconciler is built on: its backends (the interfaces of internal/agent/reconciler.go), and the
-- store of internal/agent/store.go, whose file is replaced as a whole.
pub mod Durable
pub mod RoundTrip
use Prim.Native.String.{◌++◌ as append}
use l4way.Prelude.{
  ℕ, ◌*◌, String, Bool, true, false, Option, none, some, List, [], ◌∷◌, ltb, if◌then◌else◌, Result,
  ok, err,
}
use l4way.Spec.{DesiredState, ForwardSpec, Protocol, TrafficDirection}
use l4way.Agent.{
  Codec, StateRecord, RecordError, empty_state_record, state_record_version, validate_record,
}
use l4way.Agent.Exec.{Exec, Failure, invalid_record, message, told, pure, raise, ◌>>=◌, ◌>>◌}

pub record InstalledState : Type 0 where
  pub exists : Bool
  pub managed : Bool
  pub generation : ℕ
  pub desired_checksum : String
  pub program_checksum : String

pub record CounterBinding : Type 0 where
  pub name : String
  pub forward_id : String
  pub protocol : Protocol
  pub direction : TrafficDirection
  pub resource_version : ℕ

pub record RawCounter : Type 0 where
  pub name : String
  pub packets : ℕ
  pub bytes : ℕ

pub record NftProgram : Type 0 where
  pub program_checksum : String
  pub script : String
  pub counters : List CounterBinding

-- `K` is the state of the host that the backends read and change, and `A` what they give.
abbrev pub Call : Type 0 → Type 0 → Type 0
Call K A = K → Result String A × K

-- dptc.Compiler and TrafficBackend, which are set together.
pub record TrafficControl (K T : Type 0) : Type 0 where
  pub compile : DesiredState → String → Result String T
  pub sum : T → String
  pub check : T → Call K (Unit {0})
  pub apply : T → Call K (Unit {0})
  pub verify : T → Call K (Unit {0})

-- dpfabric.Compiler and FabricBackend, which are set together, with the zero program.
pub record Fabric (K F : Type 0) : Type 0 where
  pub zero_program : F
  pub compile : DesiredState → String → Result String F
  pub sum : F → String
  pub check : F → F → Call K (Unit {0})
  pub prepare : F → Call K (Unit {0})
  pub cleanup : F → F → Call K (Unit {0})
  pub verify : F → Call K (Unit {0})

-- How a write of the file ends: in place, not in place, or in place although an error is reported
-- (the directory could not be synced).
pub data Written : Type 0 where
  committed : Written
  kept moved : String → Written

abbrev pub max_state_file_bytes : ℕ
max_state_file_bytes = 64 * 1048576

-- The fields of a Reconciler, with the operations of its store on the file.
pub record Machine (K T F : Type 0) : Type 0 where
  pub codec : Codec
  pub compile_at : DesiredState → String → Bool → ℕ → Result String NftProgram
  pub program_checksum_at : DesiredState → String → ℕ → String
  pub inspect : Call K InstalledState
  pub check : String → Call K (Unit {0})
  pub apply : String → Call K (Unit {0})
  pub counters : Option (Call K (List RawCounter))
  pub traffic : Option (TrafficControl K T)
  pub fabric : Option (Fabric K F)
  pub conntrack : Option (String → List ForwardSpec → Call K ℕ)
  pub clock : K → ℕ × K
  pub open_file : Call K (Unit {0})
  -- The bytes of a record in the file, as JSON.
  pub file_size : StateRecord → ℕ
  pub write_file : StateRecord → K → Written × K

-- The file holds the first of the records; those that it held before come after it.
pub record World (K : Type 0) : Type 0 where
  pub kernel : K
  pub saved : List StateRecord

module _ {K T F : Type 0} (machine : Machine K T F) where
  -- A call of a backend, whose error is told after some words.
  unfoldable pub call : {A : Type 0} → String → Call K A → Exec (World K) A
  call words f w = let (r, k) = f w.kernel in (told words r, record w { kernel = k })

  unfoldable pub read_clock : Exec (World K) ℕ
  read_clock w = let (t, k) = machine.clock w.kernel in (ok t, record w { kernel = k })

  -- The record that is decoded, once it is found valid.
  abbrev pub admit : StateRecord → Result RecordError (Unit {0}) → Result Failure StateRecord
  admit r (ok _) = ok (
      if ltb r.version state_record_version then record r { version = state_record_version } else r)
  admit r (err e) = err (invalid_record e)

  abbrev pub decode : List StateRecord → Result Failure StateRecord
  decode [] = ok empty_state_record
  decode (r ∷ rs) =
      if ltb max_state_file_bytes (machine.file_size r)
      then err (message "agent state exceeds 67108864 bytes")
      else admit r (validate_record machine.codec r)

  unfoldable pub read_saved : Exec (World K) StateRecord
  read_saved w = (decode w.saved, w)

  -- FileStore.Load
  unfoldable pub load : Exec (World K) StateRecord
  unfolding call read_saved ◌>>=◌
  load = do call "" machine.open_file; read_saved

  abbrev pub written : StateRecord → World K → Written × K → Result Failure (Unit {0}) × World K
  written r w (committed, k) = (ok tt, record w { kernel = k; saved = r ∷ w.saved })
  written r w (kept text, k) = (err (message text), record w { kernel = k })
  written r w (moved text, k) = (err (message text), record w { kernel = k; saved = r ∷ w.saved })

  abbrev pub write_valid : StateRecord → Result RecordError (Unit {0}) → Exec (World K) (Unit {0})
  write_valid r (ok _) w = written r w (machine.write_file r w.kernel)
  write_valid r (err e) w = (err (invalid_record e), w)

  -- FileStore.Save
  unfoldable pub save : StateRecord → Exec (World K) (Unit {0})
  save r =
      let current = record r { version = state_record_version } in
      write_valid current (validate_record machine.codec current)
