-- ===== src/Agent/Machine/Durable.antt =====
-- The file of an agent: what its methods do to it, and the order of the records that it holds in turn.
use l4way.Prelude.{
  ◌≡◌, ◌⊎◌, ◌<◌, inl, inr, refl, String, Option, none, some, List, [], ◌∷◌, Result, ok, err,
  then_ok, ltb, Bool-cases, reject_if, ◌||◌, length, ◌>>◌ as both,
}
use l4way.Agent.{
  Codec, Snapshot, StateRecord, RecordError, state_record_version, check_order, check_outbox,
  validate_record, validate_snapshot, bad_record_version, long_outbox, max_usage_outbox,
}
use l4way.Agent.Exec.{Failure}
use l4way.Agent.Exec.Keeps.{Keeps, Keeps-bind}
use l4way.Agent.Exec.Leads.{Returned, Ended, Leads, Leads-step, anything}
use l4way.Agent.Machine.{
  Machine, World, Call, Written, committed, kept, moved, call, read_clock, decode, read_saved, load,
  max_state_file_bytes, admit, written, write_valid, save,
}

abbrev pub applied_of : List StateRecord → Option Snapshot
applied_of [] = none
applied_of (r ∷ rs) = r.applied

abbrev pub pending_of : List StateRecord → Option Snapshot
pending_of [] = none
pending_of (r ∷ rs) = r.pending

-- A snapshot may be applied after another one: its generation is later, or the content is the same.
abbrev pub Later : Option Snapshot → Option Snapshot → Type 0
Later none next = Unit
Later (some old) none = ⊥
Later (some old) (some next) =
    (old.desired.generation < next.desired.generation)
    ⊎ ((old.desired.generation ≡ next.desired.generation) × (old.checksum ≡ next.checksum))

pub Later-refl : (s : Option Snapshot) → Later s s
Later-refl none = tt
Later-refl (some s) = inr (refl, refl)

-- What the records that the file held, the newest first, applied one after the other.
abbrev pub History : List StateRecord → Type 0
History [] = Unit
History (r ∷ rs) = Later (applied_of rs) r.applied × History rs

-- What is so of the file.
pub record OnFile {K : Type 0} (S : List StateRecord → Type 0) (w : World K) : Type 0 where
  pub file : S w.saved

-- The record as it is written.
abbrev pub stamped : StateRecord → StateRecord
stamped r = record r { version = state_record_version }

-- What a record that was read says of the file, and of itself.
pub record Loaded (r : StateRecord) (rs : List StateRecord) : Type 0 where
  pub applied : applied_of rs ≡ r.applied
  pub pending : pending_of rs ≡ r.pending
  pub order : check_order r.applied r.pending ≡ ok tt

module _ {K T F : Type 0} (machine : Machine K T F) {S : List StateRecord → Type 0} where
  pub call-Keeps :
      {A : Type 0} (words : String) (f : Call K A) → Keeps (OnFile S) (call machine words f)
  unfolding call
  call-Keeps words f = record { at = λ w h. record { file = h.file } }

  pub read_clock-Keeps : Keeps (OnFile S) (read_clock machine)
  unfolding read_clock
  read_clock-Keeps = record { at = λ w h. record { file = h.file } }

  read_saved-Keeps : Keeps (OnFile S) (read_saved machine)
  unfolding read_saved
  read_saved-Keeps = record { at = λ w h. record { file = h.file } }

  pub load-Keeps : Keeps (OnFile S) (load machine)
  unfolding load
  load-Keeps = Keeps-bind _ _ (call-Keeps "" machine.open_file) (λ _. read_saved-Keeps)

-- The record was put in place by a write that reported an error.
pub record IsMoved {K T F : Type 0} (machine : Machine K T F) (r : StateRecord) : Type 0 where
  pub before : K
  pub after : K
  pub text : String
  pub reported : machine.write_file r before ≡ (moved text, after)

-- So was the record that the file holds.
abbrev pub IsReported : {K T F : Type 0} (machine : Machine K T F) → List StateRecord → Type 0
IsReported machine [] = ⊥
IsReported machine (r ∷ rs) = IsMoved machine r

validate-order :
    (codec : Codec) (r : StateRecord) (u : Unit {0})
    → validate_record codec r ≡ ok u
    → check_order r.applied r.pending ≡ ok tt
unfolding validate_record
validate-order codec r u h =
    let version =
      reject_if (ltb r.version 1 || ltb state_record_version r.version) bad_record_version in
    let (_, after_version) = then_ok version _ h in
    let (_, after_applied) = then_ok (validate_snapshot codec r.applied) _ after_version in
    let (_, after_pending) = then_ok (validate_snapshot codec r.pending) _ after_applied in
    let rest = reject_if (ltb max_usage_outbox (length r.usage_outbox)) long_outbox in
    let (order, _) =
      then_ok (check_order r.applied r.pending) (both rest (check_outbox r.usage_outbox))
        after_pending in
    order

module _ {K T F : Type 0} (machine : Machine K T F) where
  admit-Loaded :
      (r : StateRecord) (rs : List StateRecord) (v : Result RecordError (Unit {0}))
      → validate_record machine.codec r ≡ v
      → Returned (λ s. Loaded s (r ∷ rs)) (admit machine r v)
  admit-Loaded r rs (err e) h = tt
  admit-Loaded r rs (ok u) h = elim (Bool-cases (ltb r.version state_record_version)) [
    | inl t ↦
        rw t (record { applied = refl; pending = refl; order = validate-order machine.codec r u h })
    | inr f ↦
        rw f (record { applied = refl; pending = refl; order = validate-order machine.codec r u h })
  ]

  decode-Loaded : (rs : List StateRecord) → Returned (λ r. Loaded r rs) (decode machine rs)
  unfolding check_order
  decode-Loaded [] = record { applied = refl; pending = refl; order = refl }
  decode-Loaded (r ∷ rs) = elim (Bool-cases (ltb max_state_file_bytes (machine.file_size r))) [
    | inl t ↦ rw t tt
    | inr f ↦ rw f (admit-Loaded r rs (validate_record machine.codec r) refl)
  ]

  -- What is read of a file on which `S` is so.
  pub load-Leads :
      (S : List StateRecord → Type 0)
      → Leads (OnFile S) (load machine) (λ r. OnFile (λ rs. S rs × Loaded r rs)) (OnFile S)
  unfolding load
  load-Leads S =
      Leads-step (λ w h. h) (call machine "" machine.open_file) (λ _. read_saved machine)
        (call-Keeps machine "" machine.open_file) anything (λ _ _. reading)
    where
      told_of :
          (w : World K) (r : Result Failure StateRecord)
          → S w.saved
          → Returned (λ r. Loaded r w.saved) r
          → Ended (λ r. OnFile (λ rs. S rs × Loaded r rs)) (OnFile S) r w
      told_of w (ok r) h l = record { file = (h, l) }
      told_of w (err e) h l = record { file = h }

      reading :
          Leads (OnFile S) (read_saved machine) (λ r. OnFile (λ rs. S rs × Loaded r rs)) (OnFile S)
      reading =
          unfold read_saved in
          record { at = λ w h. told_of w (decode machine w.saved) h.file (decode-Loaded w.saved) }

  -- A write that is refused or fails leaves `E`, also when the file was replaced.
  pub save-Leads :
      {S Q E : List StateRecord → Type 0} (r : StateRecord)
      → ((rs : List StateRecord) → S rs → E rs)
      → ((rs : List StateRecord) → S rs → IsReported machine (stamped r ∷ rs) → E (stamped r ∷ rs))
      → ((rs : List StateRecord) → S rs → Q (stamped r ∷ rs))
      → Leads (OnFile S) (save machine r) (λ _. OnFile Q) (OnFile E)
  unfolding save
  save-Leads {S = S} {Q = Q} {E = E} r e moved_e q = record {
    at = λ w h. valid w (validate_record machine.codec (stamped r)) h.file;
  }
    where
      end :
          (w : World K) (o : Written × K)
          → machine.write_file (stamped r) w.kernel ≡ o
          → S w.saved
          → let s = written machine (stamped r) w o in
            Ended {A = Unit} (λ _. OnFile Q) (OnFile E) s.0 s.1
      end w (committed, k) x h = record { file = q w.saved h }
      end w (kept text, k) x h = record { file = e w.saved h }
      end w (moved text, k) x h = record {
        file =
            moved_e w.saved h (record { before = w.kernel; after = k; text = text; reported = x });
      }

      valid :
          (w : World K) (v : Result RecordError (Unit {0}))
          → S w.saved
          → let s = write_valid machine (stamped r) v w in
            Ended {A = Unit} (λ _. OnFile Q) (OnFile E) s.0 s.1
      valid w (ok u) h = end w (machine.write_file (stamped r) w.kernel) refl h
      valid w (err x) h = record { file = e w.saved h }
