-- ===== src/Storage/Abandoned.antt =====
-- A WRITE session of storage_server.c that its client breaks off with another operation: the session
-- stays open, and the next client's commit ends it.
use name_file_system_docs.Base.{
  ℕ, ◌≡◌, refl, ap, ◌∙◌, ◌≢◌, true, false, ◌||◌, some, List, [], ◌∷◌, arith,
}
use name_file_system_docs.Base.Tests.{◌==◌, if◌then◌else◌}
use name_file_system_docs.Base.Strings.{CString, same}
use name_file_system_docs.Disk.{is_directory, regular}
use name_file_system_docs.Lock.{lock_keys}
use name_file_system_docs.Lock.Frame.{Fits}
use name_file_system_docs.Protocol.{
  err_server_error, err_success, op_write_commit, op_write_start, op_write_update,
}
use name_file_system_docs.Storage.{Calls, Message, Server, get_file_path}
use name_file_system_docs.Storage.Atomic.{commit_all_or_nothing}
use name_file_system_docs.Storage.Commit.{IsReady, edited}
use name_file_system_docs.Storage.Connection.{
  Event, Running, first_message, next_message, received, run, step, waiting, writing,
}
use name_file_system_docs.Storage.Start.{start_refused}
use name_file_system_docs.Storage.Writing.{temp_filepath, write_commit, write_start}
use name_file_system_docs.Table.Valid.{IsTable}

broken_off :
    (s : Server) (msg : Message) (calls : Calls)
    → (msg.operation == op_write_update || msg.operation == op_write_commit) ≡ false
    → step (writing, s) (received msg calls) ≡ some (waiting, s)
unfolding step next_message
broken_off s msg calls h = ground arith

refused_step :
    (s : Server) (msg : Message) (calls : Calls) (code : ℕ) (s₁ : Server)
    → (msg.operation == op_write_start) ≡ true
    → write_start s msg calls ≡ some (code, s₁)
    → step (waiting, s) (received msg calls) ≡ some (writing, s₁)
unfolding step first_message
refused_step s msg calls code s₁ op h = simp (op, h, step, first_message) refl

committed_step :
    (s : Server) (msg : Message) (calls : Calls) (code : ℕ) (s' : Server)
    → msg.operation ≡ op_write_commit
    → write_commit s calls ≡ some (code, s')
    → step (writing, s) (received msg calls) ≡ some (waiting, s')
unfolding step next_message
committed_step s msg calls code s' op h = simp (op, h, step, next_message) refl

run_three :
    (r r₁ r₂ r₃ : Running) (a b c : Event)
    → step r a ≡ some r₁
    → step r₁ b ≡ some r₂
    → step r₂ c ≡ some r₃
    → run r (a ∷ b ∷ c ∷ []) ≡ some r₃
unfolding run
run_three r r₁ r₂ r₃ a b c e f g = simp (e, f, g, run) refl

-- A client's commit can store another client's words. A client sends, in its session, an operation that
-- is neither an update nor a commit, and its connection ends; the session stays active. The WRITE_START
-- of the next client is refused, with any code; its WRITE_COMMIT is then carried out all the same, and
-- the file of the first client's session gets the sentence of that session. The session was ready, the
-- calls of the commit are granted, the next client's names fit, the temporary file is another one than
-- the document and no directory, and the table of locks is well formed.
pub abandoned_commit :
    (s : Server) (c : List ℕ) (sentence : CString) (other start commit : Message)
    (at_other at_start calls : Calls) (code : ℕ) (s₁ : Server)
    → let path = get_file_path s s.write_session.filename in
      IsReady s c sentence
      → (other.operation == op_write_update || other.operation == op_write_commit) ≡ false
      → (start.operation == op_write_start) ≡ true
      → commit.operation ≡ op_write_commit
      → write_start s start at_start ≡ some (code, s₁)
      → code ≢ err_success
      → Fits 256 start.filename
      → Fits 64 start.sender_id
      → IsTable lock_keys s.lock_table
      → calls.opens ≡ true
      → calls.creates ≡ true
      → calls.renames ≡ true
      → is_directory (s.disk (temp_filepath path)) ≡ false
      → same (temp_filepath path) path ≡ false
      → (s' : Server) × (run
            (writing, s)
            (received other at_other ∷ received start at_start ∷ received commit calls ∷ [])
          ≡ some (waiting, s'))
        × (s'.disk path ≡ some (regular (edited s c sentence)))
abandoned_commit s c sentence other start commit at_other at_start calls code s₁ r op₀ op₁ op₂
      refused bad f g v opens creates renames free apart =
    let only = start_refused s start at_start code s₁ f g v refused bad in
    let s₂ = record s { lock_table = s₁.lock_table } in
    let (s', committed, here, away, done) =
      commit_all_or_nothing s₂ calls c sentence opens
        (record { active = r.active; there = r.there; within = r.within; built = r.built }) free
        apart in
    let answered = ap (λ (t : Server). write_commit t calls) only.0 ∙ committed in
    (
      s',
      run_three (writing, s) (waiting, s) (writing, s₁) (waiting, s') (received other at_other)
          (received start at_start) (received commit calls) (broken_off s other at_other op₀)
          (refused_step s start at_start code s₁ op₁ refused)
          (committed_step s₁ commit calls (if calls.creates then err_success else err_server_error)
            s' op₂ answered),
      here ∙ simp (creates, renames) refl,
    )
