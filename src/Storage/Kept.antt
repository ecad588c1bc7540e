-- ===== src/Storage/Kept.antt =====
-- What the name server's requests leave alone in a storage server: `ns_inbound_thread` in
-- storage_server.c against the clients' sessions, locks and undo copies.
use name_file_system_docs.Base.{ℕ, ◌≡◌, refl, []}
use name_file_system_docs.Base.Tests.{◌==◌, both_branches}
use name_file_system_docs.Disk.{Disk}
use name_file_system_docs.Index.{index_file}
use name_file_system_docs.Index.Removal.{remove_file_words}
use name_file_system_docs.Protocol.{
  err_created, err_success, op_create, op_createfolder, op_delete, op_get_metadata, op_move,
  op_read, op_replicate, op_viewfolder,
}
use name_file_system_docs.Storage.{Calls, Message, Server, create_file, delete_file}
use name_file_system_docs.Storage.Forwarded.{forward_create, forward_delete, forwarded_request}
use name_file_system_docs.Storage.Requests.{Packet}
use name_file_system_docs.Index.Entries as Index

-- The session, the locks and the undo copies are what they were, and the index is well formed if it was.
abbrev pub Keeps : Server → Packet × Server → Type 0
Keeps s (p, s') =
    (s'.write_session ≡ s.write_session)
    × (s'.lock_table ≡ s.lock_table)
    × (s'.undo_table ≡ s.undo_table)
    × (s'.storage_dir ≡ s.storage_dir)
    × (Index.IsValid s.search_index → Index.IsValid s'.search_index)

create-Keeps : (s : Server) (msg : Message) (r : ℕ × Disk) → Keeps s (forward_create s msg r)
unfolding index_file
create-Keeps s msg (code, d) =
    (refl, refl, refl, refl, λ v. both_branches Index.IsValid (code == err_created) _ _ v v)

delete-Keeps : (s : Server) (msg : Message) (r : ℕ × Disk) → Keeps s (forward_delete s msg r)
delete-Keeps s msg (code, d) = (
  refl,
  refl,
  refl,
  refl,
  λ v.
      both_branches Index.IsValid (code == err_success) _ _
        ((remove_file_words s.search_index msg.filename [] [] v).0) v,
)

pub forwarded-Keeps :
    (s : Server) (msg : Message) (calls : Calls) → Keeps s (forwarded_request s msg calls)
unfolding forwarded_request
forwarded-Keeps s msg calls =
    let or_else = both_branches (Keeps s) in
    or_else (msg.operation == op_create) _ _
      (create-Keeps s msg (create_file s msg.filename calls.creates))
      (or_else (msg.operation == op_delete) _ _
        (delete-Keeps s msg (delete_file s msg.filename calls.unlinks))
        (or_else (msg.operation == op_get_metadata) _ _ (refl, refl, refl, refl, λ v. v)
          (or_else (msg.operation == op_createfolder) _ _ (refl, refl, refl, refl, λ v. v)
            (or_else (msg.operation == op_move) _ _ (refl, refl, refl, refl, λ v. v)
              (or_else (msg.operation == op_viewfolder) _ _ (refl, refl, refl, refl, λ v. v)
                (or_else (msg.operation == op_read) _ _ (refl, refl, refl, refl, λ v. v)
                  (or_else (msg.operation == op_replicate) _ _ (refl, refl, refl, refl, λ v. v)
                    (refl, refl, refl, refl, λ v. v))))))))
