-- ===== src/NameServer/Cases.antt =====
-- The states that a handler of nameserver.c for files may leave, as rules for a property of the
-- state: it holds afterwards if it holds of each of them.
use name_file_system_docs.Base.{ℕ, ◌≡◌, inl, inr, Bool, true, false, ◌||◌, some}
use name_file_system_docs.Base.Tests.{◌==◌, Bool-cases, Option-cases}
use name_file_system_docs.Base.Strings.{CString}
use name_file_system_docs.Protocol.{err_success, err_created}
use name_file_system_docs.Registry.Routing.{file_exists, find_available_ss, find_ss_for_file}
use name_file_system_docs.NameServer.{Message, NameServer, contains_invalid_chars}
use name_file_system_docs.Acl.{acl_check_write}
use name_file_system_docs.NameServer.Files.{
  Forward, no_socket, no_connection, not_sent, no_reply, replied, created, deleted, route,
  forward_create, forward_delete, handle_create_request, handle_delete_request,
}

-- After the test whether the file exists, and after the choice of a server too.
abbrev pub checked : NameServer → CString → NameServer
checked ns f = record ns { routes = (file_exists ns.routes f).1 }

abbrev pub chosen : NameServer → CString → NameServer
chosen ns f = record ns { routes = (find_available_ss (checked ns f).routes).1 }

abbrev pub searched : NameServer → CString → NameServer
searched ns f = record ns { routes = (find_ss_for_file ns.routes f).1 }

module _ (P : NameServer → Type 0) (ns : NameServer) (msg : Message) where
  forwarded_create :
      (i : ℕ) (reached : Bool) (now : ℕ) (forward : Forward)
      → P ns
      → P (created ns msg i reached now)
      → P (forward_create ns msg i reached now forward).1
  unfolding forward_create
  forwarded_create i reached now no_socket p d = p
  forwarded_create i reached now no_connection p d = p
  forwarded_create i reached now not_sent p d = p
  forwarded_create i reached now no_reply p d = p
  forwarded_create i reached now (replied code) p d =
      elim (Bool-cases (code == err_success || code == err_created)) [
        | inl ok ↦ rw ok d
        | inr refused ↦ rw refused p
      ]

  forwarded_delete :
      (i : ℕ) (forward : Forward)
      → P ns
      → P (deleted ns msg.filename i)
      → P (forward_delete ns msg i forward).1
  unfolding forward_delete
  forwarded_delete i no_socket p d = p
  forwarded_delete i no_connection p d = p
  forwarded_delete i not_sent p d = p
  forwarded_delete i no_reply p d = p
  forwarded_delete i (replied code) p d = elim (Bool-cases (code == err_success)) [
    | inl ok ↦ rw ok d
    | inr refused ↦ rw refused p
  ]

module _ (P : NameServer → Type 0) (ns : NameServer) (msg : Message) where
  pub after_create :
      (forward : Forward) (reached : Bool) (now : ℕ)
      → P ns
      → P (checked ns msg.filename)
      → P (chosen ns msg.filename)
      → ((i : ℕ)
          → (file_exists ns.routes msg.filename).0 ≡ false
          → (find_available_ss (checked ns msg.filename).routes).0 ≡ some i
          → P (created (chosen ns msg.filename) msg i reached now))
      → P (handle_create_request ns msg forward reached now).1
  unfolding handle_create_request
  after_create forward reached now p q c done =
      elim (Bool-cases (contains_invalid_chars msg.filename)) [
        | inl bad ↦ rw bad p
        | inr good ↦ rw good (elim (Bool-cases (file_exists ns.routes msg.filename).0) [
          | inl there ↦ rw there q
          | inr new ↦
              rw new (elim (Option-cases (find_available_ss (checked ns msg.filename).routes).0) [
                | inl no_server ↦ rw (no_server, handle_create_request) c
                | inr (i, server) ↦
                    rw (server, handle_create_request)
                      (forwarded_create P (chosen ns msg.filename) msg i reached now forward c
                        (done i new server))
              ])
        ])
      ]

  pub after_delete :
      (forward : Forward)
      → P ns
      → P (searched ns msg.filename)
      → ((i : ℕ)
          → acl_check_write ns.acl msg.filename msg.sender_id ≡ true
          → (find_ss_for_file ns.routes msg.filename).0 ≡ some i
          → P (deleted (searched ns msg.filename) msg.filename i))
      → P (handle_delete_request ns msg forward).1
  unfolding handle_delete_request
  after_delete forward p s done =
      elim (Bool-cases (acl_check_write ns.acl msg.filename msg.sender_id)) [
        | inr denied ↦ rw denied p
        | inl permitted ↦
            rw permitted (elim (Option-cases (find_ss_for_file ns.routes msg.filename).0) [
              | inl nowhere ↦ rw (nowhere, handle_delete_request) s
              | inr (i, found) ↦
                  rw (found, handle_delete_request)
                    (forwarded_delete P (searched ns msg.filename) msg i forward s
                      (done i permitted found))
            ])
      ]

  pub after_route : (permitted : Bool) → P (searched ns msg.filename) → P (route ns msg permitted).1
  unfolding route
  after_route permitted s = elim (Option-cases (find_ss_for_file ns.routes msg.filename).0) [
    | inl nowhere ↦ rw (nowhere, route) s
    | inr (i, found) ↦ rw (found, route) s
  ]
