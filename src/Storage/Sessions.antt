-- ===== src/Storage/Sessions.antt =====
-- Over the runs of `client_server_thread` in storage_server.c: when a session is open, and what becomes
-- of one that is left open.
use name_file_system_docs.Base.{
  ℕ, ◌≡◌, refl, ap, ◌∙◌, subst, ◌⊎◌, inl, inr, true, false, ◌||◌, Option, none, some, List, [], ◌∷◌,
  arith,
}
use name_file_system_docs.Base.Tests.{◌==◌, Bool-cases, Option-cases, both_branches}
use name_file_system_docs.Base.Strings.{same}
use name_file_system_docs.Storage.Forwarded.{forwarded_request}
use name_file_system_docs.Storage.Kept.{forwarded-Keeps}
use name_file_system_docs.Table.Chain.{update}
use name_file_system_docs.Protocol.{
  op_checkpoint, op_listcheckpoints, op_read, op_revert, op_search, op_stream, op_undo,
  op_viewcheckpoint, op_write_commit, op_write_start, op_write_update,
}
use name_file_system_docs.Storage.{Calls, Message, Server, WriteSession}
use name_file_system_docs.Storage.Connection.{
  Event, Link, Running, Turn, coded, disconnected, first_message, forwarded,
  handle_checkpoint_request, handle_revert_request, kept, lost, next_message, received, run, sent,
  step, swept, waiting, writing,
}
use name_file_system_docs.Storage.Requests.{
  Packet, handle_search_request, handle_stream_request, handle_undo_request, write_restored,
}
use name_file_system_docs.Storage.Writing.{write_back, write_commit, write_start}

-- Between clients no session is active.
abbrev pub IsIdle : Running → Type 0
IsIdle (waiting, s) = s.write_session.active ≡ false
IsIdle (writing, s) = Unit

-- In a session the client sends updates, and a commit.
abbrev pub IsPolite : Link → Event → Type 0
IsPolite writing (received msg calls) =
    (msg.operation == op_write_update || msg.operation == op_write_commit) ≡ true
IsPolite link e = Unit

abbrev pub ArePolite : Running → List Event → Type 0
ArePolite r [] = Unit
ArePolite r (e ∷ es) =
    IsPolite r.0 e × (elim (step r e) [ none ↦ Unit | some r' ↦ ArePolite r' es ])

-- A handler that leaves the session alone.
abbrev Leaves : Server → Turn → Type 0
Leaves s none = Unit
Leaves s (some (link, s', packets)) = (link ≡ writing) ⊎ (s'.write_session ≡ s.write_session)

undo-Leaves :
    (s : Server) (msg : Message) (calls : Calls)
    → Leaves s (coded waiting (handle_undo_request s msg calls))
unfolding handle_undo_request write_restored
undo-Leaves s msg calls = ground arith

coded-Leaves : (s : Server) (o : Option (ℕ × Server)) → Leaves s (coded writing o)
coded-Leaves s none = tt
coded-Leaves s (some (code, s')) = inl refl

sent-Leaves : (s : Server) (o : Option (List Packet)) → Leaves s (sent s o)
sent-Leaves s none = tt
sent-Leaves s (some packets) = inr refl

-- A client's first message leaves the session alone, or is a WRITE_START.
first-Leaves : (s : Server) (msg : Message) (calls : Calls) → Leaves s (first_message s msg calls)
unfolding first_message handle_checkpoint_request handle_revert_request
first-Leaves s msg calls =
    let or_else = both_branches (Leaves s) in
    or_else (msg.operation == op_write_start) _ _ (coded-Leaves s (write_start s msg calls)) (
      or_else (msg.operation == op_read) _ _ (inr refl) (
        or_else (msg.operation == op_write_update || msg.operation == op_write_commit) _ _
          (inr refl)
          (or_else (msg.operation == op_undo) _ _ (undo-Leaves s msg calls) (
            or_else (msg.operation == op_stream) _ _
              (sent-Leaves s (handle_stream_request s msg calls))
              (or_else (msg.operation == op_checkpoint) _ _ (inr refl) (
                or_else (msg.operation == op_viewcheckpoint) _ _ (inr refl) (
                  or_else (msg.operation == op_revert) _ _ (inr refl) (
                    or_else (msg.operation == op_listcheckpoints) _ _ (inr refl) (
                      or_else (msg.operation == op_search) _ _
                        (sent-Leaves s (handle_search_request s msg)) (inr refl))))))))))

commit_inactive :
    (s : Server) (calls : Calls) (code : ℕ) (s' : Server)
    → write_commit s calls ≡ some (code, s')
    → s'.write_session.active ≡ false
unfolding write_commit write_back
commit_inactive s calls code s' h = ground arith

-- The state of a turn, if there is no fault.
abbrev Ends : (Running → Type 0) → Turn → Type 0
Ends P none = Unit
Ends P (some (link, s, packets)) = P (link, s)

abbrev EndsOption : (Running → Type 0) → Option Running → Type 0
EndsOption P none = Unit
EndsOption P (some r) = P r

Ends-kept : (P : Running → Type 0) (t : Turn) → Ends P t → EndsOption P (kept t)
Ends-kept P none h = tt
Ends-kept P (some (link, s, packets)) h = h

first-IsIdle : (s : Server) (t : Turn) → s.write_session.active ≡ false → Leaves s t → Ends IsIdle t
first-IsIdle s none idle l = tt
first-IsIdle s (some (writing, s', packets)) idle l = tt
first-IsIdle s (some (waiting, s', packets)) idle (inl bad) = absurd (cc)
first-IsIdle s (some (waiting, s', packets)) idle (inr same) =
    ap (λ (w : WriteSession). w.active) same ∙ idle

commit-IsIdle :
    (s : Server) (calls : Calls) (o : Option (ℕ × Server))
    → write_commit s calls ≡ o
    → Ends IsIdle (coded waiting o)
commit-IsIdle s calls none e = tt
commit-IsIdle s calls (some (code, s')) e = commit_inactive s calls code s' e

next-IsIdle :
    (s : Server) (msg : Message) (calls : Calls)
    → (msg.operation == op_write_update || msg.operation == op_write_commit) ≡ true
    → Ends IsIdle (next_message s msg calls)
unfolding next_message
next-IsIdle s msg calls polite = elim (Bool-cases (msg.operation == op_write_update)) [
  | inl update ↦ rw update tt
  | inr other ↦ elim (Bool-cases (msg.operation == op_write_commit)) [
    | inl commit ↦ rw (other, commit) (commit-IsIdle s calls (write_commit s calls) refl)
    | inr bad ↦ absurd (ground arith)
  ]
]

disconnected-IsIdle :
    (link : Link) (s : Server) → IsIdle (link, s) → Ends IsIdle (disconnected link s)
unfolding disconnected
disconnected-IsIdle waiting s idle = idle
disconnected-IsIdle writing s idle = ground arith

forwarded-IsIdle :
    (link : Link) (s : Server) (msg : Message) (calls : Calls)
    → IsIdle (link, s)
    → IsIdle (link, (forwarded_request s msg calls).1)
forwarded-IsIdle waiting s msg calls idle =
    ap (λ (w : WriteSession). w.active) (forwarded-Keeps s msg calls).0 ∙ idle
forwarded-IsIdle writing s msg calls idle = tt

step-IsIdle : (r : Running) (e : Event) → IsIdle r → IsPolite r.0 e → EndsOption IsIdle (step r e)
unfolding step
step-IsIdle (waiting, s) (received msg calls) idle p =
    Ends-kept IsIdle (first_message s msg calls)
      (first-IsIdle s (first_message s msg calls) idle (first-Leaves s msg calls))
step-IsIdle (writing, s) (received msg calls) idle p =
    Ends-kept IsIdle (next_message s msg calls) (next-IsIdle s msg calls p)
step-IsIdle (link, s) lost idle p =
    Ends-kept IsIdle (disconnected link s) (disconnected-IsIdle link s idle)
step-IsIdle (link, s) (forwarded msg calls) idle p = forwarded-IsIdle link s msg calls idle
step-IsIdle (waiting, s) (swept now) idle p = idle
step-IsIdle (writing, s) (swept now) idle p = tt

-- No session is left open. In a run of the server, with any messages of clients one after another,
-- lost connections, requests of the name server and sweeps, that starts between clients with no active
-- session: whenever the thread waits for the next client, no session is active. The condition is that
-- in a session a client sends updates and a commit only, or is lost.
pub run-IsIdle :
    (r : Running) (es : List Event) (r' : Running)
    → IsIdle r
    → ArePolite r es
    → run r es ≡ some r'
    → IsIdle r'
unfolding run
run-IsIdle r [] r' idle p h = let e : r ≡ r' = cc in subst IsIdle e idle
run-IsIdle r (e ∷ es) r' idle p h =
    let ends = step-IsIdle r e idle p.0 in
    elim (Option-cases (step r e)) [
      | inl fault ↦
          let stuck =
            subst (λ (o : Option Running). (elim o [ none ↦ none | some r₁ ↦ run r₁ es ]) ≡ some r')
              fault h in
          absurd (cc)
      | inr (r₁, there) ↦
          run-IsIdle r₁ es r' (subst (EndsOption IsIdle) there ends)
            (subst (λ (o : Option Running). elim o [ none ↦ Unit {0} | some r₁ ↦ ArePolite r₁ es ])
              there p.1)
            (subst
              (λ (o : Option Running). (elim o [ none ↦ none | some r₁ ↦ run r₁ es ]) ≡ some r')
              there h)
    ]
