-- ===== src/NameServer/Monitor.antt =====
-- The heartbeats and the failure detection of nameserver.c.
use name_file_system_docs.Base.{
  ℕ, zero, suc, ◌+◌, ◌<◌, ◌≡◌, refl, inl, inr, Bool, true, ◌&&◌, none, some, List, [], ◌∷◌, arith,
}
use name_file_system_docs.Base.Tests.{leb, ◌==◌, if◌then◌else◌, Bool-cases}
use name_file_system_docs.Base.Lists.{length, get_elem?, set}
use name_file_system_docs.Base.Strings.{CString, same}
use name_file_system_docs.Registry.Routing.{find_server}
use name_file_system_docs.NameServer.{Message, NameServer, handle_heartbeat}
use name_file_system_docs.Registry.Routing.{StorageServer, is_alive}
use name_file_system_docs.NameServer.{failure_detection}

-- The time of the last heartbeat of server `i`.
abbrev pub beat_at : List StorageServer → ℕ → ℕ
beat_at servers i = elim (get_elem? servers i) [ none ↦ 0 | some s ↦ s.last_heartbeat ]

-- One round of the failure detection declares dead exactly the servers whose last heartbeat is
-- more than 15 seconds old, and revives none; no server's heartbeat changes.
is_alive-detection :
    (now : ℕ) (servers : List StorageServer) (i : ℕ)
    → (is_alive (failure_detection now servers) i
        ≡ (is_alive servers i && leb now (beat_at servers i + 15)))
      × (beat_at (failure_detection now servers) i ≡ beat_at servers i)
unfolding is_alive failure_detection
is_alive-detection now [] i = (refl, refl)
is_alive-detection now (s ∷ ss) zero = ground arith
is_alive-detection now (s ∷ ss) (suc i) = is_alive-detection now ss i

-- Rounds at these times, in this order.
unfoldable pub rounds : List ℕ → List StorageServer → List StorageServer
rounds [] servers = servers
rounds (now ∷ later) servers = rounds later (failure_detection now servers)

-- None of the times is after the limit.
unfoldable pub all_within : ℕ → List ℕ → Bool
all_within limit [] = true
all_within limit (now ∷ later) = leb now limit && all_within limit later

-- A server is dead after some rounds exactly if it was before, or one of them came more than 15
-- seconds after its last heartbeat.
rounds_result :
    (times : List ℕ) (servers : List StorageServer) (i : ℕ)
    → is_alive (rounds times servers) i
      ≡ (is_alive servers i && all_within (beat_at servers i + 15) times)
unfolding rounds all_within
rounds_result [] servers i = ground arith
rounds_result (now ∷ later) servers i =
    ground (
      arith,
      rounds_result later (failure_detection now servers) i,
      is_alive-detection now servers i,
    )

find_server-lt :
    (servers : List StorageServer) (ip : CString) (port k i : ℕ)
    → find_server servers ip port k ≡ some i
    → (d : ℕ) × (i ≡ k + d) × (d < length servers)
unfolding find_server
find_server-lt [] ip port k i h = absurd (ground arith)
find_server-lt (s ∷ ss) ip port k i h = elim (Bool-cases (same s.ip ip && s.nm_port == port)) [
  | inl hit ↦ (0, ground arith, omega arith)
  | inr miss ↦
      let (d, at, lt) = find_server-lt ss ip port (k + 1) i (ground arith) in
      (suc d, omega arith, omega arith)
]

is_alive-set :
    (servers : List StorageServer) (i j now : ℕ) (s : StorageServer)
    → get_elem? servers i ≡ some s
    → let after = set servers i (record s { last_heartbeat = now; is_alive = true }) in
      (is_alive after j ≡ (if i == j then true else is_alive servers j))
      × (beat_at after j ≡ (if i == j then now else beat_at servers j))
unfolding is_alive
is_alive-set [] i j now s there = absurd (ground arith)
is_alive-set (x ∷ xs) zero zero now s there = (refl, refl)
is_alive-set (x ∷ xs) zero (suc j) now s there = ground arith
is_alive-set (x ∷ xs) (suc i) zero now s there = ground arith
is_alive-set (x ∷ xs) (suc i) (suc j) now s there = ground (arith, is_alive-set xs i j now s there)

get_some :
    (servers : List StorageServer) (i : ℕ)
    → i < length servers
    → (s : StorageServer) × (get_elem? servers i ≡ some s)
get_some [] i h = absurd (omega arith)
get_some (x ∷ xs) zero h = (x, refl)
get_some (x ∷ xs) (suc i) h = get_some xs i (omega arith)

-- A heartbeat lasts 15 seconds. After the heartbeat of a registered server at `now`, dead or not,
-- and after any rounds of the failure detection, the server is alive exactly if no round came
-- after `now + 15`; any other server is as alive as it would be without the heartbeat.
pub heartbeat_lasts :
    (ns : NameServer) (msg : Message) (now i j : ℕ) (times : List ℕ)
    → find_server ns.routes.servers msg.ip_address msg.nm_port 0 ≡ some i
    → is_alive (rounds times (handle_heartbeat ns msg now).1.routes.servers) j ≡ (
        if i == j then all_within (now + 15) times else is_alive (rounds times ns.routes.servers) j)
unfolding handle_heartbeat
heartbeat_lasts ns msg now i j times known =
    let (d, at, lt) = find_server-lt ns.routes.servers msg.ip_address msg.nm_port 0 i known in
    let (s, there) = get_some ns.routes.servers i (omega arith) in
    rw
      (
        known,
        handle_heartbeat,
        there,
        rounds_result times
            (set ns.routes.servers i (record s { last_heartbeat = now; is_alive = true })) j,
        rounds_result times ns.routes.servers j,
      )
      (ground (arith, is_alive-set ns.routes.servers i j now s there))
