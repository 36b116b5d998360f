-- ===== src/Ports.antt =====
-- apps/manager/internal/ports/allocator.go: the host ports of a server. The probes (a listener on
-- the host, and the provisioner's view of Docker) are parameters, and answer alike during one call.
-- `Kind` is a string, and a map from kinds to ports is an association list.
pub mod Lookup
pub mod FirstLoop
pub mod Selection
pub mod Reserve
pub mod Attempts
pub mod Failure
pub mod Candidates
use supabase_installer.Prelude.{
  ℕ, zero, suc, ◌+◌, ◌-◌, ◌%◌, String, Bool, true, false, ◌||◌, Option, none, some, List, [], ◌∷◌,
  ◌++◌, ◌==◌, same, any, is_some, length, if◌then◌else◌,
}
use supabase_installer.Errors.{Error, Result, ok, err, not_found, exhausted, is_not_found}
use supabase_installer.Db.{Db, pure, raise, lift, attempt, ◌>>=◌, ◌>>◌}
use supabase_installer.Store.Ports.{
  reserved_port, port_in_use, try_reserve_ports, release_project_ports, release_port,
}

abbrev pub api : String
api = "API"

abbrev pub studio : String
studio = "STUDIO"

abbrev pub direct_db : String
direct_db = "DATABASE"

abbrev pub pooler_transaction : String
pooler_transaction = "POOLER_TRANSACTION"

abbrev pub pooler_session : String
pooler_session = "POOLER_SESSION"

pub record Allocator : Type 0 where
  pub min : ℕ
  pub max : ℕ
  pub probe : ℕ → Bool
  pub remote : Option (ℕ → Result Bool)

abbrev pub Ports : Type 0
Ports = List (String × ℕ)

abbrev pub port_at : String → Ports → Option ℕ
port_at kind [] = none
port_at kind ((k, port) ∷ rest) = if same k kind then some port else port_at kind rest

-- m[kind] = port
abbrev pub put_port : String → ℕ → Ports → Ports
put_port kind port [] = (kind, port) ∷ []
put_port kind port ((k, old) ∷ rest) =
    if same k kind then (k, port) ∷ rest else (k, old) ∷ put_port kind port rest

-- for kind, port := range more { m[kind] = port }
abbrev pub put_all : Ports → Ports → Ports
put_all [] m = m
put_all ((kind, port) ∷ rest) m = put_port kind port (put_all rest m)

abbrev pub values : Ports → List ℕ
values [] = []
values ((_, port) ∷ rest) = port ∷ values rest

abbrev pub is_used : ℕ → List ℕ → Bool
is_used port used = any (λ p. p == port) used

-- `a.max - a.min + 1`, and 0 where Go's number is negative: no loop runs then
abbrev pub range_size : Allocator → ℕ
range_size a = a.max + 1 - a.min

unfoldable pub available : Allocator → ℕ → Result Bool
available a port =
    if a.probe port then (elim a.remote [ none ↦ ok true | some ask ↦ ask port ]) else ok false

-- what the first loop has read so far
pub record Known : Type 0 where
  pub allocated : Ports
  pub missing : List String

-- the answer of `ReservedPort` in the first loop
abbrev learn : String → Result ℕ → Known → Result Known
learn kind (ok port) known = ok (record known { allocated = put_port kind port known.allocated })
learn kind (err e) known =
    if is_not_found e then ok (record known { missing = known.missing ++ kind ∷ [] }) else err e

unfoldable pub look : String → String → Known → Db Known
look project kind known = do
  answer ← attempt (reserved_port project kind)
  lift (learn kind answer known)

unfoldable pub known_ports : String → List String → Known → Db Known
unfolding look
known_ports project [] known = pure known
known_ports project (kind ∷ kinds) known = do
  next ← if is_some (port_at kind known.allocated) then pure known else look project kind known
  known_ports project kinds next

-- for offset := 0; offset < rangeSize; offset++: the first port from the cursor on that is neither
-- used nor taken on the host. `left` is the number of offsets that remain.
unfoldable pub scan : Allocator → ℕ → ℕ → ℕ → List ℕ → Result (Option ℕ)
scan a zero cursor offset used = ok none
scan a (suc left) cursor offset used =
    let rest = scan a left cursor (offset + 1) used in
    let port = a.min + (cursor + offset) % range_size a in
    if is_used port used then rest else (elim (available a port) [
      | err e ↦ err e
      | ok free ↦ if free then ok (some port) else rest
    ])

pub record Choice : Type 0 where
  pub selected : Ports
  pub used : List ℕ

abbrev choose : String → Option ℕ → Choice → Choice
choose kind none choice = choice
choose kind (some port) choice = record {
  selected = put_port kind port choice.selected;
  used = port ∷ choice.used;
}

-- for _, kind := range missing
unfoldable pub select_ports : Allocator → ℕ → List String → Choice → Result Choice
select_ports a cursor [] choice = ok choice
select_ports a cursor (kind ∷ kinds) choice = elim (scan a (range_size a) cursor 0 choice.used) [
  | err e ↦ err e
  | ok found ↦ select_ports a cursor kinds (choose kind found choice)
]

-- after a conflict: what another writer has reserved for this project in the meantime
abbrev reread_one : String → Result ℕ → Known → Known
reread_one kind (ok port) known = record known { allocated = put_port kind port known.allocated }
reread_one kind (err _) known = record known { missing = known.missing ++ kind ∷ [] }

unfoldable pub reread : String → List String → Known → Db Known
reread project [] known = pure known
reread project (kind ∷ kinds) known = do
  answer ← attempt (reserved_port project kind)
  reread project kinds (reread_one kind answer known)

abbrev is_empty : List String → Bool
is_empty [] = true
is_empty (_ ∷ _) = false

-- for cursor := 0; cursor < rangeSize; cursor++: `left` is the number of cursors that remain
unfoldable pub attempts : Allocator → String → ℕ → ℕ → ℕ → Known → Db Ports
attempts a project now zero cursor known = raise exhausted
attempts a project now (suc left) cursor known =
    let again = λ (next : Known). attempts a project now left (cursor + 1) next in
    do
      choice ← lift (
          select_ports a cursor known.missing
            (record { selected = []; used = values known.allocated }))
      if length choice.selected == length known.missing
          then (do
            done ← try_reserve_ports project choice.selected now
            if done then pure (put_all choice.selected known.allocated) else do
              next ←
                  reread project known.missing
                    (record { allocated = known.allocated; missing = [] })
              if is_empty next.missing then pure next.allocated else again next)
          else raise exhausted

unfoldable pub reserve_many : Allocator → String → List String → ℕ → Db Ports
reserve_many a project kinds now = do
  known ← known_ports project kinds (record { allocated = []; missing = [] })
  if is_empty known.missing
      then pure known.allocated
      else attempts a project now (range_size a) 0 known

-- the one loop of `CandidateMany`, over the offsets that remain
unfoldable pub candidates : Allocator → ℕ → ℕ → Ports → List ℕ → List String → Db Ports
candidates a left offset allocated used [] = pure allocated
candidates a zero offset allocated used (kind ∷ kinds) = raise exhausted
candidates a (suc left) offset allocated used (kind ∷ kinds) =
    let port = a.min + offset in
    let skip = candidates a left (offset + 1) allocated used (kind ∷ kinds) in
    let take = candidates a left (offset + 1) (put_port kind port allocated) (port ∷ used) kinds in
    if is_used port used then skip else do
      free ← lift (available a port)
      if free then (do busy ← port_in_use port; if busy then skip else take) else skip

unfoldable pub candidate_many : Allocator → String → List String → Db Ports
candidate_many a project kinds = do
  known ← known_ports project kinds (record { allocated = []; missing = [] })
  candidates a (range_size a) 0 known.allocated (values known.allocated) known.missing

unfoldable pub release_project : String → Db (Unit {0})
release_project project = release_project_ports project

unfoldable pub release : String → String → Db (Unit {0})
release project kind = release_port project kind
