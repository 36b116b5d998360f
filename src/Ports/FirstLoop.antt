-- ===== src/Ports/FirstLoop.antt =====
-- The first loop of `ReserveMany` and `CandidateMany`, and the reading after a conflict, over all
-- kinds.
use supabase_installer.Prelude.{
  ℕ, String, Bool, true, false, List, [], ◌∷◌, ◌≡◌, refl, sym, ap, ◌∙◌, subst, arith, is_some,
  if◌then◌else◌,
}
use supabase_installer.Errors.{Result, ok, err}
use supabase_installer.Db.{Conn, pure, lift, attempt}
use supabase_installer.Db.Laws.{>>=-eq-ok, pure-ok}
use supabase_installer.Db.Reads.{Reads, Reads-bind, Reads-pure, Reads-lift, Reads-attempt, Reads-if}
use supabase_installer.Db.Schema.{Tables}
use supabase_installer.Store.Ports.{reserved_port}
use supabase_installer.Store.Ports.Stored.{Looked, reserved_port-Reads, reserved_port-Looked}
use supabase_installer.Ports.{port_at, Known, learn, look, known_ports, reread, reread_one}
use supabase_installer.Ports.Lookup.{
  is_covered, Agrees, port_at-put_port, Agrees-put, member-append, Advanced, Advanced-trans,
  seen_before, attempt-ok, look-Advanced,
}

look_or_seen :
    (project kind : String) (known : Known) (c : Conn) (seen : Bool) {next : Known} {c' : Conn}
    → is_some (port_at kind known.allocated) ≡ seen
    → (if seen then pure known else look project kind known) c ≡ (ok next, c')
    → Advanced project (kind ∷ []) known next c.tables c'.tables
look_or_seen project kind known c true {next} {c'} s h =
    let (same_known, same_conn) = pure-ok known c h in
    subst (λ (x : Known). Advanced project (kind ∷ []) known x c.tables c'.tables) (sym same_known)
      (subst (λ (x : Conn). Advanced project (kind ∷ []) known known c.tables x.tables)
        (sym same_conn) (seen_before project kind known c.tables s))
look_or_seen project kind known c false s h = look-Advanced project kind known c h

nothing_left :
    (project : String) (known : Known) (c : Conn) {next : Known} {c' : Conn}
    → pure known c ≡ (ok next, c')
    → Advanced project [] known next c.tables c'.tables
nothing_left project known c h =
    let (same_known, same_conn) = pure-ok known c h in
    record {
      same_tables = ap (λ (x : Conn). x.tables) same_conn;
      agrees = λ a. subst (λ (x : Known). Agrees project x.allocated c.tables) (sym same_known) a;
      covers = λ j e. subst (λ (x : Known). is_covered j x ≡ true) (sym same_known) e;
    }

-- the first loop changes nothing, reads only what is stored, and covers every kind
pub known_ports-Advanced :
    (project : String) (kinds : List String) (known : Known) (c : Conn) {next : Known} {c' : Conn}
    → known_ports project kinds known c ≡ (ok next, c')
    → Advanced project kinds known next c.tables c'.tables
unfolding known_ports
known_ports-Advanced project [] known c h = nothing_left project known c h
known_ports-Advanced project (kind ∷ kinds) known c {next} {c'} h =
    let seen = is_some (port_at kind known.allocated) in
    let first = if seen then pure known else look project kind known in
    let steps = >>=-eq-ok first (λ k. known_ports project kinds k) c h in
    Advanced-trans project kind kinds known steps.value next c.tables steps.middle.tables c'.tables
      (look_or_seen project kind known c seen refl steps.first)
      (known_ports-Advanced project kinds steps.value steps.middle steps.second)

pub look-Reads : (project kind : String) (known : Known) → Reads (look project kind known)
unfolding look
look-Reads project kind known =
    Reads-bind (attempt (reserved_port project kind)) (λ answer. lift (learn kind answer known))
      (Reads-attempt (reserved_port project kind) (reserved_port-Reads project kind))
      (λ answer. Reads-lift (learn kind answer known))

pub known_ports-Reads :
    (project : String) (kinds : List String) (known : Known)
    → Reads (known_ports project kinds known)
unfolding known_ports
known_ports-Reads project [] known = Reads-pure known
known_ports-Reads project (kind ∷ kinds) known =
    let seen = is_some (port_at kind known.allocated) in
    Reads-bind (if seen then pure known else look project kind known)
      (λ k. known_ports project kinds k)
      (Reads-if seen (pure known) (look project kind known) (Reads-pure known)
        (look-Reads project kind known))
      (λ k. known_ports-Reads project kinds k)

reread_one-Advanced :
    (project kind : String) (answer : Result ℕ) (known : Known) (t : Tables)
    → Looked project kind t answer
    → Advanced project (kind ∷ []) known (reread_one kind answer known) t t
reread_one-Advanced project kind (ok port) known t l = record {
  same_tables = refl;
  agrees = λ h. Agrees-put project kind port known.allocated t l h;
  covers = λ j e. ground (arith, port_at-put_port j kind port known.allocated);
}
reread_one-Advanced project kind (err x) known t l = record {
  same_tables = refl;
  agrees = λ h. h;
  covers = λ j e. ground (arith, member-append j kind known.missing);
}

-- so does the reading after a conflict
pub reread-Advanced :
    (project : String) (kinds : List String) (known : Known) (c : Conn) {next : Known} {c' : Conn}
    → reread project kinds known c ≡ (ok next, c')
    → Advanced project kinds known next c.tables c'.tables
unfolding reread
reread-Advanced project [] known c h = nothing_left project known c h
reread-Advanced project (kind ∷ kinds) known c {next} {c'} h =
    let m = reserved_port project kind in
    let steps =
      >>=-eq-ok (attempt m) (λ answer. reread project kinds (reread_one kind answer known)) c h in
    let (value, middle) = attempt-ok m c steps.first in
    let seen =
      subst (Looked project kind c.tables) (sym value) (reserved_port-Looked project kind c) in
    let here = ap (λ (x : Conn). x.tables) middle ∙ (reserved_port-Reads project kind).keeps c in
    let now = reread_one kind steps.value known in
    Advanced-trans project kind kinds known now next c.tables steps.middle.tables c'.tables
      (subst (Advanced project (kind ∷ []) known now c.tables) (sym here)
        (reread_one-Advanced project kind steps.value known c.tables seen))
      (reread-Advanced project kinds now steps.middle steps.second)

pub reread-Reads :
    (project : String) (kinds : List String) (known : Known) → Reads (reread project kinds known)
unfolding reread
reread-Reads project [] known = Reads-pure known
reread-Reads project (kind ∷ kinds) known =
    Reads-bind (attempt (reserved_port project kind))
      (λ answer. reread project kinds (reread_one kind answer known))
      (Reads-attempt (reserved_port project kind) (reserved_port-Reads project kind))
      (λ answer. reread-Reads project kinds (reread_one kind answer known))
