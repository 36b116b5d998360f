-- ===== src/Ports/Reserve.antt =====
-- `ReserveMany` of apps/manager/internal/ports/allocator.go: its relation to what the store holds.
use supabase_installer.Prelude.{
  ℕ, String, same, same_iff, same_self, true, false, some, List, [], ◌∷◌, ◌++◌, ◌≡◌, refl, sym, ap,
  ◌∙◌, subst, arith, ◌==◌, any, find, length, is_some, if◌then◌else◌, Bool-cases, inl, inr,
}
use supabase_installer.Db.Schema.{Tables, AllocationRow}
use supabase_installer.Store.Ports.{has_kind}
use supabase_installer.Store.Ports.Laws.{allocation, add_allocation, add_all, claimable, Claimed}
use supabase_installer.Store.Ports.Stored.{owned, stored, stored-add_all}
use supabase_installer.Ports.{Allocator, Ports, port_at, put_all, Known, Choice}
use supabase_installer.Ports.Lookup.{member, is_covered, Agrees, port_at-put_port}
use supabase_installer.Ports.Selection.{AllGood, Selected}

port_at-put_all :
    (kind : String) (new m : Ports)
    → port_at kind (put_all new m)
      ≡ (if is_some (port_at kind new) then port_at kind new else port_at kind m)
port_at-put_all kind [] m = refl
port_at-put_all kind ((k, p) ∷ new) m =
    ground (arith, port_at-put_all kind new m, port_at-put_port kind k p (put_all new m))

stored_fresh :
    (project kind : String) (now port : ℕ) (rows : List AllocationRow)
    → any (has_kind project kind) rows ≡ false
    → owned (find (has_kind project kind) (rows ++ allocation project now kind port ∷ []))
      ≡ some port
stored_fresh project kind now port [] h = rw (same_self project, same_self kind) refl
stored_fresh project kind now port (x ∷ rows) h =
    ground (arith, stored_fresh project kind now port rows)

stored-new :
    (project : String) (now : ℕ) (new : Ports) (kind : String) (port : ℕ) (t : Tables)
    → claimable project now new t ≡ true
    → port_at kind new ≡ some port
    → stored project kind (add_all project now new t) ≡ some port
stored-new project now [] kind port t c h = cc
stored-new project now ((k, p) ∷ new) kind port t c h =
    let t' = add_allocation (allocation project now k p) t in
    elim (Bool-cases (same k kind)) [
      | inl one ↦
          let here = stored_fresh project k now p t.allocations (ground arith) in
          let same_port : p ≡ port = ground arith in
          let at_kind = ap (λ (x : String). stored project x t') ((same_iff k kind).0 one) in
          stored-add_all project now new kind t' port (ground arith)
            (sym at_kind ∙ here ∙ ap some same_port)
      | inr other ↦ stored-new project now new kind port t' (ground arith) (ground arith)
    ]

-- what a reservation of `kinds` that succeeds has done
pub record Reserved (a : Allocator) (project : String) (kinds : List String) (now : ℕ) (m : Ports)
    (t t' : Tables) : Type 0 where
  pub new : Ports
  pub claimed : Claimed project now new t t'
  pub good : AllGood a new
  pub agrees : Agrees project m t'
  pub complete : (kind : String) → member kind kinds ≡ true → is_some (port_at kind m) ≡ true

pub nothing_new :
    (a : Allocator) (project : String) (kinds : List String) (now : ℕ) (m : Ports) (t t' : Tables)
    → t' ≡ t
    → Agrees project m t
    → ((kind : String) → member kind kinds ≡ true → is_some (port_at kind m) ≡ true)
    → Reserved a project kinds now m t t'
nothing_new a project kinds now m t t' e g f = record {
  new = [];
  claimed = record { was_free = refl; added = e };
  good = λ kind port h. cc;
  agrees = subst (Agrees project m) (sym e) g;
  complete = f;
}

-- what is known before an attempt
pub record IsKnown (project : String) (kinds : List String) (known : Known) (t : Tables)
    : Type 0 where
  pub agrees : Agrees project known.allocated t
  pub covers : (kind : String) → member kind kinds ≡ true → is_covered kind known ≡ true

Agrees-Claimed :
    (project : String) (now : ℕ) (new m : Ports) (t t' : Tables)
    → Claimed project now new t t'
    → Agrees project m t
    → Agrees project (put_all new m) t'
Agrees-Claimed project now new m t t' c g kind port h =
    subst (λ (x : Tables). stored project kind x ≡ some port) (sym c.added)
      (elim (Bool-cases (is_some (port_at kind new))) [
        | inl fresh ↦
            stored-new project now new kind port t c.was_free
              (ground (arith, port_at-put_all kind new m))
        | inr old ↦
            stored-add_all project now new kind t port c.was_free
              (g kind port (ground (arith, port_at-put_all kind new m)))
      ])

pub won :
    (a : Allocator) (project : String) (kinds : List String) (now : ℕ) (known : Known)
    (choice : Choice) (t t' : Tables)
    → IsKnown project kinds known t
    → Selected a known.missing [] choice.selected
    → (length choice.selected == length known.missing) ≡ true
    → Claimed project now choice.selected t t'
    → Reserved a project kinds now (put_all choice.selected known.allocated) t t'
won a project kinds now known choice t t' k s n c = record {
  new = choice.selected;
  claimed = c;
  good = s.good (λ kind port h. cc);
  agrees = Agrees-Claimed project now choice.selected known.allocated t t' c k.agrees;
  complete = λ kind h. ground (
    arith,
    port_at-put_all kind choice.selected known.allocated,
    k.covers kind h,
    s.full (ground arith) kind,
  );
}
