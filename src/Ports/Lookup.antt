-- ===== src/Ports/Lookup.antt =====
-- The first loop of `ReserveMany` and `CandidateMany`: each kind is read from the store or missing.
use supabase_installer.Prelude.{
  ℕ, String, same, same_iff, Bool, true, ◌||◌, some, List, [], ◌∷◌, ◌++◌, ◌≡◌, refl, sym, ap, ◌∙◌,
  subst, arith, any, is_some, if◌then◌else◌, Bool-cases, inl, inr,
}
use supabase_installer.Errors.{Result, ok, err}
use supabase_installer.Db.{Conn, Db, lift, attempt}
use supabase_installer.Db.Laws.{>>=-eq-ok}
use supabase_installer.Db.Schema.{Tables}
use supabase_installer.Store.Ports.{reserved_port}
use supabase_installer.Store.Ports.Stored.{
  stored, Looked, reserved_port-Reads, reserved_port-Looked,
}
use supabase_installer.Ports.{Ports, port_at, put_port, Known, learn, look}

abbrev pub member : String → List String → Bool
member kind kinds = any (λ k. same k kind) kinds

-- the kind has been read or is missing
abbrev pub is_covered : String → Known → Bool
is_covered kind known = is_some (port_at kind known.allocated) || member kind known.missing

-- what was read is what the store has
abbrev pub Agrees : String → Ports → Tables → Type 0
Agrees project m t =
    (kind : String) (port : ℕ) → port_at kind m ≡ some port → stored project kind t ≡ some port

pub port_at-put_port :
    (kind k : String) (port : ℕ) (m : Ports)
    → port_at kind (put_port k port m) ≡ (if same k kind then some port else port_at kind m)
port_at-put_port kind k port [] = refl
port_at-put_port kind k port ((j, p) ∷ m) =
    ground (arith, same_iff j kind, same_iff k kind, same_iff j k, port_at-put_port kind k port m)

pub member-append :
    (kind k : String) (kinds : List String)
    → member kind (kinds ++ k ∷ []) ≡ (member kind kinds || same k kind)
member-append kind k [] = ground arith
member-append kind k (j ∷ kinds) = ground (arith, member-append kind k kinds)

pub Agrees-put :
    (project kind : String) (port : ℕ) (m : Ports) (t : Tables)
    → stored project kind t ≡ some port
    → Agrees project m t
    → Agrees project (put_port kind port m) t
Agrees-put project kind port m t s h k p e = elim (Bool-cases (same kind k)) [
  | inl one ↦ ground (
    arith,
    port_at-put_port k kind port m,
    ap (λ (x : String). stored project x t) ((same_iff kind k).0 one),
  )
  | inr other ↦ h k p (sym (port_at-put_port k kind port m ∙ rw other refl) ∙ e)
]

learn-Agrees :
    (project kind : String) (answer : Result ℕ) (known next : Known) (t : Tables)
    → Looked project kind t answer
    → learn kind answer known ≡ ok next
    → Agrees project known.allocated t
    → Agrees project next.allocated t
learn-Agrees project kind (ok port) known next t l e h =
    let put = Agrees-put project kind port known.allocated t l h in
    let same_map : put_port kind port known.allocated ≡ next.allocated = cc e in
    subst (λ m. Agrees project m t) same_map put
learn-Agrees project kind (err x) known next t l e h =
    let same_map : known.allocated ≡ next.allocated = ground arith in
    subst (λ m. Agrees project m t) same_map h

learn-covered :
    (kind j : String) (answer : Result ℕ) (known next : Known)
    → learn kind answer known ≡ ok next
    → (same kind j || is_covered j known) ≡ true
    → is_covered j next ≡ true
learn-covered kind j (ok port) known next e h =
    ground (arith, port_at-put_port j kind port known.allocated)
learn-covered kind j (err x) known next e h = ground (arith, member-append j kind known.missing)

-- what one pass over a kind keeps and adds
pub record Advanced (project : String) (kinds : List String) (known next : Known) (t t' : Tables)
    : Type 0 where
  pub same_tables : t' ≡ t
  pub agrees : Agrees project known.allocated t → Agrees project next.allocated t
  pub covers :
      (j : String) → (member j kinds || is_covered j known) ≡ true → is_covered j next ≡ true

pub attempt-ok {ℓ} :
    {A : Type ℓ} (m : Db A) (c : Conn) {r : Result A} {c' : Conn}
    → attempt m c ≡ (ok r, c')
    → (r ≡ (m c).0) × (c' ≡ (m c).1)
unfolding attempt
attempt-ok m c h = (cc h, cc h)

pub look-Advanced :
    (project kind : String) (known : Known) (c : Conn) {next : Known} {c' : Conn}
    → look project kind known c ≡ (ok next, c')
    → Advanced project (kind ∷ []) known next c.tables c'.tables
unfolding look
look-Advanced project kind known c {next} {c'} h =
    let m = reserved_port project kind in
    let steps = >>=-eq-ok (attempt m) (λ answer. lift (learn kind answer known)) c h in
    let (value, middle) = attempt-ok m c steps.first in
    let learned : learn kind steps.value known ≡ ok next =
      ap (λ (x : Result Known × Conn). x.0) steps.second in
    let seen =
      subst (Looked project kind c.tables) (sym value) (reserved_port-Looked project kind c) in
    record {
      same_tables =
          ap (λ (x : Conn). x.tables)
            (sym (ap (λ (x : Result Known × Conn). x.1) steps.second) ∙ middle)
          ∙ (reserved_port-Reads project kind).keeps c;
      agrees = learn-Agrees project kind steps.value known next c.tables seen learned;
      covers = λ j e. learn-covered kind j steps.value known next learned (ground arith);
    }

pub Advanced-trans :
    (project kind : String) (kinds : List String) (a b d : Known) (t u v : Tables)
    → Advanced project (kind ∷ []) a b t u
    → Advanced project kinds b d u v
    → Advanced project (kind ∷ kinds) a d t v
Advanced-trans project kind kinds a b d t u v f g = record {
  same_tables = g.same_tables ∙ f.same_tables;
  agrees = λ h.
      subst (Agrees project d.allocated) f.same_tables
        (g.agrees (subst (Agrees project b.allocated) (sym f.same_tables) (f.agrees h)));
  covers = λ j e. g.covers j (ground (arith, f.covers j));
}

pub seen_before :
    (project kind : String) (known : Known) (t : Tables)
    → is_some (port_at kind known.allocated) ≡ true
    → Advanced project (kind ∷ []) known known t t
seen_before project kind known t h = record {
  same_tables = refl;
  agrees = λ a. a;
  covers = λ j e. ground (
    arith,
    ap (λ (x : String). is_some (port_at x known.allocated)) (λ i. kind),
    same_iff kind j,
  );
}
