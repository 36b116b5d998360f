-- ===== src/Ports/Selection.antt =====
-- The choice of ports at one cursor: which ports are chosen, and when every kind has one.
use supabase_installer.Prelude.{
  ℕ, zero, suc, ◌+◌, ◌-◌, ◌%◌, ◌≤◌, ◌<◌, String, same, true, false, ◌||◌, Option, none, some, List,
  [], ◌∷◌, ◌≡◌, refl, ap, ◌∙◌, subst, arith, length, is_some, if◌then◌else◌, Bool-cases, ◌⊎◌, inl,
  inr,
}
use native.Mathlib.Nat.{mod-lt}
use supabase_installer.Errors.{ok}
use supabase_installer.Ports.{
  Allocator, Ports, port_at, put_port, is_used, range_size, available, scan, Choice, choose,
  select_ports,
}
use supabase_installer.Ports.Lookup.{member, port_at-put_port}

-- a port of the range that nothing listens on
pub record IsGood (a : Allocator) (port : ℕ) : Type 0 where
  pub above : a.min ≤ port
  pub below : port ≤ a.max
  pub vacant : available a port ≡ ok true

pub in_range : (min max n : ℕ) → n < max + 1 - min → min + n ≤ max
in_range min max n h = omega arith

scan_step :
    (a : Allocator) (left cursor offset : ℕ) (used : List ℕ) (port : ℕ)
    → scan a (suc left) cursor offset used ≡ ok (some port)
    → (scan a left cursor (offset + 1) used ≡ ok (some port))
      ⊎ ((port ≡ a.min + (cursor + offset) % range_size a)
          × (is_used port used ≡ false)
          × (available a port ≡ ok true))
unfolding scan
scan_step a left cursor offset used port h = ground arith

-- a scan finds only good ports that are not used
pub scan-IsGood :
    (a : Allocator) (left cursor offset : ℕ) (used : List ℕ) (port : ℕ)
    → 0 < range_size a
    → scan a left cursor offset used ≡ ok (some port)
    → IsGood a port × (is_used port used ≡ false)
scan-IsGood a zero cursor offset used port w h = absurd (unfold scan in cc h)
scan-IsGood a (suc left) cursor offset used port w h =
    elim (scan_step a left cursor offset used port h) [
      | inl later ↦ scan-IsGood a left cursor (offset + 1) used port w later
      | inr (at, fresh, free) ↦
          let small : (cursor + offset) % range_size a < range_size a =
            mod-lt (cursor + offset) w in
          (
            record {
              above = omega arith;
              below = rw at (in_range a.min a.max _ small);
              vacant = free;
            },
            fresh,
          )
    ]

abbrev pub AllGood : Allocator → Ports → Type 0
AllGood a m = (kind : String) (port : ℕ) → port_at kind m ≡ some port → IsGood a port

length-put_port :
    (kind : String) (port : ℕ) (m : Ports)
    → length (put_port kind port m)
      ≡ (if is_some (port_at kind m) then length m else suc (length m))
length-put_port kind port [] = refl
length-put_port kind port ((k, p) ∷ m) = ground (arith, length-put_port kind port m)

-- what the choice at one cursor keeps and adds
pub record Selected (a : Allocator) (kinds : List String) (old new : Ports) : Type 0 where
  pub good : AllGood a old → AllGood a new
  pub bound : length new ≤ length old + length kinds
  pub full :
      length new ≡ length old + length kinds
      → (j : String) → (member j kinds || is_some (port_at j old)) ≡ true
      → is_some (port_at j new) ≡ true

good_put :
    (a : Allocator) (kind : String) (port : ℕ) (m : Ports)
    → IsGood a port
    → AllGood a m
    → AllGood a (put_port kind port m)
good_put a kind port m g h k p e = elim (Bool-cases (same kind k)) [
  | inl one ↦
      let same_port : port ≡ p = ground (arith, port_at-put_port k kind port m) in
      subst (IsGood a) same_port g
  | inr other ↦ h k p (ground (arith, port_at-put_port k kind port m))
]

select_step :
    (a : Allocator) (cursor : ℕ) (kind : String) (kinds : List String) (choice next : Choice)
    → select_ports a cursor (kind ∷ kinds) choice ≡ ok next
    → (found : Option ℕ) × (scan a (range_size a) cursor 0 choice.used ≡ ok found)
      × (select_ports a cursor kinds (choose kind found choice) ≡ ok next)
unfolding select_ports
select_step a cursor kind kinds choice next h = ground arith

chosen_one :
    (a : Allocator) (kind : String) (kinds : List String) (found : Option ℕ) (choice : Choice)
    (new : Ports)
    → ((port : ℕ) → found ≡ some port → IsGood a port)
    → Selected a kinds (choose kind found choice).selected new
    → Selected a (kind ∷ kinds) choice.selected new
chosen_one a kind kinds none choice new g s = record {
  good = s.good;
  bound = omega (arith, s.bound);
  full = λ e j m. absurd (omega (arith, s.bound));
}
chosen_one a kind kinds (some port) choice new g s = record {
  good = λ h. s.good (good_put a kind port choice.selected (g port refl) h);
  bound = ground (arith, s.bound, length-put_port kind port choice.selected);
  full = λ e j m.
      s.full (ground (arith, s.bound, length-put_port kind port choice.selected)) j
        (ground (arith, port_at-put_port j kind port choice.selected));
}

-- With a range that is not empty, each chosen port is in the range and free on the host, and if there
-- are as many ports as kinds then each kind has one.
pub select_ports-Selected :
    (a : Allocator) (cursor : ℕ) (kinds : List String) (choice next : Choice)
    → 0 < range_size a
    → select_ports a cursor kinds choice ≡ ok next
    → Selected a kinds choice.selected next.selected
select_ports-Selected a cursor [] choice next w h =
    let one : choice ≡ next = unfold select_ports in cc h in
    record {
      good = λ g. subst (λ (x : Choice). AllGood a x.selected) one g;
      bound = rw (← one) (omega arith);
      full = λ e j m. subst (λ (x : Choice). is_some (port_at j x.selected) ≡ true) one m;
    }
select_ports-Selected a cursor (kind ∷ kinds) choice next w h =
    let (found, at, rest) = select_step a cursor kind kinds choice next h in
    chosen_one a kind kinds found choice next.selected
      (λ port e. (scan-IsGood a (range_size a) cursor 0 choice.used port w (at ∙ ap ok e)).0)
      (select_ports-Selected a cursor kinds (choose kind found choice) next w rest)
