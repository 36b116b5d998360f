-- ===== src/Site/Host.antt =====
-- The host that the agent works on: the three directories of nginx, what nginx has loaded, and system
-- calls and commands that may fail. Which of them fail is an input, one entry of `faults` a call.
-- The temporary files of an atomic write live under names of their own, which nginx does not read;
-- only the calls that make them are modelled.
use supabase_installer.Prelude.{
  ℕ, Bool, true, false, List, [], ◌∷◌, Option, if◌then◌else◌, Text, same_text,
}

pub data Place : Type 0 where
  available enabled auth : Text → Place

abbrev pub same_place : Place → Place → Bool
same_place (Place.available a) (Place.available b) = same_text a b
same_place (Place.enabled a) (Place.enabled b) = same_text a b
same_place (Place.auth a) (Place.auth b) = same_text a b
same_place _ _ = false

pub data Node : Type 0 where
  regular : Text → ℕ → Node
  link : Text → Node
  other : Node

abbrev pub Files : Type 0
Files = Place → Option Node

abbrev pub put : Place → Option Node → Files → Files
put p node files q = if same_place p q then node else files q

pub data SiteError : Type 0 where
  invalid_site_name invalid_credential_name no_runner : SiteError
  credential_directory no_dedicated_parent : SiteError
  not_regular not_link : SiteError
  system_call : SiteError
  test_failed reload_failed : SiteError
  restore_failed : SiteError → SiteError → SiteError

pub data Outcome (A : Type 0) : Type 0 where
  done : A → Outcome A
  failed : SiteError → Outcome A

pub record Host : Type 0 where
  pub files : Files
  pub loaded : Files
  pub faults : List Bool

abbrev pub Act : Type 0 → Type 0
Act A = Host → Outcome A × Host

abbrev pub pure : {A : Type 0} → A → Act A
pure a h = (done a, h)

abbrev pub fail : {A : Type 0} → SiteError → Act A
fail e h = (failed e, h)

abbrev pub continue : {A B : Type 0} → Outcome A → (A → Act B) → Act B
continue (done a) f h = f a h
continue (failed e) f h = (failed e, h)

infixl 10 ◌>>=◌ ◌>>◌
unfoldable pub ◌>>=◌ : {A B : Type 0} → Act A → (A → Act B) → Act B
◌>>=◌ m f h = let (r, h') = m h in continue r f h'

abbrev pub ◌>>◌ : {A B : Type 0} → Act A → Act B → Act B
m >> n = m >>= λ _. n

-- a call that may fail with the error, and otherwise has the effect
unfoldable pub next_fault : List Bool → SiteError → (Host → Host) → Act (Unit {0})
next_fault [] e f h = (done tt, f h)
next_fault (true ∷ rest) e f h = (failed e, record h { faults = rest })
next_fault (false ∷ rest) e f h = (done tt, f (record h { faults = rest }))

unfoldable pub call : SiteError → (Host → Host) → Act (Unit {0})
unfolding next_fault
call e f h = next_fault h.faults e f h

-- a system call without an effect on the places
abbrev pub system : Act (Unit {0})
system = call SiteError.system_call (λ h. h)

abbrev pub write : Place → Option Node → Act (Unit {0})
write p node = call SiteError.system_call (λ h. record h { files = put p node h.files })

unfoldable pub look : Place → Act (Option Node)
look p h = (done (h.files p), h)

-- nginx -t, and the reload of what is in the directories
abbrev pub test : Act (Unit {0})
test = call SiteError.test_failed (λ h. h)

abbrev pub reload : Act (Unit {0})
reload = call SiteError.reload_failed (λ h. record h { loaded = h.files })

abbrev pub recover : Outcome (Unit {0}) → (SiteError → Act (Unit {0})) → Act (Unit {0})
recover (done a) f h = (done a, h)
recover (failed e) f h = f e h

-- the action, and on its error the handler
unfoldable pub or_else : Act (Unit {0}) → (SiteError → Act (Unit {0})) → Act (Unit {0})
or_else m f h = let (r, h') = m h in recover r f h'
