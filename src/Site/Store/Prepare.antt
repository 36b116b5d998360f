-- ===== src/Site/Store/Prepare.antt =====
-- What Apply in apps/nginxproxy/internal/site/store.go checks before it changes a file.
use supabase_installer.Prelude.{Bool, false, ◌||◌, ◌≡◌, refl, sym, ap, ◌∙◌, Text, is_nil, fun_ext}
use supabase_installer.Site.Host.{Place, SiteError, Outcome, done, Host, Act}
use supabase_installer.Site.Store.{
  Store, RenderedSite, check, validate, ensure_nginx_can_read_credentials, prepare,
}
use supabase_installer.Site.Store.Effects.{
  Frame, Quiet, Frame-pure, Frame-fail, Quiet-pure, Quiet-fail, Frame-if, Quiet-if, Frame-system,
  Quiet-system,
}
use supabase_installer.Site.Store.Steps.{Frame->>, Quiet->>}

module _ {inside : Place → Bool} where
  Frame-check : (b : Bool) (e : SiteError) → Frame inside (check b e)
  Frame-check b e = Frame-if b (Frame-pure tt) (Frame-fail e)

  pub Frame-validate : (store : Store) (name auth : Text) → Frame inside (validate store name auth)
  unfolding validate
  Frame-validate store name auth =
      Frame->>
        (Frame->>
          (Frame->> (Frame->> (Frame->> (Frame-check _ _) (Frame-check _ _)) (Frame-check _ _))
            Frame-system)
          Frame-system)
        Frame-system

  Frame-ensure : (store : Store) → Frame inside (ensure_nginx_can_read_credentials store)
  unfolding ensure_nginx_can_read_credentials
  Frame-ensure store = Frame->> (Frame->> (Frame-check _ _) Frame-system) Frame-system

  pub Frame-prepare : (store : Store) (r : RenderedSite) → Frame inside (prepare store r)
  unfolding prepare
  Frame-prepare store r =
      Frame->> (Frame->> (Frame-validate store r.available_name r.auth_file_name) (Frame-check _ _))
        (Frame-if (is_nil r.auth_file_name || is_nil r.auth_contents) (Frame-pure tt)
          (Frame-ensure store))

Quiet-check : (b : Bool) (e : SiteError) → Quiet (check b e)
Quiet-check b e = Quiet-if b (Quiet-pure tt) (Quiet-fail e)

pub Quiet-validate : (store : Store) (name auth : Text) → Quiet (validate store name auth)
unfolding validate
Quiet-validate store name auth =
    Quiet->>
      (Quiet->>
        (Quiet->> (Quiet->> (Quiet->> (Quiet-check _ _) (Quiet-check _ _)) (Quiet-check _ _))
          Quiet-system)
        Quiet-system)
      Quiet-system

Quiet-ensure : (store : Store) → Quiet (ensure_nginx_can_read_credentials store)
unfolding ensure_nginx_can_read_credentials
Quiet-ensure store = Quiet->> (Quiet->> (Quiet-check _ _) Quiet-system) Quiet-system

pub Quiet-prepare : (store : Store) (r : RenderedSite) → Quiet (prepare store r)
unfolding prepare
Quiet-prepare store r =
    Quiet->> (Quiet->> (Quiet-validate store r.available_name r.auth_file_name) (Quiet-check _ _)) (
      Quiet-if (is_nil r.auth_file_name || is_nil r.auth_contents) (Quiet-pure tt)
        (Quiet-ensure store))

-- an action that touches no place leaves the files
pub leaves :
    {A : Type 0} (m : Act A)
    → Frame (λ _. false) m
    → (h : Host) {a : A} {h' : Host} → m h ≡ (done a, h')
    → h'.files ≡ h.files
leaves {A} m fm h p =
    fun_ext (λ q. sym (ap (λ (y : Outcome A × Host). y.1.files q) p) ∙ fm.keeps h q refl)
