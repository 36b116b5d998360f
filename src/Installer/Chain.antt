-- ===== src/Installer/Chain.antt =====
-- What the steps of Run in apps/manager/internal/install/orchestrator.go have done when no error is returned.
use supabase_installer.Prelude.{ℕ, ◌+◌, String, Option, none, some, ◌≡◌, sym, ap, ◌∙◌}
use supabase_installer.Contracts.{Project, Operation}
use supabase_installer.Errors.{Error, Result, ok, err}
use supabase_installer.Db.{Conn, Db, attempt, ◌>>=◌}
use supabase_installer.Db.Laws.{>>=-eq-ok, pure-ok}
use supabase_installer.Db.Guards.{attempt->>=-ok}
use supabase_installer.Operation
use supabase_installer.Lifecycle.{Ran, gave, latest}
use supabase_installer.Installer.Run.{Orchestrator, step, rollback, answer, or_rollback}

abbrev pub NoError : Ran → Type 0
NoError ran = ran.error ≡ none

pub gave-error :
    (o : Option Operation) (e : Error) (c : Conn) {ran : Ran} {c' : Conn}
    → gave o e c ≡ (ok ran, c')
    → ran.error ≡ some e
gave-error o e c h = let done = pure-ok _ c h in ap (λ (r : Ran). r.error) done.0

pub some-none : {e : Error} {x : Option Error} → x ≡ some e → x ≡ none → ⊥
some-none p q = cc

module _ (o : Orchestrator) where
  pub step-ok {ℓ} :
      {A : Type ℓ} (tick : ℕ) (id name : String) (progress : ℕ) (action : Db A) (c : Conn) {a : A}
      {c' : Conn}
      → step o tick id name progress action c ≡ (ok a, c')
      → (d : Conn) × (e : Conn) × (action d ≡ (ok a, e))
  unfolding step
  step-ok tick id name progress action c h =
      let opened = >>=-eq-ok (Operation.start_step (o.clock tick) id name progress) _ c h in
      let acted = >>=-eq-ok action _ opened.middle opened.second in
      let closed =
        >>=-eq-ok (Operation.complete_step (o.clock (tick + 1)) id name progress) _ acted.middle
          acted.second in
      let (value, _) = pure-ok acted.value closed.middle closed.second in
      (opened.middle, acted.middle, acted.first ∙ (λ i. (ok (sym value i), acted.middle)))

  module _ (project : Project) (queued : Operation) where
    rollback-error :
        (name : String) (cause : Error) (c : Conn) {ran : Ran} {c' : Conn}
        → rollback o project queued name cause c ≡ (ok ran, c')
        → ran.error ≡ some cause
    unfolding rollback
    rollback-error name cause c h =
        let last =
          >>=-eq-ok _ (λ _. attempt (Operation.get queued.id) >>= λ r. gave (latest r) cause) c h in
        let tried =
          attempt->>=-ok (Operation.get queued.id) (λ r. gave (latest r) cause) last.middle
            last.second in
        gave-error (latest tried.value) cause tried.middle tried.rest

    -- the value that the part has given, and the run of the rest
    pub record Went {ℓ} {A : Type ℓ} (m : Db A) (next : A → Db Ran) (c : Conn) (ran : Ran)
        (c' : Conn) : Type ℓ where
      pub value : A
      pub middle : Conn
      pub first : m c ≡ (ok value, middle)
      pub rest : next value middle ≡ (ok ran, c')

    answer-ok {ℓ} :
        {A : Type ℓ} (name : String) (m : Db A) (next : A → Db Ran) (c d : Conn) (r : Result A)
        {ran : Ran} {c' : Conn}
        → m c ≡ (r, d)
        → answer o project queued name next r d ≡ (ok ran, c')
        → NoError ran
        → Went m next c ran c'
    answer-ok name m next c d (ok a) first h clean = record {
      value = a;
      middle = d;
      first = first;
      rest = h;
    }
    answer-ok name m next c d (err e) first h clean =
        absurd (some-none (rollback-error name e d h) clean)

    pub or_rollback-ok {ℓ} :
        {A : Type ℓ} (name : String) (m : Db A) (next : A → Db Ran) (c : Conn) {ran : Ran}
        {c' : Conn}
        → or_rollback o project queued name m next c ≡ (ok ran, c')
        → NoError ran
        → Went m next c ran c'
    unfolding or_rollback
    or_rollback-ok name m next c h clean =
        let tried = attempt->>=-ok m (answer o project queued name next) c h in
        answer-ok name m next c tried.middle tried.value tried.first tried.rest clean
