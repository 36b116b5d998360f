-- ===== src/Site/Store/Effects.antt =====
-- What an action of the agent does: the places it leaves alone, whatever its result, the files after
-- it succeeds, and whether it may reload nginx. A rule for each way to build an action.
use supabase_installer.Prelude.{
  Bool, true, false, List, [], ◌∷◌, Option, ◌≡◌, refl, sym, ap, ◌∙◌, if◌then◌else◌, ◌⊎◌, inl, inr,
  subst,
}
use supabase_installer.Site.Host.{
  Place, same_place, Node, Files, put, SiteError, Outcome, done, failed, Host, Act, pure, fail,
  continue, ◌>>=◌, next_fault, call, system, write,
}

-- the places outside are left alone
pub record Frame {A : Type 0} (inside : Place → Bool) (m : Act A) : Type 0 where
  pub keeps : (h : Host) (q : Place) → inside q ≡ false → (m h).1.files q ≡ h.files q

-- the files after success
pub record Puts {A : Type 0} (g : Files → Files) (m : Act A) : Type 0 where
  pub effect : (h : Host) {a : A} {h' : Host} → m h ≡ (done a, h') → h'.files ≡ g h.files

-- nginx is not reloaded
pub record Quiet {A : Type 0} (m : Act A) : Type 0 where
  pub quiet : (h : Host) → (m h).1.loaded ≡ h.loaded

module _ {A : Type 0} where
  pub Frame-pure : {inside : Place → Bool} (a : A) → Frame inside (pure a)
  Frame-pure a = record { keeps = λ h q _. refl }

  pub Frame-fail : {inside : Place → Bool} (e : SiteError) → Frame {A = A} inside (fail e)
  Frame-fail e = record { keeps = λ h q _. refl }

  pub Puts-pure : (a : A) → Puts (λ f. f) (pure a)
  Puts-pure a = record { effect = λ h p. sym (ap (λ (x : Outcome A × Host). x.1.files) p) }

  pub Puts-fail : {g : Files → Files} (e : SiteError) → Puts {A = A} g (fail e)
  Puts-fail e = record { effect = λ h p. cc }

  pub Quiet-pure : (a : A) → Quiet (pure a)
  Quiet-pure a = record { quiet = λ h. refl }

  pub Quiet-fail : (e : SiteError) → Quiet {A = A} (fail e)
  Quiet-fail e = record { quiet = λ h. refl }

  pub Frame-if :
      {inside : Place → Bool} (b : Bool) {m n : Act A}
      → Frame inside m
      → Frame inside n
      → Frame inside (if b then m else n)
  Frame-if true fm fn = fm
  Frame-if false fm fn = fn

  pub Quiet-if : (b : Bool) {m n : Act A} → Quiet m → Quiet n → Quiet (if b then m else n)
  Quiet-if true fm fn = fm
  Quiet-if false fm fn = fn

  pub Puts-if :
      {g : Files → Files} (b : Bool) {m n : Act A}
      → Puts g m
      → Puts g n
      → Puts g (if b then m else n)
  Puts-if true fm fn = fm
  Puts-if false fm fn = fn

module _ {A B : Type 0} where
  continue_keeps :
      (inside : Place → Bool) (r : Outcome A) (k : A → Act B)
      → ((a : A) → Frame inside (k a))
      → (h : Host) (q : Place) → inside q ≡ false
      → (continue r k h).1.files q ≡ h.files q
  continue_keeps inside (done a) k fk h q out = (fk a).keeps h q out
  continue_keeps inside (failed e) k fk h q out = refl

  pub Frame->>= :
      {inside : Place → Bool} {m : Act A} {k : A → Act B}
      → Frame inside m
      → ((a : A) → Frame inside (k a))
      → Frame inside (m >>= k)
  unfolding ◌>>=◌
  Frame->>= {inside} {m} {k} fm fk = record {
    keeps = λ h q out. continue_keeps inside (m h).0 k fk (m h).1 q out ∙ fm.keeps h q out;
  }

  continue-Quiet :
      (r : Outcome A) (k : A → Act B)
      → ((a : A) → Quiet (k a))
      → (h : Host) → (continue r k h).1.loaded ≡ h.loaded
  continue-Quiet (done a) k fk h = (fk a).quiet h
  continue-Quiet (failed e) k fk h = refl

  pub Quiet->>= : {m : Act A} {k : A → Act B} → Quiet m → ((a : A) → Quiet (k a)) → Quiet (m >>= k)
  unfolding ◌>>=◌
  Quiet->>= {m} {k} fm fk = record { quiet = λ h. continue-Quiet (m h).0 k fk (m h).1 ∙ fm.quiet h }

  -- what a chain that succeeded went through
  pub record Through (m : Act A) (k : A → Act B) (h : Host) (b : B) (h' : Host) : Type 0 where
    pub value : A
    pub between : Host
    pub first : m h ≡ (done value, between)
    pub second : k value between ≡ (done b, h')

  through :
      (m : Act A) (k : A → Act B) (h : Host) {b : B} {h' : Host} (r : Outcome A) (g : Host)
      → m h ≡ (r, g)
      → continue r k g ≡ (done b, h')
      → Through m k h b h'
  through m k h (done a) g e p = record { value = a; between = g; first = e; second = p }
  through m k h (failed x) g e p = cc

  pub >>=-done :
      (m : Act A) (k : A → Act B) (h : Host) {b : B} {h' : Host}
      → (m >>= k) h ≡ (done b, h')
      → Through m k h b h'
  unfolding ◌>>=◌
  >>=-done m k h p = through m k h (m h).0 (m h).1 refl p

  pub Puts->>= :
      {g g' : Files → Files} {m : Act A} {k : A → Act B}
      → Puts g m
      → ((a : A) → Puts g' (k a))
      → Puts (λ f. g' (g f)) (m >>= k)
  Puts->>= {g} {g'} {m} {k} fm fk = record {
    effect = λ h p.
        let t = >>=-done m k h p in
        (fk t.value).effect t.between t.second ∙ ap g' (fm.effect h t.first);
  }

module _ (e : SiteError) (f : Host → Host) where
  -- a property of the host that holds if the call fails and if it has its effect
  called :
      (P : Host → Type 0) (fs : List Bool) (h : Host)
      → P h
      → ((rest : List Bool) → P (record h { faults = rest }))
      → P (f h)
      → ((rest : List Bool) → P (f (record h { faults = rest })))
      → P (next_fault fs e f h).1
  unfolding next_fault
  called P [] h p pr q qr = q
  called P (true ∷ fs) h p pr q qr = pr fs
  called P (false ∷ fs) h p pr q qr = qr fs

  pub Frame-call :
      {inside : Place → Bool}
      → ((h : Host) (q : Place) → inside q ≡ false → (f h).files q ≡ h.files q)
      → Frame inside (call e f)
  unfolding call
  Frame-call fr = record {
    keeps = λ h q out.
        called (λ g. g.files q ≡ h.files q) h.faults h refl (λ rest. refl) (fr h q out)
          (λ rest. fr (record h { faults = rest }) q out);
  }

  pub Quiet-call : ((h : Host) → (f h).loaded ≡ h.loaded) → Quiet (call e f)
  unfolding call
  Quiet-call fr = record {
    quiet = λ h.
        called (λ g. g.loaded ≡ h.loaded) h.faults h refl (λ rest. refl) (fr h)
          (λ rest. fr (record h { faults = rest }));
  }

  next_fault-done :
      (fs : List Bool) (h : Host) {h' : Host}
      → next_fault fs e f h ≡ (done tt, h')
      → (f h ≡ h') ⊎ ((rest : List Bool) × f (record h { faults = rest }) ≡ h')
  unfolding next_fault
  next_fault-done [] h p = inl (ap (λ (x : Outcome (Unit {0}) × Host). x.1) p)
  next_fault-done (true ∷ fs) h p = cc
  next_fault-done (false ∷ fs) h p = inr (fs, ap (λ (x : Outcome (Unit {0}) × Host). x.1) p)

  -- a call that succeeds has had its effect
  pub call-done :
      (P : Host → Type 0) (h : Host) {h' : Host}
      → call e f h ≡ (done tt, h')
      → P (f h)
      → ((rest : List Bool) → P (f (record h { faults = rest })))
      → P h'
  unfolding call
  call-done P h p q qr = elim (next_fault-done h.faults h p) [
    | inl same_ ↦ subst P same_ q
    | inr (rest, same_) ↦ subst P same_ (qr rest)
  ]

pub Frame-system : {inside : Place → Bool} → Frame inside system
Frame-system = Frame-call SiteError.system_call (λ h. h) (λ h q _. refl)

pub Quiet-system : Quiet system
Quiet-system = Quiet-call SiteError.system_call (λ h. h) (λ h. refl)

pub Puts-system : Puts (λ f. f) system
Puts-system = record {
  effect = λ h {a} {h'} p.
      call-done SiteError.system_call (λ g. g) (λ g. g.files ≡ h.files) h p refl (λ rest. refl);
}

put_outside :
    (p q : Place) (node : Option Node) (f : Files) {inside : Place → Bool}
    → ((q : Place) → inside q ≡ false → same_place p q ≡ false)
    → inside q ≡ false
    → put p node f q ≡ f q
put_outside p q node f out i = ap (λ b. if b then node else f q) (out q i)

pub Frame-write :
    {inside : Place → Bool} (p : Place) (node : Option Node)
    → ((q : Place) → inside q ≡ false → same_place p q ≡ false)
    → Frame inside (write p node)
Frame-write {inside} p node out =
    Frame-call SiteError.system_call (λ h. record h { files = put p node h.files })
      (λ h q i. put_outside p q node h.files {inside = inside} out i)

pub Quiet-write : (p : Place) (node : Option Node) → Quiet (write p node)
Quiet-write p node =
    Quiet-call SiteError.system_call (λ h. record h { files = put p node h.files }) (λ h. refl)

pub Puts-write : (p : Place) (node : Option Node) → Puts (put p node) (write p node)
Puts-write p node = record {
  effect = λ h {a} {h'} e.
      call-done SiteError.system_call (λ g. record g { files = put p node g.files })
        (λ g. g.files ≡ put p node h.files) h e refl (λ rest. refl);
}

module _ {A B : Type 0} (m : Act A) (k : A → Act B) (h : Host) where
  -- a chain that fails fails in its first action, or after it
  pub data Stopped (e : SiteError) (h' : Host) : Type 0 where
    at_first : m h ≡ (failed e, h') → Stopped e h'
    after_first : (a : A) (g : Host) → m h ≡ (done a, g) → k a g ≡ (failed e, h') → Stopped e h'

  stopped :
      (r : Outcome A) (g : Host) {e : SiteError} {h' : Host}
      → m h ≡ (r, g)
      → continue r k g ≡ (failed e, h')
      → Stopped e h'
  stopped (done a) g q p = after_first a g q p
  stopped (failed x) g q p = at_first cc

  pub >>=-failed : {e : SiteError} {h' : Host} → (m >>= k) h ≡ (failed e, h') → Stopped e h'
  unfolding ◌>>=◌
  >>=-failed p = stopped (m h).0 (m h).1 refl p
