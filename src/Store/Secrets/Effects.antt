-- ===== src/Store/Secrets/Effects.antt =====
-- The secrets in apps/manager/internal/store/projects.go as a map from keys to envelopes.
use supabase_installer.Prelude.{
  String, same_iff, Bool, true, false, ◌&&◌, ◌||◌, Option, none, some, List, [], ◌∷◌, ◌++◌, ◌≡◌,
  refl, sym, ap, ◌∙◌, same, same-ne, if◌then◌else◌, find, update, any, arith, Bool-cases, inl, inr,
}
use supabase_installer.Errors.{Result, ok, err, not_found}
use supabase_installer.Db.{Conn, statement, query, ◌>>=◌}
use supabase_installer.Db.Laws.{calm}
use supabase_installer.Db.Schema.{Tables, SecretRow}
use supabase_installer.Store.Projects.{is_project}
use supabase_installer.Store.Secrets.{has_key, upsert, put_secret, envelope_of, get_secret}

same-sym : (s t : String) → same s t ≡ same t s
same-sym s t = elim (Bool-cases (same s t)) [
  | inl e ↦ let eq = (same_iff s t).0 e in e ∙ sym ((same_iff t s).1 (sym eq))
  | inr e ↦ e ∙ sym (same-ne t s (λ (eq : t ≡ s). let back = (same_iff s t).1 (sym eq) in cc))
]

-- the envelope under a key
abbrev pub secret_at : String → String → List SecretRow → Option String
secret_at project kind [] = none
secret_at project kind (row ∷ rows) =
    if has_key project kind row then some row.envelope else secret_at project kind rows

abbrev pub is_key : String → String → String → String → Bool
is_key p k q l = same p q && same k l

module _ (p k q l : String) (row : SecretRow) where
  pub first_key : has_key p k row ≡ true → has_key q l row ≡ is_key p k q l
  first_key e =
      let p_same : row.project_id ≡ p = (same_iff row.project_id p).0 (ground arith) in
      let k_same : row.kind ≡ k = (same_iff row.kind k).0 (ground arith) in
      ap (λ (x : String). same x q && same row.kind l) p_same
      ∙ ap (λ (x : String). same p q && same x l) k_same

  pub second_key : has_key q l row ≡ true → has_key p k row ≡ is_key p k q l
  second_key e =
      let q_same : row.project_id ≡ q = (same_iff row.project_id q).0 (ground arith) in
      let l_same : row.kind ≡ l = (same_iff row.kind l).0 (ground arith) in
      ap (λ (x : String). same x p && same row.kind k) q_same
      ∙ ap (λ (x : String). same q p && same x k) l_same
      ∙ ap (λ b. b && same l k) (same-sym q p)
      ∙ ap (λ b. same p q && b) (same-sym l k)

secret_at-update :
    (p k q l e : String) (rows : List SecretRow)
    → secret_at q l (update (has_key p k) (λ row. record row { envelope = e }) rows)
      ≡ (if is_key p k q l && any (has_key p k) rows then some e else secret_at q l rows)
secret_at-update p k q l e [] = ground arith
secret_at-update p k q l e (row ∷ rows) =
    let rest = secret_at-update p k q l e rows in
    let one = first_key p k q l row in
    let two = second_key p k q l row in
    elim (Bool-cases (has_key p k row)) [
      | inl here ↦ ground (arith, one here)
      | inr not_here ↦ ground (arith, two)
    ]

behind :
    (K Q : Bool) (old : String) (e : String) (rest more : Option String)
    → more ≡ (if K then some e else rest)
    → (Q ≡ true → K ≡ false)
    → (if Q then some old else more) ≡ (if K then some e else (if Q then some old else rest))
behind true true old e rest more m apart = cc (apart refl)
behind true false old e rest more m apart = m
behind false true old e rest more m apart = refl
behind false false old e rest more m apart = m

free_head : (a b : Bool) → (a || b) ≡ false → a ≡ false
free_head true b e = cc
free_head false b e = refl

free_tail : (a b : Bool) → (a || b) ≡ false → b ≡ false
free_tail true b e = cc
free_tail false b e = e

secret_at-append :
    (p k q l e : String) (rows : List SecretRow)
    → any (has_key p k) rows ≡ false
    → secret_at q l (rows ++ record { project_id = p; kind = k; envelope = e } ∷ [])
      ≡ (if is_key p k q l then some e else secret_at q l rows)
secret_at-append p k q l e [] free = refl
secret_at-append p k q l e (row ∷ rows) free =
    behind (is_key p k q l) (has_key q l row) row.envelope e (secret_at q l rows)
      (secret_at q l (rows ++ record { project_id = p; kind = k; envelope = e } ∷ []))
      (secret_at-append p k q l e rows (free_tail (has_key p k row) (any (has_key p k) rows) free))
      (λ here.
        sym (second_key p k q l row here)
        ∙ free_head (has_key p k row) (any (has_key p k) rows) free)

abbrev appended : String → String → String → List SecretRow → List SecretRow
appended p k e rows = rows ++ record { project_id = p; kind = k; envelope = e } ∷ []

and_true : (b : Bool) → (b && true) ≡ b
and_true true = refl
and_true false = refl

pub secret_at-upsert :
    (p k e q l : String) (rows : List SecretRow)
    → secret_at q l (upsert p k e rows) ≡ (if is_key p k q l then some e else secret_at q l rows)
secret_at-upsert p k e q l rows = elim (Bool-cases (any (has_key p k) rows)) [
  | inl there ↦
      ap
        (λ b. secret_at q l (
          if b
          then update (has_key p k) (λ row. record row { envelope = e }) rows
          else appended p k e rows))
        there
      ∙ secret_at-update p k q l e rows
      ∙ ap (λ b. if is_key p k q l && b then some e else secret_at q l rows) there
      ∙ ap (λ b. if b then some e else secret_at q l rows) (and_true (is_key p k q l))
  | inr free ↦
      ap
        (λ b. secret_at q l (
          if b
          then update (has_key p k) (λ row. record row { envelope = e }) rows
          else appended p k e rows))
        free
      ∙ secret_at-append p k q l e rows free
]

abbrev pub found : Option String → Result String
found none = err not_found
found (some e) = ok e

found-find :
    (q l : String) (rows : List SecretRow)
    → envelope_of (find (has_key q l) rows) ≡ found (secret_at q l rows)
found-find q l [] = refl
found-find q l (row ∷ rows) = elim (Bool-cases (has_key q l row)) [
  | inl e ↦
      ap (λ b. envelope_of (if b then some row else find (has_key q l) rows)) e
      ∙ sym (ap (λ b. found (if b then some row.envelope else secret_at q l rows)) e)
  | inr e ↦
      ap (λ b. envelope_of (if b then some row else find (has_key q l) rows)) e
      ∙ found-find q l rows
      ∙ sym (ap (λ b. found (if b then some row.envelope else secret_at q l rows)) e)
]

found-if :
    (b : Bool) (e : String) (o : Option String)
    → found (if b then some e else o) ≡ (if b then ok e else found o)
found-if true e o = refl
found-if false e o = refl

pub get_secret-found :
    (q l : String) (t : Tables) → (get_secret q l (calm t)).0 ≡ found (secret_at q l t.secrets)
unfolding get_secret query statement ◌>>=◌
get_secret-found q l t = found-find q l t.secrets

put_secret-calm :
    (p k e : String) (t : Tables)
    → any (is_project p) t.projects ≡ true
    → put_secret p k e (calm t) ≡ (ok tt, calm (record t { secrets = upsert p k e t.secrets }))
unfolding put_secret statement
put_secret-calm p k e t there = ground arith

-- On a connection where no statement fails, reading a secret after one of an existing server has been put gives
-- the envelope that was put if it is the same secret, and else what reading gave before.
pub get_secret-put_secret :
    (p k e : String) (t : Tables)
    → any (is_project p) t.projects ≡ true
    → (q l : String)
    → (get_secret q l (put_secret p k e (calm t)).1).0
      ≡ (if is_key p k q l then ok e else (get_secret q l (calm t)).0)
get_secret-put_secret p k e t there q l =
    ap (λ (x : Result (Unit {0}) × Conn). (get_secret q l x.1).0) (put_secret-calm p k e t there)
    ∙ get_secret-found q l (record t { secrets = upsert p k e t.secrets })
    ∙ ap found (secret_at-upsert p k e q l t.secrets)
    ∙ found-if (is_key p k q l) e (secret_at q l t.secrets)
    ∙ ap (λ r. if is_key p k q l then ok e else r) (sym (get_secret-found q l t))
