-- ===== src/Entry/Startup/Edges.antt =====
-- When a pillar edge opens, and with which credentials.
use interchange.Base.{
  ◌≡◌, ◌↔◌, refl, sym, ap, ◌∙◌, true, Option, none, some, List, [], ◌∷◌, ◌++◌, String, Text, inl,
  inr, arith, Option-cases, Bool-cases, All, subst,
}
use mathlib.Core.Option.{some-injective}
use interchange.Entry.Startup.{
  Connection, Dialer, TlsFiles, version_tls13, connect, dial_pillar, Fatal, Startup, ready, fatal,
  ◌>>=◌, or_fatal, Pillar, register_all, open_pillar, open_pillars, dial,
}

>>=-eq-ready {ℓ κ} :
    {A : Type ℓ} {B : Type κ} (m : Startup A) (f : A → Startup B) {b : B}
    → (m >>= f) ≡ ready b
    → (a : A) × (m ≡ ready a) × (f a ≡ ready b)
>>=-eq-ready (ready a) f h = (a, refl, h)
>>=-eq-ready (fatal e) f h = absurd (cc h)

pub then_ready {ℓ κ μ} :
    {A : Type ℓ} {B : Type κ} {P : Type μ} (m : Startup A) (f : A → Startup B) {b : B}
    → (m >>= f) ≡ ready b
    → ((a : A) → m ≡ ready a → f a ≡ ready b → P)
    → P
then_ready m f h k = let (a, e, h1) = >>=-eq-ready m f h in k a e h1

pub ready-injective {ℓ} : {A : Type ℓ} (a b : A) → ready a ≡ ready b → a ≡ b
ready-injective a b h = cc

pub or_fatal-eq-ready {ℓ} :
    {A : Type ℓ} (o : Option A) (e : Fatal) (a : A) → (or_fatal o e ≡ ready a) ↔ (o ≡ some a)
or_fatal-eq-ready none e a = (λ h. cc, λ h. cc)
or_fatal-eq-ready (some b) e a = (λ h. cc, λ h. cc)

-- A connection over TLS 1.3 to an address, with the certificate of the key pair and no roots but those
-- of the CA file.
pub record Dialled (d : Dialer) (files : TlsFiles) (address : Text) (c : Connection) : Type 0 where
  pub certified : d.load_x509_key_pair files.cert files.key ≡ some c.certificate
  pub pem : Text
  pub reads : d.read_file files.ca ≡ some pem
  pub trusts : d.append_certs pem ≡ some c.root_cas
  pub connected : d.new_client c ≡ true
  pub reaches : c.target ≡ address
  pub tls13 : c.min_version ≡ version_tls13

module _ (d : Dialer) (files : TlsFiles) where
  connect-eq-some :
      (c c' : Connection) → connect d c ≡ some c' → (c ≡ c') × (d.new_client c' ≡ true)
  connect-eq-some c c' h = elim (Bool-cases (d.new_client c)) [
    | inl e ↦
        let same : c ≡ c' = some-injective _ _ (rw (e, connect) at h) in
        (same, rw (sym (ap d.new_client same)) e)
    | inr e ↦ absurd (cc (rw (e, connect) at h))
  ]

  dial-Dialled : (a : Text) (c : Connection) → dial_pillar d files a ≡ some c → Dialled d files a c
  unfolding dial_pillar
  dial-Dialled a c h = elim (Option-cases (d.load_x509_key_pair files.cert files.key)) [
    | inl k ↦ absurd (cc (rw (k, dial_pillar) at h))
    | inr (cert, k) ↦ elim (Option-cases (d.read_file files.ca)) [
      | inl r ↦ absurd (cc (rw (k, r, dial_pillar) at h))
      | inr (pem, r) ↦ elim (Option-cases (d.append_certs pem)) [
        | inl t ↦ absurd (cc (rw (k, r, t, dial_pillar) at h))
        | inr (pool, t) ↦
            let (same, up) = connect-eq-some _ c (rw (k, r, t, dial_pillar) at h) in
            record {
              certified = k ∙ ap (λ x. some x.certificate) same;
              pem = pem;
              reads = r;
              trusts = t ∙ ap (λ x. some x.root_cas) same;
              connected = up;
              reaches = sym (ap (λ x. x.target) same);
              tls13 = sym (ap (λ x. x.min_version) same);
            }
      ]
    ]
  ]

  Dialled-dial : (a : Text) (c : Connection) → Dialled d files a c → dial_pillar d files a ≡ some c
  unfolding dial_pillar
  Dialled-dial a c o =
      let built : Connection = record c { target = a; min_version = version_tls13 } in
      let same : built ≡ c = ground (arith, o.reaches, o.tls13) in
      let up : d.new_client built ≡ true = rw same o.connected in
      rw (o.certified, o.reads, o.trusts, dial_pillar, up, connect) (ap some same)

  register-eq-ready :
      (name : String) (services : List String) (c : Connection)
      → (register_all d name services c ≡ ready tt) ↔ All (λ s. d.register s c ≡ true) services
  unfolding register_all
  register-eq-ready name [] c = (λ h. tt, λ h. refl)
  register-eq-ready name (s ∷ services) c =
      let (there, back) = register-eq-ready name services c in
      elim (Bool-cases (d.register s c)) [
        | inl e ↦
            (λ h. (e, there (rw (e, register_all) at h)), λ h. rw (e, register_all) (back h.1))
        | inr e ↦ (λ h. absurd (cc (rw (e, register_all) at h)), λ h. absurd (cc (e, h.0)))
      ]

  -- An edge: its connection to the pillar, with every service registered.
  abbrev pub Opened : Pillar → Connection → Type 0
  Opened p c = Dialled d files p.address c × All (λ s. d.register s c ≡ true) p.services

  abbrev pub AllOpened : List Pillar → List Connection → Type 0
  AllOpened [] [] = Unit {0}
  AllOpened [] (c ∷ cs) = ⊥
  AllOpened (p ∷ ps) [] = ⊥
  AllOpened (p ∷ ps) (c ∷ cs) = Opened p c × AllOpened ps cs

  pub open-Opened : (p : Pillar) (c : Connection) → open_pillar d files p ≡ ready c → Opened p c
  unfolding open_pillar
  open-Opened p c h =
      let (c', dialled, h1) =
        >>=-eq-ready (or_fatal (dial_pillar d files p.address) (dial p.name)) _ h in
      let (u, registered, h2) = >>=-eq-ready (register_all d p.name p.services c') _ h1 in
      let same : c' ≡ c = cc in
      subst (Opened p) same (
        dial-Dialled p.address c' ((or_fatal-eq-ready _ _ _).0 dialled),
        (register-eq-ready p.name p.services c').0 registered,
      )

  pub Opened-open : (p : Pillar) (c : Connection) → Opened p c → open_pillar d files p ≡ ready c
  unfolding open_pillar
  Opened-open p c o =
      rw (Dialled-dial p.address c o.0, open_pillar, (register-eq-ready p.name p.services c).1 o.1)
        refl

  pub open-AllOpened :
      (ps : List Pillar) (cs : List Connection)
      → open_pillars d files ps ≡ ready cs
      → AllOpened ps cs
  unfolding open_pillars
  open-AllOpened [] [] h = tt
  open-AllOpened [] (c ∷ cs) h = absurd (cc)
  open-AllOpened (p ∷ ps) cs h =
      let (c, e, h1) = >>=-eq-ready (open_pillar d files p) _ h in
      let (rest, e', h2) = >>=-eq-ready (open_pillars d files ps) _ h1 in
      let same : c ∷ rest ≡ cs = cc in
      subst (AllOpened (p ∷ ps)) same (open-Opened p c e, open-AllOpened ps rest e')

  pub AllOpened-open :
      (ps : List Pillar) (cs : List Connection)
      → AllOpened ps cs
      → open_pillars d files ps ≡ ready cs
  unfolding open_pillars
  AllOpened-open [] [] h = refl
  AllOpened-open [] (c ∷ cs) h = absurd h
  AllOpened-open (p ∷ ps) [] h = absurd h
  AllOpened-open (p ∷ ps) (c ∷ cs) h =
      rw (Opened-open p c h.0, open_pillars, AllOpened-open ps cs h.1) refl

  pub AllOpened-append :
      (ps qs : List Pillar) (cs ds : List Connection)
      → AllOpened ps cs
      → AllOpened qs ds
      → AllOpened (ps ++ qs) (cs ++ ds)
  AllOpened-append [] qs [] ds h k = k
  AllOpened-append [] qs (c ∷ cs) ds h k = absurd h
  AllOpened-append (p ∷ ps) qs [] ds h k = absurd h
  AllOpened-append (p ∷ ps) qs (c ∷ cs) ds h k = (h.0, AllOpened-append ps qs cs ds h.1 k)

  pub AllOpened-split :
      (ps qs : List Pillar) (cs : List Connection)
      → AllOpened (ps ++ qs) cs
      → (before : List Connection) × (after : List Connection) × (cs ≡ before ++ after)
        × AllOpened ps before
        × AllOpened qs after
  AllOpened-split [] qs cs h = ([], cs, refl, tt, h)
  AllOpened-split (p ∷ ps) qs [] h = absurd h
  AllOpened-split (p ∷ ps) qs (c ∷ cs) h =
      let (before, after, e, k, l) = AllOpened-split ps qs cs h.1 in
      (c ∷ before, after, ap (λ t. c ∷ t) e, (h.0, k), l)
