-- ===== src/Mqtt/Tls.antt =====
-- What comes of every configuration of TLS, and what its context is like.
use ss_common.Prelude.{
  ◌≡◌, ◌↔◌, ◌⊎◌, refl, sym, ap, ◌∙◌, Bool, true, false, not, Option, none, some, List, [], ◌∷◌,
  ◌++◌, append-eq-nil, Text, ◌==◌, ==_iff, bool_eq, if◌then◌else◌, is_empty, arith, Bool-cases, inl,
  inr,
}
use ss_common.Result.{Result, ok, err, ◌>>=◌}
use ss_common.Mqtt.{
  MqttTlsConfig, is_mutual, or_none, TlsFile, TlsFinding, TlsError, config, of_ssl, TlsVersion,
  tls_v1_2, min_tls_version, file_errors, errors, Ssl, with_chain, build_context, wrapped,
  unless_errors, ssl_context,
}

-- What can be read off a context.
pub record Settings : Type 0 where
  pub authorities : Option Text
  pub minimum_version : TlsVersion
  pub check_hostname : Bool
  pub needs_certificate : Bool
  pub chain : Option (Text × Text × Option Text)

-- What ssl documents: a default context for servers needs their certificate and has no chain, and each
-- operation sets one thing.
pub record SslLaws {C E : Type 0} (ssl : Ssl C E) : Type 0 where
  pub settings : C → Settings
  pub default_context :
      (ca : Option Text) (x : C)
      → ssl.create_default_context ca ≡ ok x
      → ((settings x).authorities ≡ ca)
        × ((settings x).needs_certificate ≡ true)
        × ((settings x).chain ≡ none)
  pub minimum :
      (v : TlsVersion) (x : C)
      → settings (ssl.with_minimum_version v x) ≡ record (settings x) { minimum_version = v }
  pub hostname :
      (b : Bool) (x : C)
      → settings (ssl.with_check_hostname b x) ≡ record (settings x) { check_hostname = b }
  pub cert_chain :
      (c k : Text) (p : Option Text) (x y : C)
      → ssl.load_cert_chain c k p x ≡ ok y
      → settings y ≡ record (settings x) { chain = some (c, k, p) }

-- The context that a configuration asks for: TLS 1.2 at least, with the server's certificate checked,
-- its host name as set, and the client's certificate where there is one.
pub record IsSecure (c : MqttTlsConfig) (s : Settings) : Type 0 where
  pub trusting : s.authorities ≡ or_none c.ca_file
  pub at_least : s.minimum_version ≡ tls_v1_2
  pub checked_name : s.check_hostname ≡ c.verify_hostname
  pub checked : s.needs_certificate ≡ true
  pub presented :
      ((is_empty c.cert_file ≡ true) × (s.chain ≡ none))
      ⊎ ((is_empty c.cert_file ≡ false)
          × (s.chain ≡ some (c.cert_file, c.key_file, or_none c.key_password)))

module _ (is_file : Text → Bool) where
  -- A file that is named is there.
  abbrev pub IsThere : Text → Type 0
  IsThere value = is_empty value ≡ false → is_file value ≡ true

  -- The certificate and its key stand together, and the named files are there.
  pub record IsUsable (c : MqttTlsConfig) : Type 0 where
    pub paired : is_empty c.cert_file ≡ is_empty c.key_file
    pub ca_there : IsThere c.ca_file
    pub cert_there : IsThere c.cert_file
    pub key_there : IsThere c.key_file

  file_errors_iff :
      (label : TlsFile) (value : Text) → (file_errors is_file label value ≡ []) ↔ IsThere value
  unfolding file_errors
  file_errors_iff label value = (
    λ h n. ground (arith, n),
    λ h. elim (Bool-cases (is_empty value)) [
      | inl e ↦ ground (arith, e)
      | inr e ↦ ground (arith, e, h e)
    ],
  )

  pair_iff : (b : Bool) (f : TlsFinding) → ((if not b then f ∷ [] else []) ≡ []) ↔ (b ≡ true)
  pair_iff true f = (λ h. refl, λ h. refl)
  pair_iff false f = (λ h. cc, λ h. cc)

  on_only : (b : Bool) (xs : List TlsFinding) → b ≡ true → (if not b then [] else xs) ≡ xs
  on_only true xs e = refl
  on_only false xs e = cc

  joined : (xs ys : List TlsFinding) → xs ≡ [] → ys ≡ [] → xs ++ ys ≡ []
  joined xs ys e f = ap (λ zs. zs ++ ys) e ∙ f

  errors_iff : (c : MqttTlsConfig) → c.enabled ≡ true → (errors is_file c ≡ []) ↔ IsUsable c
  unfolding errors
  errors_iff c e = (
    λ h.
        let (pair, files) = append-eq-nil _ _ (sym (on_only c.enabled _ e) ∙ h) in
        let (ca_file, more) = append-eq-nil _ _ files in
        let (cert_file, key_file) = append-eq-nil _ _ more in
        record {
          paired =
              (==_iff _ _).0 ((pair_iff (is_empty c.cert_file == is_empty c.key_file) _).0 pair);
          ca_there = (file_errors_iff _ _).0 ca_file;
          cert_there = (file_errors_iff _ _).0 cert_file;
          key_there = (file_errors_iff _ _).0 key_file;
        },
    λ u.
        on_only c.enabled _ e
        ∙ joined _ _
            ((pair_iff (is_empty c.cert_file == is_empty c.key_file) _).1 ((==_iff _ _).1 u.paired))
            (joined _ _ ((file_errors_iff _ _).1 u.ca_there) (
              joined _ _ ((file_errors_iff _ _).1 u.cert_there)
                ((file_errors_iff _ _).1 u.key_there))),
  )

  module _ {C E : Type 0} (ssl : Ssl C E) (laws : SslLaws ssl) where
    strict : MqttTlsConfig → C → C
    strict c base =
        ssl.with_check_hostname c.verify_hostname (ssl.with_minimum_version min_tls_version base)

    result_cases : (r : Result E C) → ((e : E) × (r ≡ err e)) ⊎ ((x : C) × (r ≡ ok x))
    result_cases (ok x) = inr (x, refl)
    result_cases (err e) = inl (e, refl)

    bind-err : (r : Result E C) (f : C → Result E C) (e : E) → r ≡ err e → (r >>= f) ≡ err e
    bind-err (ok x) f e h = cc
    bind-err (err x) f e h = cc

    bind-some : (r : Result E C) (f : C → Result E C) (x : C) → r ≡ ok x → (r >>= f) ≡ f x
    bind-some (ok y) f x h = ap f (let q : y ≡ x = cc in q)
    bind-some (err y) f x h = cc

    settings-strict :
        (c : MqttTlsConfig) (base : C)
        → laws.settings (strict c base) ≡ record (laws.settings base) {
          minimum_version = tls_v1_2;
          check_hostname = c.verify_hostname;
        }
    unfolding min_tls_version strict
    settings-strict c base =
        laws.hostname c.verify_hostname (ssl.with_minimum_version min_tls_version base)
        ∙ ap (λ (s : Settings). record s { check_hostname = c.verify_hostname })
            (laws.minimum min_tls_version base)

    -- The client's certificate is loaded where there is one, and nothing else is changed.
    Presents : MqttTlsConfig → Settings → Settings → Type 0
    Presents c before after =
        ((is_empty c.cert_file ≡ true) × (after ≡ before))
        ⊎ ((is_empty c.cert_file ≡ false)
            × (after
                ≡ record before { chain = some (c.cert_file, c.key_file, or_none c.key_password) }))

    with_chain-cases :
        (c : MqttTlsConfig) (x : C)
        → ((e : E) × (with_chain ssl is_file c x ≡ err e))
          ⊎ ((y : C) × (with_chain ssl is_file c x ≡ ok y)
              × Presents c (laws.settings x) (laws.settings y))
    unfolding with_chain is_mutual Presents
    with_chain-cases c x = elim (Bool-cases (is_empty c.cert_file)) [
      | inl e ↦ inr (x, rw e refl, inl (e, refl))
      | inr e ↦
          elim (result_cases
            (ssl.load_cert_chain c.cert_file c.key_file (or_none c.key_password) x)) [
              | inl (f, q) ↦ inl (f, rw e q)
              | inr (y, q) ↦ inr (y, rw e q, inr (e, laws.cert_chain _ _ _ x y q))
            ]
    ]

    secure :
        (c : MqttTlsConfig) (base y : C)
        → ssl.create_default_context (or_none c.ca_file) ≡ ok base
        → Presents c (laws.settings (strict c base)) (laws.settings y)
        → IsSecure c (laws.settings y)
    unfolding Presents
    secure c base y h (inl (e, q)) =
        let (ca, needs, bare) = laws.default_context (or_none c.ca_file) base h in
        let s = q ∙ settings-strict c base in
        record {
          trusting = ap (λ (t : Settings). t.authorities) s ∙ ca;
          at_least = ap (λ (t : Settings). t.minimum_version) s;
          checked_name = ap (λ (t : Settings). t.check_hostname) s;
          checked = ap (λ (t : Settings). t.needs_certificate) s ∙ needs;
          presented = inl (e, ap (λ (t : Settings). t.chain) s ∙ bare);
        }
    secure c base y h (inr (e, q)) =
        let (ca, needs, bare) = laws.default_context (or_none c.ca_file) base h in
        let s = settings-strict c base in
        record {
          trusting =
              ap (λ (t : Settings). t.authorities) q ∙ ap (λ (t : Settings). t.authorities) s ∙ ca;
          at_least =
              ap (λ (t : Settings). t.minimum_version) q
              ∙ ap (λ (t : Settings). t.minimum_version) s;
          checked_name =
              ap (λ (t : Settings). t.check_hostname) q ∙ ap (λ (t : Settings). t.check_hostname) s;
          checked =
              ap (λ (t : Settings). t.needs_certificate) q
              ∙ ap (λ (t : Settings). t.needs_certificate) s
              ∙ needs;
          presented = inr (e, ap (λ (t : Settings). t.chain) q);
        }

    build_context-IsSecure :
        (c : MqttTlsConfig)
        → ((e : E) × (build_context ssl is_file c ≡ err e))
          ⊎ ((context : C) × (build_context ssl is_file c ≡ ok context)
              × IsSecure c (laws.settings context))
    unfolding build_context strict
    build_context-IsSecure c =
        elim (result_cases (ssl.create_default_context (or_none c.ca_file))) [
          | inl (e, q) ↦ inl (e, bind-err _ _ e q)
          | inr (base, q) ↦ elim (with_chain-cases c (strict c base)) [
            | inl (e, k) ↦ inl (e, bind-some _ _ base q ∙ k)
            | inr (y, k, p) ↦ inr (y, bind-some _ _ base q ∙ k, secure c base y q p)
          ]
        ]

    off :
        (b : Bool) (r : Result (TlsError E) (Option C))
        → b ≡ false
        → (if not b then ok none else r) ≡ ok none
    off true r e = cc
    off false r e = refl

    on :
        (b : Bool) (r : Result (TlsError E) (Option C))
        → b ≡ true
        → (if not b then ok none else r) ≡ r
    on true r e = refl
    on false r e = cc

    found_or_not :
        (fs : List TlsFinding)
        → (fs ≡ []) ⊎ ((f : TlsFinding) × (gs : List TlsFinding) × (fs ≡ f ∷ gs))
    found_or_not [] = inl refl
    found_or_not (f ∷ fs) = inr (f, fs, refl)

    -- Every configuration has one of three outcomes. With TLS off there is no context and no error. With
    -- TLS on and a certificate without its key, a key without its certificate or a named file that is not
    -- there, the findings are raised. Otherwise there is what ssl raises, or a context that holds to TLS
    -- 1.2 at least, needs the server's certificate from the named authorities, checks host names as set,
    -- and presents the certificate where there is one. The laws that ssl documents are supposed.
    pub ssl_context-IsSecure :
        (c : MqttTlsConfig)
        → ((c.enabled ≡ false) × (ssl_context ssl is_file c ≡ ok none))
          ⊎ ((c.enabled ≡ true)
              × ¬ (IsUsable c)
              × ((f : TlsFinding) × (fs : List TlsFinding) × (ssl_context ssl is_file c
                    ≡ err (config (f ∷ fs)))))
          ⊎ ((c.enabled ≡ true)
              × IsUsable c
              × (((e : E) × (ssl_context ssl is_file c ≡ err (of_ssl e)))
                  ⊎ ((context : C) × (ssl_context ssl is_file c ≡ ok (some context))
                      × IsSecure c (laws.settings context))))
    unfolding ssl_context
    ssl_context-IsSecure c = elim (Bool-cases c.enabled) [
      | inr e ↦ inl (e, off c.enabled _ e)
      | inl e ↦ elim (found_or_not (errors is_file c)) [
        | inr (f, fs, q) ↦ inr (
            inl (
              e,
              (λ u. not_both f fs (sym q ∙ (errors_iff c e).1 u)),
              (f, fs, on c.enabled _ e ∙ ap (λ found. unless_errors ssl is_file found c) q),
            ))
        | inl q ↦ inr (
            inr (
              e,
              (errors_iff c e).0 q,
              by_build (on c.enabled _ e ∙ ap (λ found. unless_errors ssl is_file found c) q)
                  (build_context-IsSecure c),
            ))
      ]
    ]
      where
        not_both : (f : TlsFinding) (fs : List TlsFinding) → f ∷ fs ≡ [] → ⊥
        not_both f fs h = cc

        by_build :
            ssl_context ssl is_file c ≡ wrapped ssl is_file (build_context ssl is_file c)
            → ((e : E) × (build_context ssl is_file c ≡ err e))
              ⊎ ((context : C) × (build_context ssl is_file c ≡ ok context)
                  × IsSecure c (laws.settings context))
            → ((e : E) × (ssl_context ssl is_file c ≡ err (of_ssl e)))
              ⊎ ((context : C) × (ssl_context ssl is_file c ≡ ok (some context))
                  × IsSecure c (laws.settings context))
        by_build q (inl (e, k)) = inl (e, q ∙ ap (wrapped ssl is_file) k)
        by_build q (inr (context, k, safe)) = inr (context, q ∙ ap (wrapped ssl is_file) k, safe)
