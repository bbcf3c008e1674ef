-- ===== src/Mqtt/Tests.antt =====
-- Settings from variables, and a context made by a stand-in for ssl.
use ss_common.Prelude.{
  ℕ, ◌≡◌, ◌⊎◌, sym, ap, refl, Bool, true, false, none, some, List, [], ◌∷◌, Text, codes, ◌==◌,
  nat_eq, list_eq, bool_eq, strip, lstrip, rstrip, is_space, Dict, lookup,
}
use ss_common.Result.{ok, err, ok-injective}
use ss_common.Value.{pos}
use ss_common.Mqtt.{
  with_chain, min_tls_version, tls_v1, tls_v1_2, TlsFinding, config, of_ssl, env_str, env_bool,
  env_int, tls_from_env, from_env, MqttTlsConfig, is_mutual, file_errors, errors, Ssl,
  build_context, ssl_context,
}
use ss_common.Mqtt.Client.{mask_secret}
use ss_common.Mqtt.Tls.{Settings, SslLaws, IsSecure, IsUsable, ssl_context-IsSecure}

abbrev site : Dict Text Text
site =
    (codes "MQTT_TLS", codes " true ")
    ∷ (codes "MQTT_TLS_CERT_FILE", codes "c.pem")
    ∷ (codes "MQTT_TLS_KEY_FILE", codes "k.pem")
    ∷ (codes "MQTT_HOST", codes "broker")
    ∷ []

abbrev site_tls : MqttTlsConfig
site_tls = record {
  enabled = true;
  ca_file = [];
  cert_file = codes "c.pem";
  key_file = codes "k.pem";
  key_password = [];
  verify_hostname = true;
}

-- With TLS on, the port is the one of MQTTS.
site_settings : from_env (λ s. s) (λ s. none) site (codes "MQTT_") ≡ record {
  host = codes "broker";
  port = pos 8883;
  username = [];
  password = [];
  client_id = [];
  keepalive_sec = pos 60;
  tls = site_tls;
}
unfolding from_env tls_from_env env_str env_bool env_int strip lstrip rstrip is_space lookup ◌==◌
    list_eq nat_eq
site_settings = refl

-- Contexts that are just their settings.
abbrev plain_ssl : Ssl Settings ℕ
plain_ssl = record {
  create_default_context = λ ca. ok (record {
    authorities = ca;
    minimum_version = tls_v1;
    check_hostname = true;
    needs_certificate = true;
    chain = none;
  });
  with_minimum_version = λ v s. record s { minimum_version = v };
  with_check_hostname = λ b s. record s { check_hostname = b };
  load_cert_chain = λ c k p s. ok (record s { chain = some (c, k, p) });
}

plain_ssl-SslLaws : SslLaws plain_ssl
plain_ssl-SslLaws = record {
  settings = λ s. s;
  default_context = λ ca x h.
      let e = sym (ok-injective h) in
      (
        ap (λ (t : Settings). t.authorities) e,
        ap (λ (t : Settings). t.needs_certificate) e,
        ap (λ (t : Settings). t.chain) e,
      );
  minimum = λ v x. refl;
  hostname = λ b x. refl;
  cert_chain = λ c k p x y h. sym (ok-injective h);
}

is_built :
    ssl_context plain_ssl (λ f. true) site_tls
    ≡ ok (
        some (record {
          authorities = none;
          minimum_version = tls_v1_2;
          check_hostname = true;
          needs_certificate = true;
          chain = some (codes "c.pem", codes "k.pem", none);
        }))
unfolding ssl_context errors file_errors build_context with_chain min_tls_version is_mutual ◌==◌
    bool_eq
is_built = refl

abbrev there : Text → Bool
there f = true

ssl_context-IsSecure_example :
    ((site_tls.enabled ≡ false) × (ssl_context plain_ssl there site_tls ≡ ok none))
    ⊎ ((site_tls.enabled ≡ true)
        × ¬ (IsUsable there site_tls)
        × ((f : TlsFinding) × (fs : List TlsFinding) × (ssl_context plain_ssl there site_tls
              ≡ err (config (f ∷ fs)))))
    ⊎ ((site_tls.enabled ≡ true)
        × IsUsable there site_tls
        × (((e : ℕ) × (ssl_context plain_ssl there site_tls ≡ err (of_ssl e)))
            ⊎ ((context : Settings) × (ssl_context plain_ssl there site_tls ≡ ok (some context))
                × IsSecure site_tls context)))
unfolding plain_ssl-SslLaws
ssl_context-IsSecure_example = ssl_context-IsSecure there plain_ssl plain_ssl-SslLaws site_tls

-- A short secret keeps one character, and a long one its last four.
masked_secrets :
    (mask_secret (codes "abc") (pos 4) ≡ some (codes "**c"))
    × (mask_secret (codes "secret") (pos 4) ≡ some (codes "**cret"))
    × (mask_secret (codes "a") (pos 4) ≡ some (codes "*"))
unfolding mask_secret ◌==◌ nat_eq
masked_secrets = (refl, refl, refl)
