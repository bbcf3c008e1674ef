-- ===== src/Mqtt.antt =====
-- src/ss_kit/mqtt.py: the settings of a client and of TLS, from a dictionary of variables, and the
-- readers of src/ss_kit/env.py that they use. The library ssl is a parameter, with the contexts that it
-- makes and the exceptions that it raises, as are `str.lower`, `int` and which paths are files.
pub mod Tls
pub mod Client
mod Tests
use ss_common.Prelude.{
  ℕ, Bool, true, false, not, ◌&&◌, Option, none, some, List, [], ◌∷◌, ◌++◌, Text, codes, ◌==◌,
  nat_eq, list_eq, bool_eq, if◌then◌else◌, is_empty, strip, Dict, lookup,
}
use ss_common.Result.{Result, ok, err, ◌>>=◌}
use ss_common.Value.{ℤ, pos}

abbrev pub text_or : Text → Option Text → Text
text_or default none = default
text_or default (some v) = v

-- `env_str`, of a key that begins with the prefix.
unfoldable pub env_str : Dict Text Text → Text → Text → Text
env_str environ key default = text_or default (lookup key environ)

abbrev pub int_or : ℤ → Option ℤ → ℤ
int_or default none = default
int_or default (some n) = n

-- `value or None`
abbrev pub or_none : Text → Option Text
or_none v = if is_empty v then none else some v

pub record MqttTlsConfig : Type 0 where
  pub enabled : Bool
  pub ca_file : Text
  pub cert_file : Text
  pub key_file : Text
  pub key_password : Text
  pub verify_hostname : Bool

unfoldable pub is_mutual : MqttTlsConfig → Bool
is_mutual c = not (is_empty c.cert_file)

pub record MqttSettings : Type 0 where
  pub host : Text
  pub port : ℤ
  pub username : Text
  pub password : Text
  pub client_id : Text
  pub keepalive_sec : ℤ
  pub tls : MqttTlsConfig

unfoldable pub with_tls : MqttSettings → MqttTlsConfig → MqttSettings
with_tls s tls = record s { tls = tls }

module _ (lower : Text → Text) (read_int : Text → Option ℤ) (environ : Dict Text Text) where
  -- `env_bool`
  unfoldable pub env_bool : Text → Bool → Bool
  env_bool key default =
      lower (strip (env_str environ key (if default then codes "true" else codes "false")))
      == codes "true"

  -- `env_int`; an absent variable reads as the text of the default, and so as the default.
  unfoldable pub env_int : Text → ℤ → ℤ
  env_int key default = elim (lookup key environ) [
    | none ↦ default
    | some raw ↦ int_or default (read_int raw)
  ]

  -- `MqttTlsConfig.from_env`
  unfoldable pub tls_from_env : Text → MqttTlsConfig
  tls_from_env prefix = record {
    enabled = env_bool (prefix ++ codes "TLS") false;
    ca_file = strip (env_str environ (prefix ++ codes "TLS_CA_FILE") []);
    cert_file = strip (env_str environ (prefix ++ codes "TLS_CERT_FILE") []);
    key_file = strip (env_str environ (prefix ++ codes "TLS_KEY_FILE") []);
    key_password = env_str environ (prefix ++ codes "TLS_KEY_PASSWORD") [];
    verify_hostname = not (env_bool (prefix ++ codes "TLS_INSECURE") false);
  }

  -- `MqttSettings.from_env`
  unfoldable pub from_env : Text → MqttSettings
  from_env prefix =
      let tls = tls_from_env prefix in
      record {
        host = env_str environ (prefix ++ codes "HOST") (codes "localhost");
        port = env_int (prefix ++ codes "PORT") (if tls.enabled then pos 8883 else pos 1883);
        username = env_str environ (prefix ++ codes "USER") [];
        password = env_str environ (prefix ++ codes "PASSWORD") [];
        client_id = env_str environ (prefix ++ codes "CLIENT_ID") [];
        keepalive_sec = env_int (prefix ++ codes "KEEPALIVE_SEC") (pos 60);
        tls = tls;
      }

pub data TlsFile : Type 0 where
  ca cert key : TlsFile

pub data TlsFinding : Type 0 where
  not_a_pair : TlsFinding
  missing_file : TlsFile → Text → TlsFinding

-- MqttConfigError, or what ssl raises.
pub data TlsError (E : Type 0) : Type 0 where
  config : List TlsFinding → TlsError E
  of_ssl : E → TlsError E

module _ (is_file : Text → Bool) where
  unfoldable pub file_errors : TlsFile → Text → List TlsFinding
  file_errors label value =
      if not (is_empty value) && not (is_file value) then missing_file label value ∷ [] else []

  -- `MqttTlsConfig.errors`
  unfoldable pub errors : MqttTlsConfig → List TlsFinding
  errors c =
      if not c.enabled
      then []
      else (if not (is_empty c.cert_file == is_empty c.key_file) then not_a_pair ∷ [] else [])
        ++ (file_errors ca c.ca_file
            ++ (file_errors cert c.cert_file ++ file_errors key c.key_file))

-- The members of `ssl.TLSVersion`.
pub data TlsVersion : Type 0 where
  ssl_v3 tls_v1 tls_v1_1 tls_v1_2 tls_v1_3 : TlsVersion

-- `MIN_TLS_VERSION`
unfoldable pub min_tls_version : TlsVersion
min_tls_version = tls_v1_2

-- What the source uses of ssl, for contexts `C` and exceptions `E`.
pub record Ssl (C E : Type 0) : Type 0 where
  pub create_default_context : Option Text → Result E C
  pub with_minimum_version : TlsVersion → C → C
  pub with_check_hostname : Bool → C → C
  pub load_cert_chain : Text → Text → Option Text → C → Result E C

module _ {C E : Type 0} (ssl : Ssl C E) (is_file : Text → Bool) where
  -- The client's certificate, where there is one.
  unfoldable pub with_chain : MqttTlsConfig → C → Result E C
  with_chain c context =
      if is_mutual c
      then ssl.load_cert_chain c.cert_file c.key_file (or_none c.key_password) context
      else ok context

  -- `ssl_context`, with no errors found.
  unfoldable pub build_context : MqttTlsConfig → Result E C
  build_context c = do
    base ← ssl.create_default_context (or_none c.ca_file)
    with_chain c
        (ssl.with_check_hostname c.verify_hostname (ssl.with_minimum_version min_tls_version base))

  abbrev pub wrapped : Result E C → Result (TlsError E) (Option C)
  wrapped (ok context) = ok (some context)
  wrapped (err e) = err (of_ssl e)

  abbrev pub unless_errors : List TlsFinding → MqttTlsConfig → Result (TlsError E) (Option C)
  unless_errors [] c = wrapped (build_context c)
  unless_errors (f ∷ fs) c = err (config (f ∷ fs))

  -- `ssl_context`
  unfoldable pub ssl_context : MqttTlsConfig → Result (TlsError E) (Option C)
  ssl_context c = if not c.enabled then ok none else unless_errors (errors is_file c) c
