-- ===== src/Mqtt/Client.antt =====
-- src/ss_kit/mqtt.py: what a client is given, and the line that describes it, with the mask of
-- src/ss_kit/settings.py. The digits that `str` gives for a number are a parameter.
use ss_common.Prelude.{
  ℕ, zero, suc, ◌-◌, Bool, ◌||◌, Option, none, some, [], ◌∷◌, ◌++◌, Text, codes, ◌==◌, nat_eq,
  if◌then◌else◌, is_empty, length, drop, leb,
}
use ss_common.Result.{Result, ok, ◌>>=◌}
use ss_common.Value.{ℤ, pos, negsuc}
use ss_common.Mqtt.{MqttSettings, is_mutual, or_none, TlsError, Ssl, ssl_context}

abbrev pub stars : ℕ → Text
stars zero = []
stars (suc n) = b'*' ∷ stars n

-- The last characters, where there are so many.
abbrev pub suffix : ℕ → Text → Text
suffix n value = drop (length value - n) value

-- `mask_secret`; none is the ValueError.
unfoldable pub mask_secret : Text → ℤ → Option Text
mask_secret value (negsuc n) = none
mask_secret value (pos n) =
    if is_empty value
    then some (codes "<not set>")
    else if n == 0 || length value == 1
    then some (stars (length value))
    else if leb (length value) n
    then some (stars (length value - 1) ++ suffix 1 value)
    else some (stars (length value - n) ++ suffix n value)

pub record ClientKwargs (C : Type 0) : Type 0 where
  pub hostname : Text
  pub port : ℤ
  pub username : Option Text
  pub password : Option Text
  pub keepalive : ℤ
  pub tls_context : Option C
  pub identifier : Option Text

module _ {C E : Type 0} (ssl : Ssl C E) (is_file : Text → Bool) where
  -- `client_kwargs`; a keyword that is left out is none.
  unfoldable pub client_kwargs : MqttSettings → Result (TlsError E) (ClientKwargs C)
  client_kwargs s = do
    context ← ssl_context ssl is_file s.tls
    ok (record {
      hostname = s.host;
      port = s.port;
      username = or_none s.username;
      password = or_none s.password;
      keepalive = s.keepalive_sec;
      tls_context = context;
      identifier = or_none s.client_id;
    })

abbrev pub masked : Option Text → Text
masked none = []
masked (some s) = s

-- `describe`
unfoldable pub describe : (ℤ → Text) → MqttSettings → Text
describe digits s =
    let mode =
      if s.tls.enabled
      then (if is_mutual s.tls then codes "mtls" else codes "tls")
      else codes "off" in
    let user = if is_empty s.username then codes "-" else s.username in
    s.host
    ++ codes ":"
    ++ digits s.port
    ++ codes " user="
    ++ user
    ++ codes " password="
    ++ masked (mask_secret s.password (pos 4))
    ++ codes " tls="
    ++ mode
