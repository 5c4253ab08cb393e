-- ===== src/Config/Check.antt =====
-- config.rs: the checks of a loaded configuration, and the values computed from it.
use michoi.Common.{is_ok}
use mathlib.Core.Bool.{false≢true}
use michoi.Common.{sym, ap, ◌∙◌, ◌≢◌}
use michoi.Common.{
  ℕ, zero, suc, ◌+◌, ◌-◌, ◌*◌, ◌/◌, ◌^◌, Bool, true, false, not, ◌&&◌, Option, none, some, List, [],
  ◌∷◌, ◌++◌, length, ltb, leb, ◌==◌, str_eq, if◌then◌else◌, keep, map, Result, is_ok, ok, err,
  ensure, ◌>>◌, ◌>>=◌,
}
use michoi.Common.{◌≡◌, refl, ◌≤◌, inl, inr, Bool-cases, Result-cases, arith}
use michoi.Common.Bytes.{Str, ascii}
use michoi.Common.Text.{split_once, from_str_radix}
use michoi.Net.{Ipv4Addr}
use michoi.Net.Address.{parse_ip_text, ip_number, number_ip}
use michoi.Config.{
  Config, IntercomConfig, HapConfig, AgentMode, pad_mode, tap_mode, ConfigError, not_read,
  not_parsed, no_device_id, no_slash, bad_address, bad_prefix, prefix_too_long, short_cooldown,
  no_fps, unknown_mode, bad_pin,
}

abbrev pub or_error {ℓ} : {A : Type ℓ} → ConfigError → Option A → Result ConfigError A
or_error e none = err e
or_error e (some a) = ok a

-- `u32::from_str`
abbrev below32 : Option ℕ → Option ℕ
below32 none = none
below32 (some n) = if ltb n (2 ^ 32) then some n else none

-- The number of addresses of the network: the set bits of `!mask`, and one.
abbrev pub network_size : ℕ → ℕ
network_size prefix = if prefix == 0 then 2 ^ 32 else 2 ^ (32 - prefix)

-- `n | !mask`
abbrev pub last_of : ℕ → ℕ → ℕ
last_of size n = n / size * size + (size - 1)

unfoldable pub subnet_broadcast : Str → Result ConfigError Ipv4Addr
subnet_broadcast cidr = do
  (ip_part, prefix_part) ← or_error no_slash (split_once b'/' cidr)
  ip ← or_error bad_address (parse_ip_text ip_part)
  prefix ← or_error bad_prefix (below32 (from_str_radix 10 prefix_part))
  ensure (leb prefix 32) prefix_too_long
      >> ok (number_ip (last_of (network_size prefix) (ip_number ip)))

-- `filter(|s| !s.is_empty())`
abbrev pub non_empty : Option Str → Option Str
non_empty none = none
non_empty (some []) = none
non_empty (some (x ∷ xs)) = some (x ∷ xs)

abbrev pub broadcast_of : Option Str → Result ConfigError Ipv4Addr
broadcast_of none = ok (record { a = 255; b = 255; c = 255; d = 255 })
broadcast_of (some cidr) = subnet_broadcast cidr

unfoldable pub discovery_broadcast : IntercomConfig → Result ConfigError Ipv4Addr
discovery_broadcast intercom = broadcast_of (non_empty intercom.subnet)

abbrev pub check_subnet : Option Str → Result ConfigError (Unit {0})
check_subnet none = ok tt
check_subnet (some cidr) = do _ ← subnet_broadcast cidr; ok tt

unfoldable pub validate : Config → Result ConfigError (Unit {0})
validate config =
    ensure (not (str_eq config.intercom.device_id [])) no_device_id
    >> (check_subnet (non_empty config.intercom.subnet)
        >> (ensure (leb 250 config.security.unlock_cooldown_ms) short_cooldown
            >> ensure (ltb 0 config.media.fps) no_fps))

-- `Config::load`, where `read` gives the text of a file and `from_toml` reads it.
unfoldable pub load : (Str → Option Str) → (Str → Option Config) → Str → Result ConfigError Config
load read from_toml path = do
  text ← or_error not_read (read path)
  config ← or_error not_parsed (from_toml text)
  validate config >> ok config

-- `AgentMode::from_str` and `as_str`.
unfoldable pub mode_from_str : Str → Result ConfigError AgentMode
mode_from_str text =
    if str_eq text (ascii "pad")
    then ok pad_mode
    else if str_eq text (ascii "tap")
    then ok tap_mode
    else err unknown_mode

unfoldable pub mode_as_str : AgentMode → Str
mode_as_str pad_mode = ascii "pad"
mode_as_str tap_mode = ascii "tap"

abbrev pub is_digit : ℕ → Bool
is_digit x = leb b'0' x && leb x b'9'

unfoldable pub pin_digits : HapConfig → Result ConfigError (List ℕ)
pin_digits hap =
    let digits = map (λ b. b - 48) (keep is_digit hap.pin) in
    if length digits == 8 then ok digits else err bad_pin

-- What the parts that read a checked configuration lean on.
pub record IsChecked (config : Config) : Type 0 where
  pub device_id : config.intercom.device_id ≢ []
  pub broadcast : (ip : Ipv4Addr) × (discovery_broadcast config.intercom ≡ ok ip)
  pub cooldown : 250 ≤ config.security.unlock_cooldown_ms
  pub fps : 1 ≤ config.media.fps

ensure-ok : (t : Bool) (e : ConfigError) → ensure t e ≡ ok tt → t ≡ true
ensure-ok true e h = refl
ensure-ok false e h = absurd (false≢true (ap is_ok h))

then-ok : (m k : Result ConfigError (Unit {0})) → (m >> k) ≡ ok tt → (m ≡ ok tt) × (k ≡ ok tt)
then-ok (ok _) k h = (refl, h)
then-ok (err e) k h = absurd (false≢true (ap is_ok h))

broadcast_of_lem :
    (o : Option Str) → check_subnet o ≡ ok tt → (ip : Ipv4Addr) × (broadcast_of o ≡ ok ip)
broadcast_of_lem none h = (_, refl)
broadcast_of_lem (some cidr) h = elim (Result-cases (subnet_broadcast cidr)) [
  | inl (ip, e) ↦ (ip, e)
  | inr (error, e) ↦
      let failed : check_subnet (some cidr) ≡ err error = rw e refl in
      absurd (false≢true (ap is_ok (sym failed ∙ h)))
]

-- A configuration that passes the check has a device identifier and a broadcast address for
-- discovery, a cooldown of at least 250 ms and a positive frame rate.
pub validate_lem : (config : Config) → validate config ≡ ok tt → IsChecked config
unfolding validate discovery_broadcast michoi.Common.Tests.str_eq
validate_lem config h =
    let named = not (str_eq config.intercom.device_id []) in
    let slow = leb 250 config.security.unlock_cooldown_ms in
    let moving = ltb 0 config.media.fps in
    let subnet = check_subnet (non_empty config.intercom.subnet) in
    let second = ensure slow short_cooldown >> ensure moving no_fps in
    let (a, rest) = then-ok (ensure named no_device_id) (subnet >> second) h in
    let (b, later) = then-ok subnet second rest in
    let (c, d) = then-ok (ensure slow short_cooldown) (ensure moving no_fps) later in
    let named_ok : named ≡ true = ensure-ok named no_device_id a in
    let slow_ok : slow ≡ true = ensure-ok slow short_cooldown c in
    let moving_ok : moving ≡ true = ensure-ok moving no_fps d in
    record {
      device_id = λ e. false≢true (sym (rw e refl) ∙ named_ok);
      broadcast = broadcast_of_lem (non_empty config.intercom.subnet) b;
      cooldown = ground arith;
      fps = ground arith;
    }
