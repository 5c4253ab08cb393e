-- ===== src/Config.antt =====
-- config.rs: the configuration with its defaults, its check, and what is computed from it. Reading
-- the TOML text is a parameter; a path is its text.
pub mod Check
use michoi.Common.{
  ℕ, zero, suc, ◌+◌, ◌-◌, ◌*◌, ◌/◌, ◌^◌, Bool, true, false, not, ◌&&◌, Option, none, some, List, [],
  ◌∷◌, ◌++◌, length, ltb, leb, ◌==◌, str_eq, if◌then◌else◌, keep, map, Result, ok, err, ensure,
  ◌>>◌, ◌>>=◌,
}
use michoi.Common.Bytes.{Str, ascii}
use michoi.Common.Text.{split_once, from_str_radix}
use michoi.Net.{Ipv4Addr, unspecified}
use michoi.Net.Address.{SocketAddr, v4, parse_ip_text, ip_number, number_ip}

pub data AgentMode : Type 0 where
  pad_mode tap_mode : AgentMode

pub record IntercomConfig : Type 0 where
  pub mode : AgentMode
  pub device_id : Str
  pub subnet : Option Str
  pub pad_listen : SocketAddr
  pub bridge_interface : Str
  pub door_interface : Str
  pub pad_interface : Str
  pub door_id : Option Str
  pub door_ip : Option Ipv4Addr
  pub room_ip : Option Ipv4Addr
  pub door_mac : Option Str
  pub pad_mac : Option Str
  pub control_port : ℕ
  pub discovery_port : ℕ
  pub cameras : List Str
  pub elevator_door : Option Str

abbrev pub unset_interface : Str
unset_interface = ascii "CONFIGURE_ME"

unfoldable pub default_intercom : IntercomConfig
default_intercom = record {
  mode = tap_mode;
  device_id = [];
  subnet = none;
  pad_listen = v4 unspecified 10000;
  bridge_interface = ascii "br-lan";
  door_interface = unset_interface;
  pad_interface = unset_interface;
  door_id = none;
  door_ip = none;
  room_ip = none;
  door_mac = none;
  pad_mac = none;
  control_port = 10000;
  discovery_port = 10008;
  cameras = [];
  elevator_door = none;
}

pub record AgentConfig : Type 0 where
  pub http_listen : SocketAddr
  pub token : Str
  pub swagger : Bool
  pub web_ui : Bool
  pub camera_resolutions : List Str
  pub camera_resolution_default : Str
  pub camera_fps : List ℕ
  pub camera_fps_default : ℕ
  pub tls_cert : Option Str
  pub tls_key : Option Str
  pub backend_ca : Option Str

abbrev pub default_camera_resolutions : List Str
default_camera_resolutions = ascii "320x240" ∷ ascii "640x480" ∷ ascii "1024x768" ∷ []

unfoldable pub default_agent : AgentConfig
default_agent = record {
  http_listen = v4 (record { a = 127; b = 0; c = 0; d = 1 }) 8080;
  token = [];
  swagger = false;
  web_ui = true;
  camera_resolutions = default_camera_resolutions;
  camera_resolution_default = ascii "640x480";
  camera_fps = 12 ∷ 24 ∷ 48 ∷ [];
  camera_fps_default = 24;
  tls_cert = none;
  tls_key = none;
  backend_ca = none;
}

pub data MediaEngineKind : Type 0 where
  lite ffmpeg_engine : MediaEngineKind

pub record MediaConfig : Type 0 where
  pub engine : MediaEngineKind
  pub fps : ℕ
  pub width : ℕ
  pub height : ℕ
  pub static_jpeg : Option Str
  pub ffmpeg : Str
  pub history_secs : ℕ
  pub history_max_kib : ℕ

unfoldable pub default_media : MediaConfig
default_media = record {
  engine = lite;
  fps = 8;
  width = 320;
  height = 240;
  static_jpeg = none;
  ffmpeg = ascii "ffmpeg";
  history_secs = 5;
  history_max_kib = 2048;
}

pub data CoexistenceMode : Type 0 where
  manual automatic : CoexistenceMode

pub record CoexistenceConfig : Type 0 where
  pub mode : CoexistenceMode
  pub nfqueue : ℕ
  pub owner_timeout_ms : ℕ

unfoldable pub default_coexistence : CoexistenceConfig
default_coexistence = record { mode = manual; nfqueue = 30; owner_timeout_ms = 2000 }

pub record SecurityConfig : Type 0 where
  pub unlock_cooldown_ms : ℕ
  pub unlock_requires_answer : Bool
  pub virtual_unlock_ms : ℕ
  pub max_call_seconds : ℕ

unfoldable pub default_security : SecurityConfig
default_security = record {
  unlock_cooldown_ms = 1000;
  unlock_requires_answer = false;
  virtual_unlock_ms = 1500;
  max_call_seconds = 300;
}

pub record HapConfig : Type 0 where
  pub enabled : Bool
  pub name : Str
  pub pin : Str
  pub port : ℕ
  pub interface : Str
  pub serial : Str
  pub storage : Str

unfoldable pub default_hap : HapConfig
default_hap = record {
  enabled = false;
  name = ascii "michoi";
  pin = ascii "031-45-154";
  port = 51826;
  interface = [];
  serial = ascii "MICHOI-0000";
  storage = ascii "/etc/michoi/hap";
}

pub record Config : Type 0 where
  pub intercom : IntercomConfig
  pub agent : AgentConfig
  pub media : MediaConfig
  pub coexistence : CoexistenceConfig
  pub security : SecurityConfig
  pub hap : HapConfig

unfoldable pub default_config : Config
default_config = record {
  intercom = default_intercom;
  agent = default_agent;
  media = default_media;
  coexistence = default_coexistence;
  security = default_security;
  hap = default_hap;
}

-- The errors, by what their messages say.
pub data ConfigError : Type 0 where
  not_read not_parsed no_device_id no_slash bad_address bad_prefix prefix_too_long short_cooldown
        no_fps unknown_mode bad_pin :
      ConfigError
