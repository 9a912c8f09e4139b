-- ===== src/Config.antt =====
-- fproxy-rs/src/config.rs. A text is the list of its code points, a duration a number of nanoseconds.
pub mod Text
pub mod IpAddr
pub mod Parse
pub mod Split
pub mod Accepts
pub mod Load
pub mod Ready
pub mod Valid
pub mod Duration
use fproxy.Base.{ℕ, List}

abbrev pub Text : Type 0
Text = List ℕ

pub data Protocol : Type 0 where
  udp tcp : Protocol

pub data Mode : Type 0 where
  client server : Mode

pub record Endpoint : Type 0 where
  pub address : Text
  pub protocol : Protocol

pub record ClientConfig : Type 0 where
  pub listen_addr : Text
  pub servers : List Endpoint
  pub session_timeout : ℕ

pub record ServerConfig : Type 0 where
  pub listen_addrs : List Endpoint
  pub target_addr : Text
  pub dedup_window : ℕ
  pub session_timeout : ℕ
