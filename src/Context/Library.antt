-- ===== src/Context/Library.antt =====
-- The libraries that contexts call: `std::net::IpAddr`, `serde_json` and `regex`.
use voya_vpn.Base.{Bool, Option, Text}

pub record Library : Type 1 where
  -- `parse::<IpAddr>().is_ok()`.
  pub is_ip : Text → Bool
  -- `serde_json::Value`, with `from_str`, `is_object`, `get` at a key and `as_str`.
  pub Json : Type 0
  pub from_str : Text → Option Json
  pub is_object : Json → Bool
  pub get_key : Text → Json → Option Json
  pub as_str : Json → Option Text
  -- `Regex::new`, and `is_match` of what it gives.
  pub regex : Text → Option (Text → Bool)
