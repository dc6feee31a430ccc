-- ===== src/Platform/Tests.antt =====
-- Small inputs of the platform's functions.
use voya_vpn.Base.{
  ◌≡◌, ◌↔◌, refl, true, false, List, [], ◌∷◌, Text, codes, is_whitespace, Free, Free-of_is_free,
}
use voya_vpn.Platform.Tun.{linux, ready, needs_elevation, tun_preflight}
use voya_vpn.Platform.Tun.Laws.{tun_preflight_ready}
use voya_vpn.Platform.Process.{
  args_of, unterminated_quote, split_all, split_step, split_quoted, split_space, split_end,
  split_command_line,
}
use voya_vpn.Platform.Elevation.{ok, file_name, expected_process_comm_names}
use voya_vpn.Platform.Elevation.Quoting.{All, command_line, split_command_line-quote}

tun_preflight_ready_example :
    (((tun_preflight linux false).state ≡ ready)
      ↔ ((tun_preflight linux false).allow_enable_tun ≡ true))
    × (((tun_preflight linux false).state ≡ needs_elevation)
        ↔ (((tun_preflight linux false).requires_elevation ≡ true) × (false ≡ false)))
tun_preflight_ready_example = tun_preflight_ready linux false

abbrev core : Text
core = codes "/opt/voya/sing-box-extended"

abbrev core_name : Text
core_name = codes "sing-box-extended"

abbrev core_names : List Text
core_names = core_name ∷ codes "sing-box-extend" ∷ []

core_names_shown : expected_process_comm_names core ≡ ok core_names
unfolding expected_process_comm_names file_name
core_names_shown = refl

abbrev arguments : List Text
arguments = codes "run" ∷ codes "it's a config" ∷ [] ∷ []

arguments-Free : All (Free 92) arguments
arguments-Free = (
  Free-of_is_free 92 (codes "run") refl,
  (Free-of_is_free 92 (codes "it's a config") refl, (Free-of_is_free 92 [] refl, tt)),
)

split_command_line-quote_example : split_command_line (command_line arguments) ≡ args_of arguments
split_command_line-quote_example = split_command_line-quote arguments arguments-Free

split_open_quote : split_command_line (codes "run 'config") ≡ unterminated_quote 39
unfolding split_command_line split_all split_step split_quoted split_space split_end is_whitespace
split_open_quote = refl
