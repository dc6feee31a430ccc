-- ===== src/Platform/Elevation.antt =====
-- crates/voya-platform/src/elevation.rs and privilege.rs: running and killing a core as root through
-- the launcher. A path is a text, with `/` between its components.
pub mod Quoting
use voya_vpn.Base.{
  ℕ, Bool, true, false, ◌&&◌, ◌||◌, not, List, [], ◌∷◌, ◌++◌, Option, none, some, ltb, leb, ◌==◌,
  if◌then◌else◌, take, Text, codes, text_eq, is_empty, all, split_at, show_number,
}
use voya_vpn.Platform.Tun.{TargetOs, windows, linux, macos, other}
use voya_vpn.Platform.Process.{ProcessSpawn, ProcessRole}

pub data ElevationError : Type 0 where
  unsupported_os : ElevationError
  invalid_kill_target : Text → ElevationError

abbrev sudo_executable : Text
sudo_executable = codes "/usr/bin/sudo"

abbrev pub is_unix : TargetOs → Bool
is_unix linux = true
is_unix macos = true
is_unix _ = false

unfoldable pub should_use_unix_sudo : TargetOs → Bool → Bool → Bool
should_use_unix_sudo os tun_enabled may_need_sudo = may_need_sudo && (tun_enabled && is_unix os)

unfoldable pub wrap_spawn_with_unix_sudo_passwordless : ProcessSpawn → Text → ProcessSpawn
wrap_spawn_with_unix_sudo_passwordless base launcher = record base {
  executable = sudo_executable;
  arguments = codes "-n" ∷ codes "--" ∷ launcher ∷ codes "run" ∷ base.executable ∷ base.arguments;
}

pub elevate_launcher_dir : TargetOs → Option Text
elevate_launcher_dir macos = some (codes "/usr/local/libexec/voya-vpn")
elevate_launcher_dir linux = some (codes "/usr/libexec/voya-vpn")
elevate_launcher_dir windows = none
elevate_launcher_dir other = none

unfoldable pub elevate_launcher_path : TargetOs → Option Text
unfolding elevate_launcher_dir
elevate_launcher_path os = elim (elevate_launcher_dir os) [
  | none ↦ none
  | some dir ↦ some (dir ++ codes "/voya-elevate")
]

last_component : Option Text → List Text → Option Text
last_component found [] = found
last_component found (piece ∷ pieces) =
    last_component (if is_empty piece || text_eq piece (codes ".") then found else some piece)
      pieces

-- `Path::file_name`: the last component, unless it is `..`.
unfoldable pub file_name : Text → Option Text
unfolding last_component split_at
file_name path = elim (last_component none (split_at b'/' [] path)) [
  | none ↦ none
  | some name ↦ if text_eq name (codes "..") then none else some name
]

pub data Named {ℓ} (A : Type ℓ) : Type ℓ where
  ok : A → Named A
  err : ElevationError → Named A

abbrev linux_comm_max_visible_chars : ℕ
linux_comm_max_visible_chars = 15

-- The name, and what Linux shows of it where that is less.
comm_names : Text → List Text
comm_names name =
    let truncated = take linux_comm_max_visible_chars name in
    if text_eq truncated name then name ∷ [] else name ∷ truncated ∷ []

unfoldable pub expected_process_comm_names : Text → Named (List Text)
unfolding comm_names
expected_process_comm_names executable = elim (file_name executable) [
  | none ↦ err (invalid_kill_target executable)
  | some name ↦ ok (comm_names name)
]

kill_spawn : Text → ℕ → Text → List Text → ProcessSpawn
unfolding show_number
kill_spawn launcher target_pid working_dir names = record {
  role = ProcessRole.sudo_kill;
  executable = sudo_executable;
  arguments = codes "-n" ∷ codes "--" ∷ launcher ∷ codes "kill" ∷ show_number target_pid ∷ names;
  working_dir = working_dir;
  environment = [];
  display_log = true;
}

unfoldable pub unix_sudo_kill_spawn_passwordless :
    TargetOs → Text → ℕ → Text → Text → Named ProcessSpawn
unfolding expected_process_comm_names kill_spawn
unix_sudo_kill_spawn_passwordless os launcher target_pid expected_executable working_dir =
    if not (is_unix os)
    then err unsupported_os
    else elim (expected_process_comm_names expected_executable) [
      | ok names ↦ ok (kill_spawn launcher target_pid working_dir names)
      | err e ↦ err e
    ]

is_ascii_alphanumeric : ℕ → Bool
is_ascii_alphanumeric c =
    (leb 48 c && leb c 57) || ((leb 65 c && leb c 90) || (leb 97 c && leb c 122))

pub is_plain : ℕ → Bool
unfolding is_ascii_alphanumeric
is_plain c =
    is_ascii_alphanumeric c || (c == b'_' || (c == b'-' || (c == b'.' || (c == b'/' || c == b':'))))

-- `replace('\'', "'\\''")`: each quote closes the text, stands escaped, and opens it again.
pub replace_quotes : Text → Text
replace_quotes [] = []
replace_quotes (c ∷ s) =
    if c == 39 then 39 ∷ 92 ∷ 39 ∷ 39 ∷ replace_quotes s else c ∷ replace_quotes s

unfoldable pub quote_shell_arg : Text → Text
quote_shell_arg value =
    if is_empty value
    then 39 ∷ 39 ∷ []
    else if all is_plain value
    then value
    else 39 ∷ (replace_quotes value ++ (39 ∷ []))
