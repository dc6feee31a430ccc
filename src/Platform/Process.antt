-- ===== src/Platform/Process.antt =====
-- crates/voya-platform/src/process.rs: what a process is started with, and how a command line is
-- split into arguments.
use voya_vpn.Base.{
  ℕ, Bool, true, false, ◌||◌, List, [], ◌∷◌, ◌++◌, Option, none, some, ◌==◌, if◌then◌else◌, Text,
  is_whitespace,
}

pub data ProcessRole : Type 0 where
  main pre sudo_kill sys_proxy probe autostart : ProcessRole

pub record ProcessHandle : Type 0 where
  pub id : ℕ
  pub role : ProcessRole

-- crates/voya-platform/src/coreinfo.rs.
pub record CoreLaunch : Type 0 where
  pub executable : Text
  pub arguments : Text
  pub working_dir : Text
  pub environment : List (Text × Text)

-- The errors of the operating system carry no detail here.
pub data ProcessError : Type 0 where
  argument_parse : ℕ → ProcessError
  system : ProcessError

-- No part of the program that is modelled writes to a process or generates a script for it.
pub record ProcessSpawn : Type 0 where
  pub role : ProcessRole
  pub executable : Text
  pub arguments : List Text
  pub working_dir : Text
  pub environment : List (Text × Text)
  pub display_log : Bool

pub record ProcessOutput : Type 0 where
  -- `none`: killed by a signal. A code is told apart only from zero.
  pub status_code : Option ℕ
  pub stdout : Text
  pub stderr : Text

pub data Split : Type 0 where
  args_of : List Text → Split
  unterminated_quote : ℕ → Split

-- The variables of the loop.
pub record Splitter : Type 0 where
  pub args : List Text
  pub current : Text
  pub quote : Option ℕ
  pub escaped : Bool
  pub saw_token : Bool

abbrev push : Splitter → ℕ → Splitter
push s c = record s { current = s.current ++ (c ∷ []); saw_token = true }

unfoldable pub split_space : Splitter → Splitter
split_space s =
    if s.saw_token
    then record s { args = s.args ++ (s.current ∷ []); current = []; saw_token = false }
    else s

-- The `match` on the open quote.
unfoldable pub split_quoted : Option ℕ → Splitter → ℕ → Splitter
split_quoted (some active_quote) s c =
    if c == active_quote then record s { quote = none; saw_token = true } else push s c
split_quoted none s c =
    if c == 39 || c == 34
    then record s { quote = some c; saw_token = true }
    else if is_whitespace c
    then split_space s
    else push s c

unfoldable pub split_step : Splitter → ℕ → Splitter
split_step s c =
    if s.escaped
    then record s { current = s.current ++ (c ∷ []); escaped = false; saw_token = true }
    else if c == 92
    then record s { escaped = true; saw_token = true }
    else split_quoted s.quote s c

abbrev pub fresh : Splitter
fresh = record { args = []; current = []; quote = none; escaped = false; saw_token = false }

unfoldable pub split_all : Splitter → Text → Splitter
split_all s [] = s
split_all s (c ∷ input) = split_all (split_step s c) input

unfoldable pub split_end : Splitter → Split
split_end s =
    let current = if s.escaped then s.current ++ (92 ∷ []) else s.current in
    elim s.quote [
      | some active_quote ↦ unterminated_quote active_quote
      | none ↦ args_of (if s.saw_token then s.args ++ (current ∷ []) else s.args)
    ]

unfoldable pub split_command_line : Text → Split
unfolding split_all split_step split_end
split_command_line input = split_end (split_all fresh input)
