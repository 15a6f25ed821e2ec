-- ===== src/Bridge.antt =====
-- core/ir.py: `SemanticBridge`, which turns file operations into commands for the shell of the
-- system that a path belongs to. `os.path.abspath`, the files of the host and their encoding are a
-- parameter.
pub mod Confined
use universal_cross_shell_ex.Prelude.{
  ℕ, Bool, true, false, not, ◌&&◌, ◌||◌, List, [], ◌∷◌, ◌++◌, Option, none, some, all, map, leb,
  ◌==◌, if◌then◌else◌,
}
use universal_cross_shell_ex.Prelude.Text.{Text, codes, starts_with, is_letter}

pub data Os : Type 0 where
  windows linux unknown : Os

-- `re.match(r'^[a-zA-Z]:', path)`
abbrev pub has_drive : Text → Bool
has_drive [] = false
has_drive (c ∷ []) = false
has_drive (c ∷ d ∷ t) = is_letter c && d == b':'

unfoldable pub resolve_os_from_path : Text → Os
unfolding starts_with
resolve_os_from_path path =
    if has_drive path || starts_with (b'\\' ∷ b'\\' ∷ []) path
    then windows
    else if starts_with (codes "/") path
    then linux
    else unknown

-- `path.replace('/', '\\')`
abbrev pub backslashes : Text → Text
backslashes path = map (λ c. if c == b'/' then b'\\' else c) path

-- A command is given to the executor, or a file of the host is written.
pub data Event : Type 0 where
  executed : Text → Event
  written : Text → Event

-- What a method returns or raises.
pub data Reply : Type 0 where
  answered reported security_error : Reply

-- `abspath`, the absolute workspace, the chunks of a file in base 64 (`none`: it cannot be read),
-- whether the directory of a file can be made, and whether the file can be written.
pub record Host : Type 0 where
  pub abspath : Text → Text
  pub base_dir : Text
  pub chunks : Text → Option (List Text)
  pub prepares : Text → Bool
  pub writable : Text → Bool

pub data Operation : Type 0 where
  delete list_dir : Text → Operation
  copy : (from to : Text) → Operation

abbrev pub paths : Operation → List Text
paths (delete p) = p ∷ []
paths (list_dir p) = p ∷ []
paths (copy from to) = from ∷ to ∷ []

abbrev pub quoted : Text → Text
quoted t = codes "'" ++ t ++ codes "'"

abbrev pub no_os : Reply × List Event
no_os = (reported, [])

abbrev pub delete_on : Os → Text → Reply × List Event
delete_on windows p = (
  answered,
  executed (codes "ps:Remove-Item -Path " ++ quoted (backslashes p) ++ codes " -Recurse -Force")
      ∷ [],
)
delete_on linux p = (answered, executed (codes "bash:rm -rf " ++ quoted p) ∷ [])
delete_on unknown p = no_os

-- The root of a drive gets a backslash.
abbrev pub drive_root : Text → Text
drive_root [] = []
drive_root (c ∷ []) = c ∷ []
drive_root (c ∷ d ∷ []) = if has_drive (c ∷ d ∷ []) then c ∷ d ∷ b'\\' ∷ [] else c ∷ d ∷ []
drive_root (c ∷ d ∷ e ∷ t) = c ∷ d ∷ e ∷ t

abbrev pub list_on : Os → Text → Reply × List Event
list_on windows p = (
  answered,
  executed (
        codes "ps:Get-ChildItem -Path "
        ++ quoted (drive_root (backslashes p))
        ++ codes " -Force | Select-Object Name, Length, LastWriteTime, Mode")
      ∷ [],
)
list_on linux p = (answered, executed (codes "bash:ls -la " ++ quoted p) ∷ [])
list_on unknown p = no_os

abbrev pub transfer : Text → Text → Event
transfer to chunk = executed (
    codes "bash:base64 -di << 'EOF_UCSER_CHUNK' >> "
    ++ quoted to
    ++ 10 ∷ chunk
    ++ 10 ∷ codes "EOF_UCSER_CHUNK")

abbrev pub truncate : Text → Event
truncate to = executed (codes "bash:true > " ++ quoted to)

-- The file is opened after the destination was emptied.
abbrev pub to_linux : Text → Option (List Text) → Reply × List Event
to_linux to none = (reported, truncate to ∷ [])
to_linux to (some cs) = (answered, truncate to ∷ map (transfer to) cs)

-- The directory of the destination is made first, and the file is opened after the command.
abbrev pub to_windows : (from to : Text) → (prepared writable : Bool) → Reply × List Event
to_windows from to false writable = (reported, [])
to_windows from to true true =
    (answered, executed (codes "bash:base64 " ++ quoted from) ∷ written (backslashes to) ∷ [])
to_windows from to true false = (reported, executed (codes "bash:base64 " ++ quoted from) ∷ [])

module _ (w : Host) where
  abbrev pub copy_between : Os → Os → Text → Text → Reply × List Event
  copy_between windows windows from to = (
    answered,
    executed (
          codes "ps:Copy-Item -Path "
          ++ quoted (backslashes from)
          ++ codes " -Destination "
          ++ quoted (backslashes to)
          ++ codes " -Recurse -Force")
        ∷ [],
  )
  copy_between linux linux from to =
      (answered, executed (codes "bash:cp -r " ++ quoted from ++ codes " " ++ quoted to) ∷ [])
  copy_between windows linux from to = to_linux to (w.chunks (backslashes from))
  copy_between linux windows from to =
      to_windows from to (w.prepares (backslashes to)) (w.writable (backslashes to))
  copy_between unknown d from to = no_os
  copy_between windows unknown from to = no_os
  copy_between linux unknown from to = no_os

  -- `_validate_path`: `false` is the `SecurityError`. The empty path passes.
  unfoldable pub validate_path : Text → Bool
  unfolding starts_with
  validate_path [] = true
  validate_path (c ∷ t) = starts_with w.base_dir (w.abspath (c ∷ t))

  abbrev pub on_paths : Operation → Reply × List Event
  on_paths (delete p) = delete_on (resolve_os_from_path p) p
  on_paths (list_dir p) = list_on (resolve_os_from_path p) p
  on_paths (copy from to) =
      copy_between (resolve_os_from_path from) (resolve_os_from_path to) from to

  -- The methods: the paths are validated first.
  unfoldable pub perform : Operation → Reply × List Event
  unfolding validate_path resolve_os_from_path
  perform op = if all validate_path (paths op) then on_paths op else (security_error, [])
