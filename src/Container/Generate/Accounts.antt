-- ===== src/Container/Generate/Accounts.antt =====
-- The loader and the accounts of a new container: parts of generateContainer of
-- container/container.go.
use lpmx.Base.{
  ℕ, Bool, true, false, ◌&&◌, ◌==◌, Option, none, some, List, [], ◌∷◌, ◌++◌, if◌then◌else◌,
}
use mathlib.Core.List.{reverse}
use lpmx.Base.Text.{Bytes, codes, has_prefix, split}
use lpmx.Base.Paths.{below}
use lpmx.Base.Result.{Kind, Result, ok, err, panic, err_new}
use lpmx.Base.World.{World, Go, pure, ◌>>◌, os_mkdir_all, opens, write_file, read_file, ignoring}
use lpmx.Utils.Folders.{copy_file}
use lpmx.Elf.{patchldso}
use lpmx.Pid.{exists}

-- LD
unfoldable pub ld : List Bytes
ld =
    codes "/lib/x86_64-linux-gnu/ld-linux-x86-64.so.2"
    ∷ codes "/lib/ld.so"
    ∷ codes "/lib64/ld-linux-x86-64.so.2"
    ∷ codes "/lib/x86_64-linux-gnu/ld-linux-x86-64.so.1"
    ∷ codes "/lib64/ld-linux-x86-64.so.1"
    ∷ codes "/lib/ld-linux.so.2"
    ∷ codes "/lib/ld-linux.so.1"
    ∷ []

-- The first layer that has the file.
unfoldable pub layer_with : World → Bytes → List Bytes → Bytes → Option Bytes
unfolding exists
layer_with w base [] p = none
layer_with w base (l ∷ layers) p =
    if exists w (below base l ++ p) then some (below base l ++ p) else layer_with w base layers p

-- The loops over LD and the layers.
unfoldable pub loader_in : World → Bytes → List Bytes → List Bytes → Option Bytes
unfolding layer_with
loader_in w base layers [] = none
loader_in w base layers (v ∷ vs) = elim (layer_with w base layers v) [
  | some p ↦ some p
  | none ↦ loader_in w base layers vs
]

unfoldable pub patch_loader : (Bytes → Go ℕ) → Bytes → Option Bytes → Go (Option Bytes)
unfolding patchldso
patch_loader permission new none = pure none
patch_loader permission new (some old) = do patchldso permission old new; pure (some new)

-- type User of os/user, as far as it is used
pub record Account : Type 0 where
  pub username : Bytes
  pub uid : Bytes
  pub gid : Bytes

-- os.OpenFile(p, os.O_APPEND|os.O_WRONLY, os.ModeAppend) and WriteString
unfoldable pub append_text : Bytes → Bytes → Go (Unit {0})
unfolding opens exists write_file read_file err_new
append_text p s w =
    if exists w p && opens w p
    then (
      ok tt,
      write_file w p (
          (elim (read_file (record w { readable = λ q. true }) p) [
            | ok c ↦ c
            | err e ↦ []
            | panic ↦ []
          ])
          ++ s),
    )
    else (err (err_new (Kind.foreign (codes "open")) p), w)

-- fmt.Sprintf("%s:x:%s:%s:%s:/home/%s:/bin/bash\n", uname, uid, uid, uname, uname)
unfoldable pub passwd_line : Account → Bytes
passwd_line a =
    a.username
    ++ codes ":x:"
    ++ a.uid
    ++ b':' ∷ a.uid
    ++ b':' ∷ a.username
    ++ codes ":/home/"
    ++ a.username
    ++ codes ":/bin/bash"
    ++ 10 ∷ []

-- The loop over the layers for /etc/passwd: is one found?
unfoldable pub patch_passwd : Account → Bytes → Option Bytes → Go Bool
unfolding ignoring os_mkdir_all copy_file append_text passwd_line
patch_passwd a dir none = pure false
patch_passwd a dir (some passwd_path) = do
  ignoring (os_mkdir_all (dir ++ codes "/etc"))
  copy_file passwd_path (dir ++ codes "/etc/passwd")
  append_text (dir ++ codes "/etc/passwd") (passwd_line a)
  pure true

-- strings.HasSuffix(s, suffix)
unfoldable pub ends_with : Bytes → Bytes → Bool
unfolding has_prefix
ends_with s suffix = has_prefix (reverse s) (reverse suffix)

-- A line of a bufio.Scanner has no carriage return at its end, and the last line is none if it is
-- empty.
unfoldable pub without_return : Bytes → Bytes
without_return [] = []
without_return (c ∷ []) = if c == 13 then [] else c ∷ []
without_return (c ∷ d ∷ s) = c ∷ without_return (d ∷ s)

unfoldable pub scanned : List Bytes → List Bytes
unfolding without_return
scanned [] = []
scanned ([] ∷ []) = []
scanned ((c ∷ line) ∷ []) = without_return (c ∷ line) ∷ []
scanned (line ∷ next ∷ lines) = without_return line ∷ scanned (next ∷ lines)

-- The lines of the host's /etc/group that end with the user's name.
unfoldable pub append_groups : Bytes → Bytes → List Bytes → Go (Unit {0})
unfolding ends_with ignoring append_text
append_groups group uname [] = pure tt
append_groups group uname (content ∷ lines) = do
  if ends_with content (b':' ∷ uname)
      then ignoring (append_text group (content ++ 10 ∷ []))
      else pure tt
  append_groups group uname lines

unfoldable pub append_host : Bytes → Bytes → Result Bytes → Go (Unit {0})
unfolding append_groups scanned split
append_host group uname (ok s) = append_groups group uname (scanned (split 10 s))
append_host group uname (err e) = pure tt
append_host group uname panic = pure tt

-- The loop over the layers for /etc/group: is one found?
unfoldable pub patch_group : Account → Bytes → Option Bytes → Go Bool
unfolding ignoring os_mkdir_all copy_file append_text append_host read_file
patch_group a dir none = pure false
patch_group a dir (some group_path) = do
  ignoring (os_mkdir_all (dir ++ codes "/etc"))
  copy_file group_path (dir ++ codes "/etc/group")
  append_text (dir ++ codes "/etc/group") (a.username ++ codes ":x:" ++ a.gid ++ 10 ∷ [])
  λ w. append_host (dir ++ codes "/etc/group") a.username (read_file w (codes "/etc/group")) w
  pure true
