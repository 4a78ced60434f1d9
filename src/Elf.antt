-- ===== src/Elf.antt =====
-- Patchldso of elf/elf.go: the dynamic linker is made to look for its files below another root.
use lpmx.Base.{
  ℕ, zero, suc, ◌-◌, ◌≡◌, Bool, true, false, List, [], ◌∷◌, ◌++◌, if◌then◌else◌, length, ◌&&◌,
}
use lpmx.Base.Text.{Bytes, codes, has_prefix}
use lpmx.Base.Result.{Kind, Error, Result, ok, err, panic, err_new}
use lpmx.Base.World.{World, Go, pure, ◌>>=◌, ◌>>◌, read_file, opens, write_file}
pub mod Laws
pub mod Commands
mod Tests

-- bytes.Replace(content, old, new, -1) for an `old` that is not empty, behind `skip` bytes of an
-- occurrence that is replaced already.
unfoldable pub replace_from : Bytes → Bytes → ℕ → Bytes → Bytes
replace_from old new skip [] = []
replace_from old new (suc skip) (c ∷ s) = replace_from old new skip s
replace_from old new zero (c ∷ s) =
    let replaced = replace_from old new (length old - 1) s in
    let kept = replace_from old new zero s in
    if has_prefix (c ∷ s) old then new ++ replaced else c ∷ kept

unfoldable pub replace : Bytes → Bytes → Bytes → Bytes
unfolding replace_from
replace content old new = replace_from old new 0 content

unfoldable pub nuls : ℕ → Bytes
nuls zero = []
nuls (suc n) = 0 ∷ nuls n

unfoldable pub etc : Bytes
etc = 0 ∷ codes "/etc/ld.so.preload" ++ 0 ∷ []

unfoldable pub etc1 : Bytes
etc1 = 0 ∷ codes "/etc/ld.so.cache" ++ 0 ∷ []

unfoldable pub lib : Bytes
lib = 0 ∷ codes "/lib"

unfoldable pub usr : Bytes
usr = 0 ∷ codes "/usr/lib"

-- nul_etc, nul_etc1, nul_lib and nul_usr
unfoldable pub nul : ℕ → Bytes
unfolding nuls
nul n = 0 ∷ b'/' ∷ nuls n

-- The four replacements, in the order of the source.
unfoldable pub patch : Bytes → Bytes
unfolding replace etc etc1 lib usr nul
patch content =
    let content1 = replace content etc (nul 18) in
    let content2 = replace content1 etc1 (nul 16) in
    let content3 = replace content2 lib (nul 3) in replace content3 usr (nul 7)

unfoldable pub or_missing : Bytes → Result Bytes → Result Bytes
unfolding err_new
or_missing elfpath (ok s) = ok s
or_missing elfpath (err e) = err (err_new e.kind (codes "elf file doesn't exist " ++ elfpath))
or_missing elfpath panic = panic

unfoldable pub write_patched : Bytes → Bytes → Go (Unit {0})
unfolding opens write_file err_new
write_patched content newpath w =
    if opens w newpath
    then (ok tt, write_file w newpath content)
    else (err (err_new (Kind.foreign (codes "open")) (codes "ld.so patch failed " ++ newpath)), w)

-- Patchldso, where GetFilePermission asks the package permbits
unfoldable pub patchldso : (Bytes → Go ℕ) → Bytes → Bytes → Go (Unit {0})
unfolding or_missing read_file patch write_patched
patchldso get_file_permission elfpath newpath = do
  content ← λ w. (or_missing elfpath (read_file w elfpath), w)
  permissions ← get_file_permission elfpath
  write_patched (patch content) newpath
