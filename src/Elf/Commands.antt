-- ===== src/Elf/Commands.antt =====
-- elfPatch of elf/elf.go and the functions that call it: the program patchelf changes a binary.
use lpmx.Base.{Bool, true, List, [], ◌∷◌}
use lpmx.Base.Text.{Bytes, codes}
use lpmx.Base.Paths.{below}
use lpmx.Base.World.{Go, pure, ◌>>=◌}
use lpmx.Paeudo.{Exec, command}

-- The indices of PARAMS
pub data Param : Type 0 where
  set_interpreter set_soname set_rpath add_needed remove_rpath remove_needed replace_needed : Param

-- PARAMS
unfoldable pub params : Param → Bytes
params set_interpreter = codes "--set-interpreter"
params set_soname = codes "--set-soname"
params set_rpath = codes "--set-rpath"
params add_needed = codes "--add-needed"
params remove_rpath = codes "--remove-rpath"
params remove_needed = codes "--remove-needed"
params replace_needed = codes "--replace-needed"

module _ (run : Exec) (elfpath : Bytes) where
  -- elfPatch
  unfoldable pub elf_patch : List Bytes → Go Bytes
  unfolding command
  elf_patch arg = command run (below elfpath (codes "patchelf")) arg

  -- ElfSetInterpreter: `true` unless there is an error, as in the functions below.
  unfoldable pub elf_set_interpreter : Bytes → Bytes → Go Bool
  unfolding elf_patch params
  elf_set_interpreter lib prog = do
    out ← elf_patch (params set_interpreter ∷ lib ∷ prog ∷ [])
    pure true

  -- ElfSetSoname
  unfoldable pub elf_set_soname : Bytes → Bytes → Go Bool
  unfolding elf_patch params
  elf_set_soname lib prog = do out ← elf_patch (params set_soname ∷ lib ∷ prog ∷ []); pure true

  -- ElfRPath
  unfoldable pub elf_r_path : Bytes → Bytes → Go Bool
  unfolding elf_patch params
  elf_r_path lib prog = do out ← elf_patch (params set_rpath ∷ lib ∷ prog ∷ []); pure true

  -- ElfAddNeeded
  unfoldable pub elf_add_needed : List Bytes → Bytes → Go Bool
  unfolding elf_patch params
  elf_add_needed [] prog = pure true
  elf_add_needed (lib ∷ libs) prog = do
    out ← elf_patch (params add_needed ∷ lib ∷ prog ∷ [])
    elf_add_needed libs prog

  -- ElfRemoveNeeded
  unfoldable pub elf_remove_needed : List Bytes → Bytes → Go Bool
  unfolding elf_patch params
  elf_remove_needed [] prog = pure true
  elf_remove_needed (lib ∷ libs) prog = do
    out ← elf_patch (params remove_needed ∷ lib ∷ prog ∷ [])
    elf_remove_needed libs prog

  -- ElfRemoveRPath
  unfoldable pub elf_remove_r_path : Bytes → Bytes → Go Bool
  unfolding elf_patch params
  elf_remove_r_path lib prog = do out ← elf_patch (params remove_rpath ∷ lib ∷ prog ∷ []); pure true

  -- ElfReplaceNeeded
  unfoldable pub elf_replace_needed : Bytes → Bytes → Bytes → Go Bool
  unfolding elf_patch params
  elf_replace_needed lib_old lib_new prog = do
    out ← elf_patch (params replace_needed ∷ lib_old ∷ lib_new ∷ prog ∷ [])
    pure true
