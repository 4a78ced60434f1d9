-- ===== src/Elf/Tests.antt =====
-- A linker with one of the paths in it.
use lpmx.Base.{ℕ, ◌≡◌, refl, true, some, [], ◌∷◌, ◌++◌, length}
use lpmx.Base.Text.{Bytes, codes}
use lpmx.Base.Result.{ok}
use lpmx.Base.World.{World, file, Go, pure, read_file, resolve, opens}
use lpmx.Elf.{patchldso}
use lpmx.Elf.Laws.{Blanked, patchldso_blanks}

abbrev linker : Bytes
linker = 127 ∷ 0 ∷ codes "/lib64" ++ 0 ∷ 1 ∷ []

abbrev machine : World
machine = record {
  node = λ p. some (file linker);
  readable = λ p. true;
  writable = λ p. true;
  removable = λ p. true;
  room = λ p. 1000;
}

abbrev permission : Bytes → Go ℕ
permission p = pure 493

patchldso_blanks_example :
    (patched : Bytes) × ((patchldso permission (codes "ld") (codes "new") machine).0 ≡ ok tt)
    × (read_file (patchldso permission (codes "ld") (codes "new") machine).1 (codes "new")
        ≡ ok patched)
    × Blanked linker patched
    × (length patched ≡ length linker)
unfolding read_file resolve opens
patchldso_blanks_example =
    patchldso_blanks permission (codes "ld") (codes "new") linker 493 machine refl refl refl refl
