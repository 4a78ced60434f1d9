-- ===== src/Container/EnvFile.antt =====
-- The file .env that genEnv of container/container.go writes.
use lpmx.Base.{
  ℕ, zero, suc, ◌+◌, ◌/◌, ◌%◌, ◌≡◌, ◌≢◌, refl, ap, ◌∙◌, not, ◌||◌, List, [], ◌∷◌, ◌++◌, length, All,
  All-append, Bool-cases, inl, inr, arith, ltb,
}
use lpmx.Base.Text.{Bytes, Lacks, contains, split, split-append}
use lpmx.Base.Numbers.{pos, itoa, print}
use lpmx.Container.Environ.{host_lines, printed, env_text}

print-Lacks : (fuel n : ℕ) → Lacks 10 (print fuel n)
unfolding print
print-Lacks zero n = tt
print-Lacks (suc fuel) n = elim (Bool-cases (ltb n 10)) [
  | inl e ↦ rw e ((omega arith), tt)
  | inr e ↦ rw e (
      All-append (λ c. c ≢ 10) (print fuel (n / 10)) ((b'0' + n % 10) ∷ [])
        (print-Lacks fuel (n / 10)) (omega arith, tt))
]

split-printed :
    (lines : List Bytes) → All (Lacks 10) lines → split 10 (printed lines) ≡ lines ++ [] ∷ []
unfolding printed split
split-printed [] a = refl
split-printed (line ∷ lines) (h, a) =
    split-append 10 line (printed lines) h ∙ ap (λ ps. line ∷ ps) (split-printed lines a)

host_lines-Lacks : (strs : List Bytes) → All (Lacks 10) strs → All (Lacks 10) (host_lines strs)
unfolding host_lines
host_lines-Lacks [] a = tt
host_lines-Lacks (str ∷ strs) (h, a) =
    elim (Bool-cases (
      contains b'{' str
      || contains b'}' str
      || contains b'(' str
      || contains b')' str
      || not (contains b'=' str))) [
        | inl e ↦ rw e (host_lines-Lacks strs a)
        | inr e ↦ rw e (h, host_lines-Lacks strs a)
      ]

-- If no variable of the host has a line break, the file .env reads back line by line as the number
-- of the variables that go to it, those variables, and an empty end.
pub split-env_text :
    (strs : List Bytes)
    → All (Lacks 10) strs
    → split 10 (env_text strs) ≡ itoa (pos (length (host_lines strs))) ∷ host_lines strs ++ [] ∷ []
unfolding env_text itoa
split-env_text strs a = split-printed (itoa (pos (length (host_lines strs))) ∷ host_lines strs) (
  print-Lacks (suc (length (host_lines strs))) (length (host_lines strs)),
  host_lines-Lacks strs a,
)
