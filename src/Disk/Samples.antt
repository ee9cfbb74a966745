-- ===== src/Disk/Samples.antt =====
-- A file system that is a function, and numbers as text, for the tests.
use somedb.Base.{ℕ, zero, suc, ◌+◌, ◌-◌, refl, leb, ltb, ◌&&◌, [], ◌∷◌, length, if◌then◌else◌}
use somedb.Base.Int.{ℤ, pos}
use somedb.Disk.File.{Files}
use somedb.Sql.Token.{Text}

abbrev pub test_files : Files
test_files = record {
  File = ℕ × (ℕ → ℕ);
  size = λ f. f.0;
  byte = λ f q. f.1 q;
  write_at = λ f offset count data_. (
    if leb f.0 (offset + count) then offset + count else f.0,
    λ q. if leb offset q && ltb q (offset + count) then data_ (q - offset) else f.1 q,
  );
  byte-write_at = λ f offset count data_ q. refl;
  size-write_at = λ f offset count data_. refl;
}

abbrev pub zeros : test_files.File
zeros = (16384, λ q. 0)

-- Numbers as that many digits, and back.
abbrev pub unary : ℕ → Text
unary zero = []
unary (suc n) = 49 ∷ unary n

abbrev pub digits : Text → ℤ
digits t = pos (length t)
