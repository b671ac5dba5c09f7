-- ===== src/Tests/Strings.antt =====
-- The strings, at concrete inputs.
use loli_os.Prelude.{◌≡◌, some, [], ◌∷◌, arith, pos, negsuc}
use loli_os.Memory.Bytes.{Mem, store}
use loli_os.Strings.{itoa, number, atoi_s}
use loli_os.Strings.Parsing.{itoa-atoi_s}
use loli_os.Tests.Data.{letters}

itoa-atoi_s_example :
    (m' : Mem) × (itoa letters 391 301 10 ≡ some m')
    × (atoi_s m' 301 ≡ some (number (pos 391)))
    × (atoi_s (store m' 300 (45 ∷ [])) 300 ≡ some (number (negsuc 390)))
itoa-atoi_s_example = itoa-atoi_s letters 391 300 (omega arith)
