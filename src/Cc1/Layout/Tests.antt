-- ===== src/Cc1/Layout/Tests.antt =====
-- struct { char c; int i; short s; } where char has 1 byte, int 4 and short 2.
use simple_scc.Common.{ℕ, ◌+◌, ◌≤◌, ◌<◌, ◌≡◌, refl, arith, List, [], ◌∷◌, All}
use simple_scc.Common.Ub.{ok}
use simple_scc.Cc1.Types.{TypeOp}
use simple_scc.Cc1.Layout.{Extent, Shape, typesize, struct_size}
use simple_scc.Cc1.Layout.Round.{IsPower}
use simple_scc.Cc1.Layout.Struct.{IsMultiple, Laid, struct_size-Laid}

abbrev extent : ℕ → ℕ → Extent
extent s a = record { size = s; align = a }

abbrev three : List Extent
three = extent 1 1 ∷ extent 4 4 ∷ extent 2 2 ∷ []

abbrev shape : TypeOp → Shape
shape op = record { op = op; elem = 3; base = extent 4 4; fields = three; own = extent 0 0 }

struct_lem :
    typesize (extent 8 8) (extent 4 4) (shape TypeOp.struct) ≡ ok (extent 12 4, 0 ∷ 4 ∷ 8 ∷ [])
unfolding typesize
struct_lem = refl

union_lem :
    typesize (extent 8 8) (extent 4 4) (shape TypeOp.union) ≡ ok (extent 4 4, 0 ∷ 0 ∷ 0 ∷ [])
unfolding typesize
union_lem = refl

array_lem : typesize (extent 8 8) (extent 4 4) (shape TypeOp.ary) ≡ ok (extent 12 4, [])
unfolding typesize
array_lem = refl

struct_size-Laid_example :
    let (tp, offsets) = struct_size three in
    (end : ℕ) × Laid 0 three offsets end
    × All (λ g. g.align ≤ tp.align) three
    × IsPower tp.align
    × IsMultiple tp.align tp.size
    × (end ≤ tp.size)
    × (tp.size < end + tp.align)
struct_size-Laid_example =
    struct_size-Laid (extent 1 1) (extent 4 4 ∷ extent 2 2 ∷ [])
      ((0, omega arith, refl), ((2, omega arith, refl), ((1, omega arith, refl), tt))) (omega arith)
