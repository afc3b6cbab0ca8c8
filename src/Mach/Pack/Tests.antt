-- ===== src/Mach/Pack/Tests.antt =====
-- The round trip on the format "'2csl".
use simple_scc.Common.{◌≡◌, arith, List, [], ◌∷◌}
use simple_scc.Common.Int.{pos}
use simple_scc.Common.Ub.{ok}
use simple_scc.Mach.Pack.Format.{digits_value}
use simple_scc.Mach.Pack.Word.{big, short_bytes, long_bytes}
use simple_scc.Mach.Pack.Pack.{pack, raw, num}
use simple_scc.Mach.Pack.Unpack.{unpack}
use simple_scc.Mach.Pack.RoundTrip.{Field, bytes, char, short, long, unpack-pack}

abbrev fields : List Field
fields = bytes b'2' [] (0x7f ∷ 0x45 ∷ []) ∷ char 9 ∷ short 0x102 ∷ long 0x1020304 ∷ []

unpack-pack_example :
    (pack big
        (0x27 ∷ b'2' ∷ b'c' ∷ b's' ∷ b'l' ∷ [])
        (raw (0x7f ∷ 0x45 ∷ []) ∷ num 9 ∷ num 0x102 ∷ num 0x1020304 ∷ [])
      ≡ ok (0x7f ∷ 0x45 ∷ 9 ∷ 1 ∷ 2 ∷ 1 ∷ 2 ∷ 3 ∷ 4 ∷ [], pos 9))
    × (unpack big
          (0x7f ∷ 0x45 ∷ 9 ∷ 1 ∷ 2 ∷ 1 ∷ 2 ∷ 3 ∷ 4 ∷ 5 ∷ [])
          (0x27 ∷ b'2' ∷ b'c' ∷ b's' ∷ b'l' ∷ [])
        ≡ ok (raw (0x7f ∷ 0x45 ∷ []) ∷ num 9 ∷ num 0x102 ∷ num 0x1020304 ∷ [], pos 9))
unfolding short_bytes long_bytes digits_value
unpack-pack_example = unpack-pack big fields (5 ∷ []) (omega arith)
