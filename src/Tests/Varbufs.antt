-- ===== src/Tests/Varbufs.antt =====
-- The theorems on buffers at concrete buffers.
use dpkg.Base.{[], arith, codes, inr, refl, some, ℕ, ◌*◌, ◌++◌, ◌+◌, ◌<◌, ◌^◌, ◌∷◌, ◌≡◌}
use dpkg.Varbuf.{Varbuf, done, varbuf_grow, varbuf_zero}
use dpkg.Varbuf.Room.{Holds}
use dpkg.Varbuf.Commands.{Makes, add_dir, extra, meaning, run, run-Holds}
use dpkg.Varbuf.Overflow.{varbuf_grow_wraps}

abbrev junk : ℕ → ℕ
junk i = 170

-- "ab" in five bytes.
abbrev two_bytes : Varbuf
two_bytes = record { used = 2; size = 5; buf = some (codes "ab" ++ 0 ∷ (170 ∷ 170 ∷ [])) }

two_bytes-Holds : Holds two_bytes (codes "ab")
two_bytes-Holds = record { count = refl; backed = inr (170 ∷ 170 ∷ [], refl, refl) }

run-Holds_example :
    Makes junk
      (run junk (add_dir (codes "usr")) two_bytes)
      (meaning (add_dir (codes "usr")) (codes "ab"))
      ((two_bytes.size + extra (add_dir (codes "usr"))) * 4)
run-Holds_example =
    run-Holds junk (add_dir (codes "usr")) two_bytes (codes "ab") two_bytes-Holds (omega arith)

varbuf_grow_wraps_example :
    (w : Varbuf) × (varbuf_grow junk varbuf_zero (2 ^ 63) ≡ done w) × (w.size < 2 ^ 63)
varbuf_grow_wraps_example = varbuf_grow_wraps junk (2 ^ 63) (omega arith) (omega arith)
