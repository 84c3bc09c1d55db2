-- ===== src/Tests/Rings.antt =====
-- The byte ring at work: a ring of four bytes whose contents go round the end.
use network_engine_portfolio.Prelude.{ℕ, ◌≡◌, refl, [], ◌∷◌, some, none, arith, tabulate}
use network_engine_portfolio.Buffer.Ring.{
  RingBuffer, Iovecs, make, write, write_some, write_parts, put_part, free_space, commit_write,
}
use network_engine_portfolio.Buffer.Ring.Valid.{
  IsValid, contents, make-IsValid, commit_write-IsValid,
}
use network_engine_portfolio.Buffer.Ring.Write.{Appended, write_lem}

abbrev wrapped : RingBuffer
wrapped = record { buffer = 12 ∷ 0 ∷ 10 ∷ 11 ∷ []; capacity = 4; head = 2; tail = 1; size = 3 }

wrapped-IsValid : IsValid wrapped
wrapped-IsValid = omega arith

contents-wrapped : contents wrapped ≡ 10 ∷ 11 ∷ 12 ∷ []
unfolding contents tabulate
contents-wrapped = refl

-- Only one byte fits.
write-wrapped :
    write wrapped (some (20 ∷ 21 ∷ [])) 2
    ≡ (1, record wrapped { buffer = 12 ∷ 20 ∷ 10 ∷ 11 ∷ []; tail = 2; size = 4 })
unfolding write write_some write_parts put_part free_space
write-wrapped = refl

abbrev no_places : Iovecs
no_places = (record { base = none; len = 0 }, record { base = none; len = 0 })

make-IsValid_example :
    IsValid (record { buffer = 0 ∷ 0 ∷ []; capacity = 2; head = 0; tail = 0; size = 0 })
    × (◌≡◌ {A = ℕ} 0 0)
unfolding make
make-IsValid_example = make-IsValid 2 (omega arith) refl

write_lem_example :
    ((write wrapped (some (20 ∷ 21 ∷ [])) 2).0 ≡ 1)
    × Appended wrapped (20 ∷ []) (write wrapped (some (20 ∷ 21 ∷ [])) 2).1
write_lem_example = write_lem (20 ∷ 21 ∷ []) wrapped-IsValid 2 (omega arith)

abbrev roomy : RingBuffer
roomy = record { buffer = 0 ∷ 0 ∷ 0 ∷ 7 ∷ []; capacity = 4; head = 3; tail = 0; size = 1 }

commit_write-IsValid_example : IsValid (commit_write roomy 9) × ((commit_write roomy 9).size ≡ 4)
commit_write-IsValid_example = commit_write-IsValid {r = roomy} 9 (omega arith)
