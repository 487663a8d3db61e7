-- ===== src/Acceptance/Multipart/Tests.antt =====
-- Instances of the theorems on `MultipartBody`.
use uart2llm.Prelude.{ℕ, ◌≡◌, refl, ◌<◌, List, [], ◌∷◌, ◌++◌, arith, length, All}
use uart2llm.Prelude.Int.{pos}
use uart2llm.Acceptance.Pattern
use uart2llm.Acceptance.Multipart.{multipart_body, read, head_bytes, tail_bytes}
use uart2llm.Acceptance.Multipart.Laws.{
  reads, remaining, upload_body, reads-upload_body, reads_complete,
}

abbrev two_blocks : List ℕ
two_blocks = 8192 ∷ 1 ∷ []

two_blocks_positive : All (λ n. 0 < n) two_blocks
two_blocks_positive = omega arith

reads-upload_body_example :
    (reads two_blocks (multipart_body 5)).0 ++ remaining (reads two_blocks (multipart_body 5)).1
    ≡ upload_body 5
reads-upload_body_example = reads-upload_body 5 two_blocks two_blocks_positive

abbrev many_blocks : List ℕ
many_blocks = 65536 ∷ 2 ∷ 65536 ∷ []

many_blocks_positive : All (λ n. 0 < n) many_blocks
many_blocks_positive = omega arith

nothing_left : (read (pos 1) (reads many_blocks (multipart_body 2)).1).0 ≡ []
unfolding read reads multipart_body head_bytes tail_bytes Pattern.read Pattern.pattern_bytes
nothing_left = refl

reads_complete_example :
    ((reads many_blocks (multipart_body 2)).0 ≡ upload_body 2)
    × (length (reads many_blocks (multipart_body 2)).0 ≡ (multipart_body 2).body_length)
reads_complete_example =
    reads_complete 2 1 many_blocks many_blocks_positive (omega arith) nothing_left
