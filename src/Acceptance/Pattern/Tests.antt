-- ===== src/Acceptance/Pattern/Tests.antt =====
-- Runs of `PatternBody`, and instances of its theorems.
use Prim.Native.String.{◌++◌ as ◌<>◌}
use uart2llm.Prelude.{ℕ, String, ◌≤◌, ◌≡◌, List, [], ◌∷◌, ◌++◌, some, append-nil, append_assoc}
use uart2llm.Prelude.Int.{ℤ, pos, negsuc}
use uart2llm.Acceptance.Pattern.{pattern_body, Sha, Streams, pattern_hash}
use uart2llm.Acceptance.Pattern.Bytes.{fixture_bytes}
use uart2llm.Acceptance.Pattern.Laws.{reads, reads-fixture_bytes, pattern_hash-eq}

marks : List ℕ → String
marks [] = ""
marks (c ∷ s) = "x" <> marks s

-- A digest that keeps what it was given, and shows its length.
abbrev recorder : Sha
recorder = record {
  State = List ℕ;
  start = [];
  update = λ seen bytes. seen ++ bytes;
  hexdigest = marks;
}

recorder-Streams : Streams recorder
recorder-Streams = record { update_nil = append-nil; update-update = append_assoc }

abbrev some_amounts : List ℤ
some_amounts = pos 250 ∷ negsuc 3 ∷ pos 4 ∷ []

reads-fixture_bytes_example :
    ((reads some_amounts (pattern_body 300)).0
      ≡ fixture_bytes 0 (reads some_amounts (pattern_body 300)).1.offset)
    × ((reads some_amounts (pattern_body 300)).1.offset ≤ 300)
reads-fixture_bytes_example = reads-fixture_bytes 300 some_amounts

pattern_hash-eq_example : pattern_hash recorder 252 ≡ some (marks ([] ++ fixture_bytes 0 252))
pattern_hash-eq_example = pattern_hash-eq recorder recorder-Streams 252
