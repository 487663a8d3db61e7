-- ===== src/Acceptance/Pattern/Laws.antt =====
-- `PatternBody` of scripts/acceptance.py: whatever amounts a consumer asks for, it receives the
-- fixture stream, and `pattern_hash` is the digest of that stream.
use mathlib.Core.Option
use native.Mathlib.Nat.{add_assoc, add-zero}
use uart2llm.Prelude.{
  ℕ, zero, suc, ◌+◌, ◌-◌, ◌*◌, ◌%◌, ◌≤◌, ◌<◌, min, ◌≡◌, refl, sym, ap, ◌∙◌, List, [], ◌∷◌, ◌++◌,
  some, arith, inl, inr, ℕ-cases,
}
use uart2llm.Prelude.Int.{ℤ, pos, pos_part}
use uart2llm.Acceptance.Pattern.{
  chunk, PatternBody, pattern_body, read, Sha, Streams, hash_loop, pattern_hash,
}
use uart2llm.Acceptance.Pattern.Bytes.{
  fixture_bytes, fixture_bytes-append, pattern_slice, same_bytes,
}

-- How many bytes `read` returns.
abbrev pub taken : ℤ → PatternBody → ℕ
taken amount b = min (min chunk (pos_part amount)) (b.size - b.offset)

abbrev pub advance : ℕ → PatternBody → PatternBody
advance n b = record b { offset = b.offset + n }

pub read_lem :
    (amount : ℤ) (b : PatternBody)
    → read amount b ≡ (fixture_bytes b.offset (taken amount b), advance (taken amount b) b)
unfolding read
read_lem amount b =
    let inside : b.offset % 251 + taken amount b ≤ 263 * 251 = omega arith in
    rw (pattern_slice (b.offset % 251) (taken amount b) inside) (
      ap (λ bytes. (bytes, advance (taken amount b) b))
        (same_bytes (b.offset % 251) b.offset (taken amount b) (taken amount b) (omega arith) refl))

-- What a consumer has received after asking for the given amounts in turn.
unfoldable pub reads : List ℤ → PatternBody → List ℕ × PatternBody
reads [] b = ([], b)
reads (amount ∷ rest) b =
    let (bytes, b') = read amount b in let (more, b'') = reads rest b' in (bytes ++ more, b'')

empty_read :
    (b : PatternBody)
    → ◌≡◌ {A = List ℕ × PatternBody} ([], b) (fixture_bytes b.offset 0, advance 0 b)
unfolding fixture_bytes
empty_read b = ap (λ n. ([], record b { offset = n })) (sym (add-zero b.offset))

reads_from :
    (amounts : List ℤ) (b : PatternBody)
    → b.offset ≤ b.size
    → (n : ℕ) × (reads amounts b ≡ (fixture_bytes b.offset n, advance n b))
      × (b.offset + n ≤ b.size)
unfolding reads
reads_from [] b h = (0, empty_read b, omega arith)
reads_from (amount ∷ rest) b h =
    let (n, e, le) = reads_from rest (advance (taken amount b) b) (omega arith) in
    (taken amount b + n, rw (read_lem, e, fixture_bytes-append, add_assoc), omega arith)

-- Whatever amounts are asked for, negative ones included, the bytes received so far are the first
-- `offset` bytes of the fixture stream, and the offset never passes the size.
pub reads-fixture_bytes :
    (size : ℕ) (amounts : List ℤ)
    → ((reads amounts (pattern_body size)).0
        ≡ fixture_bytes 0 (reads amounts (pattern_body size)).1.offset)
      × ((reads amounts (pattern_body size)).1.offset ≤ size)
reads-fixture_bytes size amounts =
    let (n, e, le) = reads_from amounts (pattern_body size) (omega arith) in
    let received : (reads amounts (pattern_body size)).0 ≡ fixture_bytes 0 n = ap (λ t. t.0) e in
    let moved : (reads amounts (pattern_body size)).1.offset ≡ n =
      ap (λ t. t.1.offset) e ∙ omega arith in
    (received ∙ ap (fixture_bytes 0) (sym moved), omega arith)

module _ (h : Sha) (laws : Streams h) where
  -- The body of the loop, after a read.
  abbrev after_read : ℕ → h.State → List ℕ × PatternBody → Option.Option h.State
  after_read fuel digest t =
      let (block, b) = t in
      elim block [ [] ↦ some digest | x ∷ xs ↦ hash_loop h fuel b (h.update digest (x ∷ xs)) ]

  hash_loop_from :
      (fuel : ℕ) (b : PatternBody) (digest : h.State)
      → b.offset ≤ b.size
      → b.size - b.offset < fuel
      → hash_loop h fuel b digest
        ≡ some (h.update digest (fixture_bytes b.offset (b.size - b.offset)))
  unfolding hash_loop fixture_bytes
  hash_loop_from zero b digest le enough = absurd (omega arith)
  hash_loop_from (suc fuel) b digest le enough = elim (ℕ-cases (taken (pos chunk) b)) [
    | inl z ↦
        ap (after_read fuel digest) (taken_now z)
        ∙ ap some (
            sym (laws.update_nil digest)
            ∙ ap (h.update digest) (same_bytes b.offset b.offset 0 _ refl (omega arith)))
    | inr (m, e) ↦
        ap (after_read fuel digest) (taken_now e)
        ∙ hash_loop_from fuel (advance (suc m) b) (h.update digest (fixture_bytes b.offset (suc m)))
            (omega arith) (omega arith)
        ∙ ap some (
            laws.update-update digest _ _
            ∙ ap (h.update digest) (
                fixture_bytes-append b.offset (suc m) _
                ∙ same_bytes b.offset b.offset _ _ refl (omega arith)))
  ]
    where
      taken_now :
          {n : ℕ}
          → taken (pos chunk) b ≡ n
          → read (pos chunk) b ≡ (fixture_bytes b.offset n, advance n b)
      taken_now e = read_lem (pos chunk) b ∙ ap (λ n. (fixture_bytes b.offset n, advance n b)) e

  -- `pattern_hash` ends, and gives the digest of the first `size` bytes of the fixture stream.
  pub pattern_hash-eq :
      (size : ℕ)
      → pattern_hash h size ≡ some (h.hexdigest (h.update h.start (fixture_bytes 0 size)))
  unfolding pattern_hash
  pattern_hash-eq size =
      ap (Option.map h.hexdigest)
        (hash_loop_from (suc size) (pattern_body size) h.start (omega arith) (omega arith))
      ∙ ap (λ n. some (h.hexdigest (h.update h.start (fixture_bytes 0 n)))) (omega arith)
